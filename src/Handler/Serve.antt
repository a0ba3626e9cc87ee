-- ===== src/Handler/Serve.antt =====
-- `ServeHTTP` of internal/handler/handler.go for one location, from the hooks to the reply and the
-- store. The request waits at most once, for a flight of another request: what that wait gives is an
-- argument. `httputil.ReverseProxy` gets the response that its transport and `ModifyResponse` leave.
pub mod Fetch
pub mod Lookup
pub mod Laws
pub mod Failure
use peretum.DiskCache.Cache.{Cache}
use peretum.DiskCache.Responses.{
  Attempt, Served, not_served, cut_off, hit, peek, stream_cached_response, set_response_to_cache,
}
use peretum.Handler.Headers.{
  Header, Canon, header_set, header_del, CorsConfig, HeadersConfig, apply_request_headers,
  apply_response_headers_to, set_no_cache_headers, is_cache_excluded, handle_cors,
}
use peretum.Handler.Transport.{
  Url, Outgoing, Capture, new_capture, Response, Send, Request, round_trip, round_trip_grpc, Answer,
  is_grpc_request,
}
use peretum.LoadBalancer.Balancer.{Balancer}
use peretum.PluginManager.{
  PluginManager, run_before_proxy, run_after_proxy, run_after_cache_hit,
  run_transform_response_body, run_before_cache_store, run_should_cache, run_record, run_log_error,
}
use peretum.Prelude.Bytes.{Bytes, codes, equal, cut}
use peretum.Prelude.Int.{ℤ}
use peretum.Prelude.Text.{is_empty}
use peretum.Prelude.{
  ℕ, ◌+◌, Bool, true, false, not, ◌&&◌, ◌||◌, Option, none, some, ◌>>=◌, List, [], ◌∷◌, ◌++◌, ◌==◌,
  ltb, leb, length, if◌then◌else◌,
}

-- The parts of `LocationConfig` that the handler reads, `rewriter` being `ReplaceAllString` of the
-- compiled pattern, `none` without one.
pub record Location : Type 0 where
  pub cache : Bool
  pub cache_ttl : ℕ
  pub cache_excludes : List Bytes
  pub cors : Option CorsConfig
  pub headers : Option HeadersConfig
  pub rewriter : Option (Bytes → Bytes)
  pub redirect : Bytes
  pub upstream : Bytes
  pub web_socket : Bool
  pub pass_host_header : Bool

-- `first_upstream` is the URL to which `Rewrite` points every request before the balancer picks.
pub record Target : Type 0 where
  pub server_name : Bytes
  pub first_upstream : Bytes
  pub host_header : Bytes
  pub max_body_size : ℤ

pub record HttpRequest : Type 0 where
  pub host : Bytes
  pub method : Bytes
  pub headers : Header
  pub path : Bytes
  pub raw_query : Bytes

-- What is not in the repository, or is decided outside of the request: `CacheKey` with its SHA-256,
-- `URL.RequestURI`, the transport, the clock, the calls of the disk, and whether the pool of writers
-- is full.
pub record Outside : Type 0 where
  pub canon : Canon
  pub cache_key : Bytes → Bytes → Bytes
  pub request_uri : Bytes → Bytes → Bytes
  pub send : Send
  pub send_h2c : Send
  pub now : ℕ
  pub copied : Bool
  pub meta_attempt : Attempt
  pub body_attempt : Attempt
  pub pool_full : Bool

-- What the hooks of a request see and may change: the plugins' own data, the request, the headers of
-- the reply, and those of the captured response.
pub record Exchange (P : Type 0) : Type 0 where
  pub plugins : P
  pub request : HttpRequest
  pub headers : Header
  pub captured : Header

-- The state that requests share, and the exchange of the one that is served.
pub record World (P : Type 0) : Type 0 where
  pub disk_cache : Cache
  pub lb : Balancer
  pub exchange : Exchange P

pub data Reply : Type 0 where
  refused : Reply
  preflight : Header → Reply
  replayed : Header → Served → Reply
  redirected_to : ℕ → Bytes → Reply
  proxied : Header → Response → Reply
  bad_gateway : Header → Reply
  grpc : Option Answer → Reply

-- `cached` for the access log, and whether the response is recorded on the request's own flight.
pub record Outcome (P : Type 0) : Type 0 where
  pub world : World P
  pub reply : Reply
  pub cached : Bool
  pub recorded : Bool

-- The wait on a flight: the request owns it, or it waited for one that ended with or without a
-- recorded response.
pub data Flight : Type 0 where
  owner : Flight
  waited : Bool → Flight

-- The metrics that are recorded, and the errors that are logged.
abbrev pub cache_hit : ℕ
cache_hit = 1

abbrev pub cache_miss : ℕ
cache_miss = 2

abbrev pub proxy_error : ℕ
proxy_error = 3

abbrev pub transform_failed : ℕ
transform_failed = 4

abbrev pub store_failed : ℕ
store_failed = 5

abbrev pub write_failed : ℕ
write_failed = 6

-- The scheme and the host in front of and behind "://", `none` for the panic without it.
abbrev pub split_url : Bytes → Option (Bytes × Bytes)
split_url raw = cut raw (codes "://")

-- `getUpstreamURL`
abbrev pub get_upstream_url : Target → Location → Bytes
get_upstream_url t l = if is_empty l.upstream then t.first_upstream else l.upstream

-- The host of the request that is sent on. It is chosen before the balancer picks an upstream.
unfoldable pub forwarded_host : Target → Location → Bytes → Bytes → Bytes
forwarded_host t l host url_host =
    if not (is_empty t.host_header)
    then t.host_header
    else if l.pass_host_header
    then host
    else url_host

abbrev pub request_to : Target → Location → Header → Bytes → Bytes → Bytes → Bytes × Bytes → Request
request_to t l headers host path raw_query url = record {
  outgoing = record {
    url = record { scheme = url.0; host = url.1 };
    headers = headers;
    host = forwarded_host t l host url.1;
  };
  path = path;
  raw_query = raw_query;
}

-- The request that `Rewrite` makes.
unfoldable pub proxy_request : Target → Location → Header → Bytes → Bytes → Bytes → Option Request
proxy_request t l headers host path raw_query = split_url (get_upstream_url t l) >>= λ url.
    some (request_to t l headers host path raw_query url)

abbrev pub is_served : Served → Bool
is_served (hit m age body) = true
is_served _ = false

abbrev pub is_success : Capture → Bool
is_success c = leb 200 c.status_code && ltb c.status_code 300 && not (length c.body == 0)

-- The response rules run before the proxy writes the response.
unfoldable pub modify_response : Canon → Location → Response → Response
modify_response canon l resp =
    let h =
      if l.web_socket && resp.status_code == 101
      then header_set canon (codes "Upgrade") (codes "websocket")
          (header_set canon (codes "Connection") (codes "upgrade") resp.headers)
      else resp.headers in
    record resp {
      headers =
          apply_response_headers_to canon l.headers
            (header_set canon (codes "X-Cache") (codes "MISS") h);
    }
