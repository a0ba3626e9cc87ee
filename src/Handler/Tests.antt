-- ===== src/Handler/Tests.antt =====
-- Runs of the handler's parts, and the theorems at concrete inputs.
use peretum.DiskCache.Cache.{Cache, new}
use peretum.DiskCache.Metadata.{write_metadata}
use peretum.DiskCache.Responses.{Attempt, store_files}
use peretum.Handler.Headers.Laws.{sanitize_response_headers_lem}
use peretum.Handler.Headers.{
  Header, upstream_identity_headers, sanitize_response_headers, is_excluded_by, is_cache_excluded,
}
use peretum.Handler.Serve.{Location, Target, HttpRequest, Outside, Exchange, World}
use peretum.Handler.Transport.Laws.{IsDirected, Ends, round_trip-Ends}
use peretum.Handler.Transport.{
  Outgoing, Capture, new_capture, body_cap, Response, Request, Send, round_trip,
}
use peretum.LoadBalancer.Balancer.Contract.{IsReady}
use peretum.LoadBalancer.Balancer.{Balancer, round_robin, get_upstreams}
use peretum.LoadBalancer.Maglev.{has_healthy}
use peretum.LoadBalancer.{Upstream}
use peretum.PluginManager.{RequestHook, PluginManager}
use peretum.Prelude.Bytes.{Bytes, codes, equal, has_prefix}
use peretum.Prelude.Dict.{lookup, member}
use peretum.Prelude.Int.{pos}
use peretum.Prelude.Streams.{max_int64}
use peretum.Prelude.{
  ℕ, ◌≢◌, ap, drop, ◌+◌, ◌<◌, ◌^◌, ◌≡◌, refl, Bool, true, false, Option, none, some, List, [], ◌∷◌,
  ◌++◌, map, arith, if◌then◌else◌, length, get_elem?,
}

abbrev canon : Bytes → Bytes
canon name = name

abbrev upstream_headers : Header
upstream_headers = (codes "Server", codes "nginx" ∷ []) ∷ (codes "Etag", codes "1" ∷ []) ∷ []

sanitize_response_headers_lem_example :
    lookup (codes "Via") (sanitize_response_headers canon upstream_headers) ≡ (
      if equal (codes "Server") (codes "Via")
      then some (codes "peretum" ∷ [])
      else if member (map canon upstream_identity_headers) (codes "Via")
      then none
      else lookup (codes "Via") upstream_headers)
sanitize_response_headers_lem_example =
    sanitize_response_headers_lem canon (codes "Via") upstream_headers

-- A pattern without a dot excludes every path that begins with it.
prefix_excludes_more : is_cache_excluded (codes "/api/" ∷ []) (codes "/apix") ≡ true
unfolding is_cache_excluded is_excluded_by equal has_prefix peretum.Prelude.Text.trim_suffix
prefix_excludes_more = refl

abbrev upstream : Upstream
upstream = record { url = codes "http://a"; weight = pos 1; healthy = true; last_check = 0 }

abbrev balancer : Balancer
balancer = round_robin (record { upstreams = upstream ∷ []; idx = 0 })

one_healthy : has_healthy (get_upstreams balancer) ≡ true
unfolding has_healthy get_upstreams
one_healthy = refl

balancer-IsReady : IsReady 5 balancer
balancer-IsReady = omega arith

abbrev silent : Send
silent o = none

abbrev outgoing : Outgoing
outgoing = record {
  url = record { scheme = codes "http"; host = codes "a" };
  headers = [];
  host = codes "h";
}

abbrev asks : Request
asks = record { outgoing = outgoing; path = codes "/"; raw_query = [] }

no_largest_limit : body_cap (pos 0) ≢ some max_int64
no_largest_limit = λ e. omega (arith, ap limit_of e)
  where
    limit_of : Option ℕ → ℕ
    limit_of none = 0
    limit_of (some n) = n

-- An upstream that answers any request with one header and a body.
abbrev answers : Send
answers o = some (record {
  status_code = 200;
  headers = upstream_headers;
  body = record { unread = codes "ok"; fails = false };
})

round_trip-Ends_example :
    (lb' : Balancer) × (i : ℕ) × (u : Upstream) × (o : Outgoing) × (res : Balancer
      × Capture
      × Option Response)
    × (get_upstreams lb' ≡ get_upstreams balancer)
    × (get_elem? (get_upstreams balancer) i ≡ some u)
    × (u.healthy ≡ true)
    × IsDirected asks.outgoing u.url o
    × (round_trip 5 canon answers [] (pos 0) 9 asks balancer new_capture ≡ some res)
    × Ends canon answers (pos 0) 9 o u.url lb' new_capture res
round_trip-Ends_example =
    round_trip-Ends 5 canon answers (pos 0) 9 asks balancer new_capture balancer-IsReady one_healthy
      no_largest_limit

abbrev first_try : Attempt
first_try = record {
  tmp = codes "/c/tmp";
  creates = true;
  writes = true;
  syncs = true;
  closes = true;
  renames = true;
}

abbrev key : Bytes
key = codes "ab12"

abbrev outside : Outside
outside = record {
  canon = canon;
  cache_key = λ name uri. key;
  request_uri = λ path raw_query. path;
  send = silent;
  send_h2c = silent;
  now = 9;
  copied = true;
  meta_attempt = first_try;
  body_attempt = first_try;
  pool_full = false;
}

abbrev target : Target
target = record {
  server_name = codes "h";
  first_upstream = codes "http://a";
  host_header = [];
  max_body_size = pos 0;
}

abbrev location : Location
location = record {
  cache = true;
  cache_ttl = 0;
  cache_excludes = [];
  cors = none;
  headers = none;
  rewriter = none;
  redirect = [];
  upstream = [];
  web_socket = false;
  pass_host_header = false;
}

abbrev request : HttpRequest
request = record {
  host = codes "h";
  method = codes "GET";
  headers = [];
  path = codes "/a/";
  raw_query = [];
}

-- A hook of a plugin that takes a prefix off the path and sets a header of the reply.
abbrev strips : RequestHook (Exchange ℕ) ℕ
strips = record {
  before_proxy = λ x. (
    record x {
      plugins = x.plugins + 1;
      request = record x.request { path = drop 2 x.request.path };
      headers = (codes "X-Stripped", codes "1" ∷ []) ∷ x.headers;
    },
    none,
  );
  after_proxy = λ x. (x, none);
}

abbrev manager : PluginManager (Exchange ℕ) ℕ
manager = record {
  plugins = [];
  request_hooks = strips ∷ [];
  body_hooks = [];
  cache_hooks = [];
  metrics_hooks = [];
  error_hooks = [];
}

abbrev unlimited : Cache
unlimited = new (codes "/c") 0 0 []

abbrev page : Header
page = (codes "Vary", codes "a" ∷ codes "b" ∷ []) ∷ []

abbrev stored_cache : Cache
stored_cache =
    (store_files first_try first_try key (write_metadata 200 (codes "h") (codes "/") page)
      (codes "hello") 3 unlimited).0

abbrev arrived : Exchange ℕ
arrived = record { plugins = 0; request = request; headers = []; captured = [] }

-- The exchange behind the hook.
abbrev stripped : Exchange ℕ
stripped = record {
  plugins = 1;
  request = record request { path = codes "/" };
  headers = (codes "X-Stripped", codes "1" ∷ []) ∷ [];
  captured = [];
}

abbrev world : Cache → World ℕ
world d = record { disk_cache = d; lb = balancer; exchange = arrived }
