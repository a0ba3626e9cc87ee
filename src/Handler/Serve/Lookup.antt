-- ===== src/Handler/Serve/Lookup.antt =====
-- The part of `ServeHTTP` up to the fetch: the hooks, gRPC, the preflight, the lookup in the cache and
-- the wait on a flight.
use peretum.DiskCache.Cache.{Cache}
use peretum.DiskCache.Responses.{Served, not_served, peek, stream_cached_response}
use peretum.Handler.Headers.{
  Header, CorsConfig, HeadersConfig, apply_request_headers, apply_response_headers_to,
  set_no_cache_headers, is_cache_excluded, handle_cors,
}
use peretum.Handler.Transport.{round_trip_grpc, is_grpc_request}
use peretum.LoadBalancer.Balancer.{Balancer}
use peretum.PluginManager.{PluginManager, run_before_proxy, run_after_cache_hit, run_record}
use peretum.Prelude.Bytes.{Bytes, codes, equal}
use peretum.Prelude.Text.{is_empty}
use peretum.Prelude.{ℕ, ◌+◌, Bool, true, false, ◌&&◌, Option, none, some, ◌>>=◌, if◌then◌else◌}
use peretum.Handler.Serve.{
  Location, Target, HttpRequest, Outside, Exchange, World, refused, preflight, replayed, grpc,
  Outcome, Flight, owner, waited, cache_hit, cache_miss, proxy_error, get_upstream_url,
  proxy_request, is_served,
}
use peretum.Handler.Serve.Fetch.{with_plugins, log_event, finished, world_of, fetch}

module _ {P E : Type 0} (pm : PluginManager (Exchange P) E) (out : Outside) (t : Target)
    (l : Location) where
  abbrev pub record_event : ℕ → Exchange P → Exchange P
  record_event event x = with_plugins x (run_record pm event x)

  -- A hit, of the cache or of a flight.
  abbrev pub record_hit : Exchange P → Exchange P
  record_hit x = (run_after_cache_hit pm (record_event cache_hit x)).0

  abbrev pub count_hit : Cache → Cache
  count_hit d = record d { hits = d.hits + 1 }

  abbrev pub count_miss : Cache → Cache
  count_miss d = record d { misses = d.misses + 1 }

  abbrev pub with_rules : Exchange P → Exchange P
  with_rules x = record x { headers = apply_response_headers_to out.canon l.headers x.headers }

  -- `serveWaiterFromFlight`: the hit is counted before the entry is read.
  unfoldable pub serve_waiter : Bytes → Bool → World P → World P × Served
  serve_waiter key recorded w =
      let res =
        stream_cached_response key l.cache_ttl out.now out.copied (count_hit w.disk_cache) in
      if recorded
      then (record w { disk_cache = res.0; exchange = with_rules (record_hit w.exchange) }, res.1)
      else (w, not_served)

  -- Behind the lookup: a request that may be cached joins the flight of its key.
  unfoldable pub join_flight : ℕ → Bytes → Flight → World P → Option (Outcome P)
  join_flight size key owner w = fetch pm out t l size key true w
  join_flight size key (waited recorded) w =
      let served = serve_waiter key recorded w in
      if is_served served.1
      then some (record {
        world = served.0;
        reply = replayed served.0.exchange.headers served.1;
        cached = true;
        recorded = false;
      })
      else fetch pm out t l size key false served.0

  -- The lookup in the cache, and what follows a miss.
  unfoldable pub lookup_cache : ℕ → Bytes → Flight → World P → Option (Outcome P)
  lookup_cache size key flight w =
      let x =
        if peek key l.cache_ttl out.now w.disk_cache then with_rules w.exchange else w.exchange in
      let res = stream_cached_response key l.cache_ttl out.now out.copied w.disk_cache in
      if is_served res.1
      then some (record {
        world = record w { disk_cache = count_hit res.0; exchange = record_hit x };
        reply = replayed x.headers res.1;
        cached = true;
        recorded = false;
      })
      else join_flight size key flight
          (record w { disk_cache = count_miss res.0; exchange = record_event cache_miss x })

  abbrev pub key_of : HttpRequest → Bytes
  key_of r = out.cache_key t.server_name (out.request_uri r.path r.raw_query)

  -- The requests of excluded paths and of locations without a cache are fetched at once.
  unfoldable pub serve_http_cached : ℕ → Flight → World P → Option (Outcome P)
  serve_http_cached size flight w =
      let x = w.exchange in
      if is_cache_excluded l.cache_excludes x.request.path
      then fetch pm out t l size (key_of x.request) false
          (record w { exchange = record x { headers = set_no_cache_headers out.canon x.headers } })
      else if l.cache
      then lookup_cache size (key_of x.request) flight w
      else fetch pm out t l size (key_of x.request) false w

  -- `serveGRPC`; without an upstream and without an answer it is a 502.
  unfoldable pub serve_grpc : ℕ → World P → Option (Outcome P)
  serve_grpc size w =
      let failed = λ (lb : Balancer).
        world_of pm out t l lb (w.disk_cache, log_event pm out t l proxy_error w.exchange) in
      let r = w.exchange.request in
      if is_empty (get_upstream_url t l)
      then some (finished pm out t l (failed w.lb) (grpc none) false)
      else do
        q ← proxy_request t l r.headers r.host r.path r.raw_query
        res ← round_trip_grpc size out.send out.send_h2c l.upstream out.now q w.lb
        some (elim res.1 [
          | none ↦ finished pm out t l (failed res.0) (grpc none) false
          | some a ↦ finished pm out t l (record w { lb = res.0 }) (grpc (some a)) false
        ])

  abbrev pub is_cors_enabled : Option CorsConfig → Bool
  is_cors_enabled none = false
  is_cors_enabled (some cors) = cors.enabled

  abbrev pub cors_of : Option CorsConfig → Header → Header → Header
  cors_of none request h = h
  cors_of (some cors) request h = if cors.enabled then handle_cors out.canon cors request h else h

  abbrev pub with_cors : Exchange P → Exchange P
  with_cors x = record x { headers = cors_of l.cors x.request.headers x.headers }

  abbrev pub request_headers : Option HeadersConfig → Header → Header
  request_headers none h = h
  request_headers (some c) h = apply_request_headers out.canon c h

  abbrev pub with_request_headers : Exchange P → Exchange P
  with_request_headers x = record x {
    request = record x.request { headers = request_headers l.headers x.request.headers };
  }

  -- Behind the hooks: gRPC, the preflight, and the other requests with their new headers.
  unfoldable pub dispatch : ℕ → Flight → World P → Option (Outcome P)
  dispatch size flight w =
      let x = with_cors w.exchange in
      if is_grpc_request out.canon w.exchange.request.headers
      then serve_grpc size w
      else if is_cors_enabled l.cors && equal w.exchange.request.method (codes "OPTIONS")
      then some (finished pm out t l (record w { exchange = x }) (preflight x.headers) false)
      else serve_http_cached size flight (record w { exchange = with_request_headers x })

  -- A hook that fails has written the reply itself.
  abbrev pub after_hooks : ℕ → Flight → World P → Exchange P × Option E → Option (Outcome P)
  after_hooks size flight w hooked = elim hooked.1 [
    | some e ↦ some (finished pm out t l (record w { exchange = hooked.0 }) refused false)
    | none ↦ dispatch size flight (record w { exchange = hooked.0 })
  ]

  -- The method `ServeHTTP`. The hooks may rewrite the request and set headers of the reply.
  unfoldable pub serve_http : ℕ → Flight → World P → Option (Outcome P)
  serve_http size flight w = after_hooks size flight w (run_before_proxy pm w.exchange)
