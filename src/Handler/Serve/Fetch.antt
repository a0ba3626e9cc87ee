-- ===== src/Handler/Serve/Fetch.antt =====
-- The part of `ServeHTTP` from the rewrite on: the fetch, the reply, the hooks and the store.
use peretum.DiskCache.Cache.{Cache}
use peretum.DiskCache.Responses.{set_response_to_cache}
use peretum.Handler.Headers.{Header, header_del, is_cache_excluded}
use peretum.Handler.Transport.{Capture, new_capture, Response, round_trip}
use peretum.LoadBalancer.Balancer.{Balancer}
use peretum.PluginManager.{
  PluginManager, run_after_proxy, run_transform_response_body, run_before_cache_store,
  run_should_cache, run_log_error,
}
use peretum.Prelude.Bytes.{Bytes, codes, equal}
use peretum.Prelude.Text.{is_empty}
use peretum.Prelude.{
  ℕ, Bool, false, not, ◌&&◌, Option, none, some, ◌>>=◌, [], ◌∷◌, ◌++◌, if◌then◌else◌,
}
use peretum.Handler.Serve.{
  Location, Target, Outside, Exchange, World, Reply, redirected_to, proxied, bad_gateway, Outcome,
  proxy_error, transform_failed, store_failed, write_failed, proxy_request, is_success,
  modify_response,
}

abbrev pub or_empty : Option Bytes → Bytes
or_empty none = []
or_empty (some b) = b

module _ {P : Type 0} where
  -- A hook that gets neither the request nor the reply changes the plugins' data only; the hooks of
  -- the store get the captured headers as well.
  abbrev pub with_plugins : Exchange P → Exchange P → Exchange P
  with_plugins x y = record x { plugins = y.plugins }

  abbrev pub with_captured : Exchange P → Exchange P → Exchange P
  with_captured x y = record x { plugins = y.plugins; captured = y.captured }

module _ {P E : Type 0} (pm : PluginManager (Exchange P) E) (out : Outside) (t : Target)
    (l : Location) where
  abbrev pub log_event : ℕ → Exchange P → Exchange P
  log_event event x = with_plugins x (run_log_error pm event x)

  -- A transformation that fails is logged and leaves the body.
  abbrev pub kept_or_logged : ℕ → Bytes → Exchange P → Option Bytes → Option E → Exchange P × Bytes
  kept_or_logged failed body x transformed none = (x, or_empty transformed)
  kept_or_logged failed body x transformed (some e) = (log_event failed x, body)

  abbrev pub logged_write : Exchange P → Cache × Bool → Cache × Exchange P
  logged_write x r = (r.0, if r.1 then x else log_event write_failed x)

  -- The store of a successful response, skipped if the pool of writers is full.
  unfoldable pub store_response : Bytes → Capture → Cache → Exchange P → Option (Cache × Exchange P)
  store_response key c d x =
      let r = run_transform_response_body pm c.body x in
      let (x1, body) = kept_or_logged transform_failed c.body (with_plugins x r.0) r.1 r.2 in
      let r1 = run_before_cache_store pm body x1 in
      let (x2, store_body) = kept_or_logged store_failed body (with_captured x1 r1.0) r1.1 r1.2 in
      let r2 = run_should_cache pm store_body x2 in
      let x3 = with_captured x2 r2.0 in
      if r2.1 && not out.pool_full
      then (set_response_to_cache out.meta_attempt out.body_attempt key t.server_name
            (out.request_uri x3.request.path x3.request.raw_query) c.status_code x3.captured
            store_body out.now d
          >>= λ written. some (logged_write x3 written))
      else some (d, x3)

  abbrev pub is_stored : Bytes → Capture → Bool
  is_stored path c = l.cache && not (is_cache_excluded l.cache_excludes path) && is_success c

  -- What the client gets of a round trip, and the error that is logged.
  abbrev pub reply_of : Header → Option Response → Reply
  reply_of h none = bad_gateway h
  reply_of h (some resp) = proxied h (modify_response out.canon l resp)

  abbrev pub after_reply : Option Response → Exchange P → Exchange P
  after_reply none x = log_event proxy_error x
  after_reply (some resp) x = x

  abbrev pub rewritten : Bytes → Bytes
  rewritten path = elim l.rewriter [ none ↦ path | some replace ↦ replace path ]

  abbrev pub finished : World P → Reply → Bool → Outcome P
  finished w reply recorded = record {
    world = w;
    reply = reply;
    cached = false;
    recorded = recorded;
  }

  abbrev pub world_of : Balancer → Cache × Exchange P → World P
  world_of lb s = record { disk_cache = s.0; lb = lb; exchange = s.1 }

  -- The hooks behind the reply, which get the captured headers.
  abbrev pub after_proxied : Capture → Option Response → Exchange P → Exchange P
  after_proxied c resp x =
      (run_after_proxy pm (record (after_reply resp x) { captured = c.headers })).0

  -- Behind the reply of a round trip: the hooks and the store.
  unfoldable pub settle :
      Bytes → Bool → Cache → Exchange P → Balancer × Capture × Option Response → Option (Outcome P)
  settle key owns d x r =
      let reply = reply_of x.headers r.2 in
      let x' = after_proxied r.1 r.2 x in
      if is_stored x'.request.path r.1
      then (store_response key r.1 d x' >>= λ s. some (finished (world_of r.0 s) reply owns))
      else some (finished (world_of r.0 (d, x')) reply false)

  -- The request with its path rewritten.
  abbrev pub rewrite_request : Exchange P → Exchange P
  rewrite_request x = record x { request = record x.request { path = rewritten x.request.path } }

  -- From the rewrite on. The path that is sent on is rewritten, and the target of a redirect once
  -- more.
  unfoldable pub fetch : ℕ → Bytes → Bool → World P → Option (Outcome P)
  fetch size key owns w =
      let x = rewrite_request w.exchange in
      let r = x.request in
      if not (is_empty l.redirect)
      then some (
          finished (record w { exchange = x })
            (redirected_to (if equal l.redirect (codes "redirect") then 302 else 301)
              (rewritten r.path ++ (63 ∷ r.raw_query)))
            false)
      else do
        q ←
            proxy_request t l (header_del out.canon (codes "Accept-Encoding") r.headers) r.host
              r.path r.raw_query
        res ←
            round_trip size out.canon out.send l.upstream t.max_body_size out.now q w.lb new_capture
        settle key owns w.disk_cache x res
