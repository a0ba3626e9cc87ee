-- ===== src/Handler/Serve/Laws.antt =====
-- A stored response is replayed, and a failed fetch leaves nothing behind.
use peretum.DiskCache.Cache.{Cache}
use peretum.DiskCache.Responses.{Served}
use peretum.Handler.Headers.{is_cache_excluded}
use peretum.Handler.Serve.Lookup.{
  count_hit, record_hit, is_cors_enabled, with_rules, with_cors, with_request_headers,
}
use peretum.Handler.Serve.{
  Location, Target, HttpRequest, Outside, Exchange, World, replayed, Outcome,
}
use peretum.Handler.Transport.{is_grpc_request}
use peretum.PluginManager.{PluginManager}
use peretum.Prelude.Bytes.{Bytes, codes, equal}
use peretum.Prelude.{◌≡◌, Bool, true, false, ◌&&◌, Option, none, some}

cache_of : Cache → Option (Cache × Bool) → Cache
cache_of d none = d
cache_of d (some r) = r.0

module _ {P E : Type 0} (pm : PluginManager (Exchange P) E) (out : Outside) (t : Target)
    (l : Location) where
  -- The outcome of a hit.
  abbrev pub hit_outcome : World P → Cache × Served → Outcome P
  hit_outcome w res = record {
    world = record w {
      disk_cache = count_hit pm out t l res.0;
      exchange = record_hit pm out t l (with_rules pm out t l w.exchange);
    };
    reply = replayed (with_rules pm out t l w.exchange).headers res.1;
    cached = true;
    recorded = false;
  }

  -- A request that may be answered from the cache: not gRPC, not a preflight, in a location with a
  -- cache, and not excluded.
  pub record IsCacheable (r : HttpRequest) : Type 0 where
    pub no_grpc : is_grpc_request out.canon r.headers ≡ false
    pub no_preflight :
        (is_cors_enabled pm out t l l.cors && equal r.method (codes "OPTIONS")) ≡ false
    pub caches : l.cache ≡ true
    pub no_exclude : is_cache_excluded l.cache_excludes r.path ≡ false

  -- The exchange when the cache is asked: the headers for CORS are set on the reply, and those of the
  -- location on the request.
  abbrev pub prepared : Exchange P → Exchange P
  prepared x = with_request_headers pm out t l (with_cors pm out t l x)
