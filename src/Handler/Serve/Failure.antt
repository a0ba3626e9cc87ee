-- ===== src/Handler/Serve/Failure.antt =====
-- A fetch that fails.
use peretum.Handler.Headers.{header_del}
use peretum.Handler.Serve.Fetch.{finished, world_of, after_proxied, rewrite_request, rewritten}
use peretum.Handler.Serve.{
  Location, Target, HttpRequest, Outside, Exchange, World, bad_gateway, Outcome, request_to,
}
use peretum.Handler.Transport.{Capture, Request}
use peretum.LoadBalancer.Balancer.{Balancer}
use peretum.PluginManager.{PluginManager}
use peretum.Prelude.Bytes.{Bytes, codes}
use peretum.Prelude.{false, none}

module _ {P E : Type 0} (pm : PluginManager (Exchange P) E) (out : Outside) (t : Target)
    (l : Location) where
  -- The error is logged, the reply is a 502 with the headers that were set before the fetch, and the
  -- hooks behind the proxy run, with what the capture holds of an answer.
  abbrev pub failed_outcome : World P → Balancer → Capture → Outcome P
  failed_outcome w lb c =
      finished pm out t l
        (world_of pm out t l lb
          (w.disk_cache, after_proxied pm out t l c none (rewrite_request pm out t l w.exchange)))
        (bad_gateway w.exchange.headers) false

  abbrev pub request_of : HttpRequest → Bytes × Bytes → Request
  request_of r =
      request_to t l (header_del out.canon (codes "Accept-Encoding") r.headers) r.host
        (rewritten pm out t l r.path) r.raw_query
