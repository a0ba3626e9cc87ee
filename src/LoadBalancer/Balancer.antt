-- ===== src/LoadBalancer/Balancer.antt =====
-- The interface `LoadBalancer` and `New` of internal/loadbalancer/loadbalancer.go. A value of the
-- interface is one of the four balancers, and a method call goes to its method.
pub mod Contract
use peretum.LoadBalancer.LeastConnections
use peretum.LoadBalancer.LeastConnections.{LeastConnections}
use peretum.LoadBalancer.Maglev
use peretum.LoadBalancer.Maglev.{Maglev}
use peretum.LoadBalancer.RoundRobin
use peretum.LoadBalancer.RoundRobin.{RoundRobin}
use peretum.LoadBalancer.Weighted
use peretum.LoadBalancer.Weighted.{Weighted}
use peretum.LoadBalancer.{Upstream}
use peretum.Prelude.Bytes.{Bytes, codes, equal}
use peretum.Prelude.{ℕ, Bool, ◌||◌, Option, some, ◌>>=◌, List, if◌then◌else◌}

pub data Balancer : Type 0 where
  round_robin : RoundRobin → Balancer
  weighted : Weighted → Balancer
  maglev : Maglev → Balancer
  least : LeastConnections → Balancer

unfoldable pub get_upstreams : Balancer → List Upstream
get_upstreams (round_robin rr) = rr.upstreams
get_upstreams (weighted w) = w.upstreams
get_upstreams (maglev m) = m.upstreams
get_upstreams (least lc) = lc.upstreams

-- `none` is a panic of the table construction.
unfoldable pub new : ℕ → Bytes → List Upstream → Option Balancer
unfolding equal RoundRobin.new_round_robin Weighted.new_weighted Maglev.new_maglev
    LeastConnections.new_least_connections
new size algorithm us =
    if equal algorithm (codes "weighted_rr") || equal algorithm (codes "wrr")
    then some (weighted (Weighted.new_weighted us))
    else if equal algorithm (codes "maglev")
    then (do m ← Maglev.new_maglev size us; some (maglev m))
    else if equal algorithm (codes "least_conn") || equal algorithm (codes "least_connections")
    then some (least (LeastConnections.new_least_connections us))
    else some (round_robin (RoundRobin.new_round_robin us))

unfoldable pub next : ℕ → Balancer → Bytes → Bytes → Option (Balancer × Option ℕ)
next size (round_robin rr) path raw_query =
    let (rr', picked) = RoundRobin.next rr in some (round_robin rr', picked)
next size (weighted w) path raw_query =
    let (w', picked) = Weighted.next w in some (weighted w', picked)
next size (maglev m) path raw_query = do
  (m', picked) ← Maglev.next size m path raw_query
  some (maglev m', picked)
next size (least lc) path raw_query = some (least lc, LeastConnections.next lc)

unfoldable pub mark : Balancer → Bytes → Bool → ℕ → Balancer
mark (round_robin rr) url healthy now = round_robin (RoundRobin.mark rr url healthy now)
mark (weighted w) url healthy now = weighted (Weighted.mark w url healthy now)
mark (maglev m) url healthy now = maglev (Maglev.mark m url healthy now)
mark (least lc) url healthy now = least (LeastConnections.mark lc url healthy now)
