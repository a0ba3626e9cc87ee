-- ===== src/LoadBalancer.antt =====
-- internal/loadbalancer/loadbalancer.go: the upstreams and what the four balancers share.
--
-- A `*Upstream` is its position in the slice `upstreams`, since the pointers of a slice are
-- distinct objects; nil is `none`. `LastCheck` is its Unix nanoseconds, 0 for the zero time, for
-- clocks after 1970. Each call is one atomic step: the fields that the source reads and writes by
-- `sync/atomic` are read and written at once.
pub mod Probe
pub mod RoundRobin
pub mod Weighted
pub mod LeastConnections
pub mod Maglev
pub mod Balancer
pub mod HealthCheck
mod Tests
use peretum.Prelude.{
  ℕ, suc, Bool, true, false, Option, none, some, List, [], ◌∷◌, ltb, if◌then◌else◌, get_elem?,
}
use peretum.Prelude.Bytes.{Bytes, equal}
use peretum.Prelude.Int.{ℤ}

pub record Upstream : Type 0 where
  pub url : Bytes
  pub weight : ℤ
  pub healthy : Bool
  pub last_check : ℕ

-- One round of the loop of `probeCandidate`: the candidate with its `candidateNano`.
unfoldable pub probe_step : ℕ → ℕ → Option (ℕ × ℕ) → Option (ℕ × ℕ)
probe_step i nano none = some (i, nano)
probe_step i nano (some (c, best)) = if ltb nano best then some (i, nano) else some (c, best)

unfoldable pub probe_loop : ℕ → List Upstream → Option (ℕ × ℕ) → Option (ℕ × ℕ)
probe_loop i [] best = best
probe_loop i (u ∷ us) best = probe_loop (suc i) us (probe_step i u.last_check best)

abbrev position : Option (ℕ × ℕ) → Option ℕ
position none = none
position (some (i, nano)) = some i

unfoldable pub probe_candidate : List Upstream → Option ℕ
unfolding probe_step probe_loop
probe_candidate us = position (probe_loop 0 us none)

-- The loop at the head of every constructor: each upstream starts healthy.
unfoldable pub all_healthy : List Upstream → List Upstream
all_healthy [] = []
all_healthy (u ∷ us) = record u { healthy = true } ∷ all_healthy us

-- `MarkHealthy` of the round-robin, weighted and least-connections balancers: the first upstream
-- with the URL gets the health and the time.
unfoldable pub mark_healthy : List Upstream → Bytes → Bool → ℕ → List Upstream
mark_healthy [] url healthy now = []
mark_healthy (u ∷ us) url healthy now =
    if equal u.url url
    then record u { healthy = healthy; last_check = now } ∷ us
    else u ∷ mark_healthy us url healthy now

-- `u.Healthy.Load()` of the upstream at a position, and false outside the slice.
abbrev health : Option Upstream → Bool
health none = false
health (some u) = u.healthy

abbrev pub is_healthy : List Upstream → ℕ → Bool
is_healthy us i = health (get_elem? us i)
