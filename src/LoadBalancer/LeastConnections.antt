-- ===== src/LoadBalancer/LeastConnections.antt =====
-- `leastConnections` of internal/loadbalancer/loadbalancer.go. The counters are int64 values far
-- from the ends of their range: each open connection counts for one.
pub mod Least
pub mod Counts
use peretum.LoadBalancer.{Upstream, probe_candidate, all_healthy, mark_healthy}
use peretum.Prelude.{
  ℕ, suc, Bool, ◌||◌, Option, none, some, List, [], ◌∷◌, if◌then◌else◌, ◌==◌, ◌&&◌,
}
use peretum.Prelude.Bytes.{Bytes, equal}
use peretum.Prelude.Int.{ℤ, pos, negsuc, ◌+ℤ◌, ltb_ℤ, pos_part, neg_part}

pub record LeastConnections : Type 0 where
  pub upstreams : List Upstream
  pub active : List ℤ

unfoldable pub zeros : List Upstream → List ℤ
zeros [] = []
zeros (u ∷ us) = pos 0 ∷ zeros us

unfoldable pub new_least_connections : List Upstream → LeastConnections
unfolding zeros all_healthy
new_least_connections us = record { upstreams = all_healthy us; active = zeros us }

-- `bestActive == -1`
abbrev unset : ℤ → Bool
unset a = pos_part a == 0 && neg_part a == 1

-- The loop of `Next`, with the variables `best` and `bestActive`.
unfoldable pub best_loop : ℕ → List Upstream → List ℤ → Option ℕ → ℤ → Option ℕ
best_loop i (u ∷ us) (curr ∷ active) best best_active =
    let better = u.healthy && (unset best_active || ltb_ℤ curr best_active) in
    best_loop (suc i) us active (if better then some i else best)
      (if better then curr else best_active)
best_loop i _ _ best best_active = best

abbrev or_probe : List Upstream → Option ℕ → Option ℕ
or_probe us none = probe_candidate us
or_probe us (some i) = some i

unfoldable pub next : LeastConnections → Option ℕ
unfolding best_loop
next lc = or_probe lc.upstreams (best_loop 0 lc.upstreams lc.active none (negsuc 0))

unfoldable pub mark : LeastConnections → Bytes → Bool → ℕ → LeastConnections
unfolding mark_healthy
mark lc url healthy now = record lc { upstreams = mark_healthy lc.upstreams url healthy now }

-- The loop of `Increment` and `Decrement`: the counter of the first upstream with the URL moves.
unfoldable pub add_active : ℤ → Bytes → List Upstream → List ℤ → List ℤ
unfolding ◌+ℤ◌
add_active delta url (u ∷ us) (a ∷ active) =
    if equal u.url url then (a +ℤ delta) ∷ active else a ∷ add_active delta url us active
add_active delta url _ active = active

unfoldable pub increment : Bytes → LeastConnections → LeastConnections
unfolding add_active
increment url lc = record lc { active = add_active (pos 1) url lc.upstreams lc.active }

unfoldable pub decrement : Bytes → LeastConnections → LeastConnections
unfolding add_active
decrement url lc = record lc { active = add_active (negsuc 0) url lc.upstreams lc.active }
