-- ===== src/LoadBalancer/Tests.antt =====
-- Runs of the load balancers, and the theorems about them at concrete inputs.
use mathlib.Core.Bool.{false≢true}
use peretum.LoadBalancer.Balancer
use peretum.LoadBalancer.Balancer.Contract.{Selects, next-Selects}
use peretum.LoadBalancer.Balancer.{Balancer, get_upstreams}
use peretum.LoadBalancer.HealthCheck.Recovery.{probed, probe_unhealthy_lem}
use peretum.LoadBalancer.HealthCheck.{Fetch, default_health_check_config, probe, probe_unhealthy}
use peretum.LoadBalancer.LeastConnections
use peretum.LoadBalancer.LeastConnections.Least.{NoneHealthy, IsLeast, next-IsLeast}
use peretum.LoadBalancer.Maglev
use peretum.LoadBalancer.Maglev.Lifetime.{next-stable, next-mark_down}
use peretum.LoadBalancer.Maglev.Selection
use peretum.LoadBalancer.Maglev.Permutation.{Reaches-of_inverse}
use peretum.LoadBalancer.Maglev.Permutation.{Reaches}
use peretum.LoadBalancer.Maglev.Table.{AllHealthy, build_table_locked-AllHealthy}
use peretum.LoadBalancer.Maglev.{Maglev, has_healthy, build_table_locked}
use peretum.LoadBalancer.Probe.{IsOldest, probe_candidate-IsOldest}
use peretum.LoadBalancer.RoundRobin
use peretum.LoadBalancer.RoundRobin.{RoundRobin}
use peretum.LoadBalancer.Weighted
use peretum.LoadBalancer.Weighted.Blind.{Call, selects, marks, run, unweighted, run-unweighted}
use peretum.LoadBalancer.Weighted.{new_weighted}
use peretum.LoadBalancer.{Upstream, is_healthy, probe_candidate}
use peretum.Prelude.Bytes.{Bytes, codes, equal, equal_iff, cut}
use peretum.Prelude.Crc.{crc32}
use peretum.Prelude.Int.{pos, negsuc}
use peretum.Prelude.{
  ℕ, ◌≡◌, ◌≢◌, ◌⊎◌, refl, true, false, Option, none, some, List, [], ◌∷◌, arith, length,
  if◌then◌else◌,
}

abbrev a_url : Bytes
a_url = codes "http://a"

abbrev b_url : Bytes
b_url = codes "http://b"

abbrev up : Bytes → ℕ → Upstream
up url weight = record { url = url; weight = pos weight; healthy = true; last_check = 0 }

abbrev down : Bytes → ℕ → Upstream
down url checked = record { url = url; weight = pos 1; healthy = false; last_check = checked }

abbrev one_down : List Upstream
one_down = down a_url 7 ∷ up b_url 2 ∷ []

abbrev both_down : List Upstream
both_down = down a_url 7 ∷ down b_url 3 ∷ []

probe_candidate-IsOldest_example :
    (j : ℕ) × (probe_candidate both_down ≡ some j) × IsOldest both_down j
probe_candidate-IsOldest_example = probe_candidate-IsOldest (down a_url 7) (down b_url 3 ∷ [])

abbrev counter : RoundRobin
counter = record { upstreams = one_down; idx = 4 }

round_robin_skips : RoundRobin.next counter ≡ (record counter { idx = 6 }, some 1)
unfolding RoundRobin.next
round_robin_skips = refl

abbrev weighted_calls : List Call
weighted_calls = selects ∷ selects ∷ marks a_url false 9 ∷ selects ∷ selects ∷ []

abbrev uneven : List Upstream
uneven = up a_url 9 ∷ up b_url 1 ∷ []

-- Nine to one, and the two take turns.
weighted_takes_turns :
    run (selects ∷ selects ∷ selects ∷ selects ∷ []) (new_weighted uneven)
    ≡ some 1 ∷ some 0 ∷ some 1 ∷ some 0 ∷ []
unfolding run new_weighted Weighted.next
weighted_takes_turns = refl

run-unweighted_example :
    run weighted_calls (new_weighted (unweighted uneven)) ≡ run weighted_calls (new_weighted uneven)
run-unweighted_example = run-unweighted weighted_calls uneven

next-IsLeast_example :
    ((j : ℕ) × IsLeast one_down (2 ∷ 5 ∷ []) j
      × (LeastConnections.next (record { upstreams = one_down; active = pos 2 ∷ pos 5 ∷ [] })
          ≡ some j))
    ⊎ (NoneHealthy one_down (2 ∷ 5 ∷ [])
        × (LeastConnections.next (record { upstreams = one_down; active = pos 2 ∷ pos 5 ∷ [] })
            ≡ probe_candidate one_down))
next-IsLeast_example = next-IsLeast one_down (2 ∷ 5 ∷ [])

abbrev counters : LeastConnections.LeastConnections
counters = record { upstreams = one_down; active = pos 2 ∷ pos 5 ∷ [] }

-- A counter at -1 hides behind the sentinel of the loop: the busier upstream is taken.
negative_counter :
    LeastConnections.next
      (record { upstreams = up a_url 1 ∷ up b_url 1 ∷ []; active = negsuc 0 ∷ pos 5 ∷ [] })
    ≡ some 1
unfolding LeastConnections.next
negative_counter = refl

reach_a : Reaches 5 a_url
unfolding crc32
reach_a = Reaches-of_inverse 5 a_url 1 (omega arith) refl

reach_b : Reaches 5 b_url
unfolding crc32
reach_b = Reaches-of_inverse 5 b_url 4 (omega arith) refl

abbrev stale : Maglev
stale = record { upstreams = one_down; table = 0 ∷ 0 ∷ 1 ∷ 0 ∷ 1 ∷ []; dirty = true }

abbrev dead : Maglev
dead = record stale { upstreams = both_down; dirty = false }

rebuilt : build_table_locked 5 stale ≡ some (record stale { table = 1 ∷ 1 ∷ 1 ∷ 1 ∷ 1 ∷ [] })
unfolding build_table_locked crc32
rebuilt = refl

build_table_locked-AllHealthy_example :
    (table : List ℕ) × (build_table_locked 5 stale ≡ some (record stale { table = table }))
    × (length table ≡ 5)
    × AllHealthy one_down table
unfolding has_healthy
build_table_locked-AllHealthy_example =
    build_table_locked-AllHealthy 5 stale (omega arith) (reach_a, (reach_b, tt)) refl

stale-IsValid : Selection.IsValid 5 stale
stale-IsValid = record {
  some_slot = omega arith;
  reach = (reach_a, (reach_b, tt));
  sized = λ h. refl;
  positions = omega arith;
  fresh = λ h. cc;
}

dead-IsValid : Selection.IsValid 5 dead
unfolding has_healthy
dead-IsValid = record {
  some_slot = omega arith;
  reach = (reach_a, (reach_b, tt));
  sized = λ h. refl;
  positions = omega arith;
  fresh = λ h k. cc;
}

abbrev path : Bytes
path = codes "/x"

next-Selects_example :
    (b' : Balancer) × (picked : Option ℕ) × (Balancer.next 5 (Balancer.maglev stale) path []
      ≡ some (b', picked))
    × (get_upstreams b' ≡ get_upstreams (Balancer.maglev stale))
    × Selects (get_upstreams (Balancer.maglev stale)) picked
next-Selects_example = next-Selects 5 (Balancer.maglev stale) path [] stale-IsValid

next-dead : Maglev.next 5 dead path [] ≡ some (dead, some 1)
unfolding Maglev.next Maglev.refresh probe_candidate crc32
next-dead = refl

next-stable_example : Maglev.next 5 dead path [] ≡ some (dead, some 1)
next-stable_example = next-stable 5 dead dead path [] (some 1) dead-IsValid next-dead

next-mark_down_example :
    (some 1 ≡ probe_candidate both_down)
    × (Maglev.next 5 (Maglev.mark dead b_url false 100) path [] ≡ some (dead, some 1))
unfolding has_healthy
next-mark_down_example =
    next-mark_down 5 dead dead path [] b_url 100 (some 1) dead-IsValid refl next-dead

-- Only the second upstream answers.
abbrev fetch_b : Fetch
fetch_b url headers = if equal url (codes "http://b/healthz") then some 200 else none

probe_runs :
    (probe fetch_b default_health_check_config a_url ≡ false)
    × (probe fetch_b default_health_check_config b_url ≡ true)
unfolding probe equal cut
probe_runs = (refl, refl)

a_ne_b : ◌≢◌ {A = Bytes} a_url b_url
unfolding equal
a_ne_b e = absurd (false≢true ((equal_iff a_url b_url).1 e))

probe_unhealthy_lem_example :
    is_healthy
      (get_upstreams
        (probe_unhealthy fetch_b default_health_check_config (λ i. 100) (Balancer.maglev dead)))
      1
    ≡ probed fetch_b default_health_check_config (Balancer.maglev dead) 1
unfolding get_upstreams
probe_unhealthy_lem_example =
    probe_unhealthy_lem fetch_b default_health_check_config (λ i. 100) (Balancer.maglev dead)
      ((a_ne_b, tt), (tt, tt)) 1
