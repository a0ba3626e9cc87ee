-- ===== src/LoadBalancer/Weighted.antt =====
-- `weightedRoundRobin` of internal/loadbalancer/loadbalancer.go. A remaining weight is never
-- negative, since the code decrements it only when it is positive.
pub mod Valid
pub mod Blind
use peretum.LoadBalancer.{Upstream, probe_candidate, all_healthy, mark_healthy, is_healthy}
use peretum.Prelude.{
  ℕ, zero, suc, ◌+◌, ◌-◌, ◌%◌, Bool, ◌&&◌, Option, none, some, List, [], ◌∷◌, ◌==◌, ltb,
  if◌then◌else◌, length, get_or, set,
}
use peretum.Prelude.Bytes.{Bytes}
use peretum.Prelude.Int.{ℤ, pos, negsuc}

pub record Weighted : Type 0 where
  pub upstreams : List Upstream
  pub weights : List ℕ
  pub current : ℕ
  pub total : ℕ

-- A weight of 0 or less is 1.
unfoldable pub clamp_weight : ℤ → ℕ
clamp_weight (pos zero) = 1
clamp_weight (pos (suc w)) = suc w
clamp_weight (negsuc w) = 1

unfoldable pub initial_weights : List Upstream → List ℕ
initial_weights [] = []
initial_weights (u ∷ us) = clamp_weight u.weight ∷ initial_weights us

abbrev sum : List ℕ → ℕ
sum [] = 0
sum (x ∷ xs) = x + sum xs

unfoldable pub new_weighted : List Upstream → Weighted
unfolding clamp_weight initial_weights all_healthy
new_weighted us = record {
  upstreams = all_healthy us;
  weights = initial_weights us;
  current = 0;
  total = sum (initial_weights us);
}

-- The inner loop over `j`: every healthy upstream gets its weight back.
unfoldable pub refill : List Upstream → List ℕ → List ℕ
refill (u ∷ us) (w ∷ ws) = (if u.healthy then clamp_weight u.weight else w) ∷ refill us ws
refill _ ws = ws

-- `weights[current]--`, and the refill when that reaches 0.
unfoldable pub spend : Weighted → Weighted
spend w =
    let left = get_or w.weights w.current 0 - 1 in
    let ws = set w.weights w.current left in
    if left == 0 then record w { weights = refill w.upstreams ws } else record w { weights = ws }

abbrev pub advance : ℕ → Weighted → Weighted
advance n w = record w { current = (w.current + 1) % n }

unfoldable pub next_loop : ℕ → ℕ → Weighted → Weighted × Option ℕ
next_loop n zero w = (w, probe_candidate w.upstreams)
next_loop n (suc k) w =
    let rest = next_loop n k (advance n w) in
    let c = (w.current + 1) % n in
    if is_healthy w.upstreams c && ltb 0 (get_or w.weights c 0)
    then (spend (advance n w), some c)
    else rest

unfoldable pub next : Weighted → Weighted × Option ℕ
unfolding next_loop spend refill clamp_weight
next w =
    if length w.upstreams == 0
    then (w, none)
    else next_loop (length w.upstreams) (length w.upstreams) w

unfoldable pub mark : Weighted → Bytes → Bool → ℕ → Weighted
unfolding mark_healthy
mark w url healthy now = record w { upstreams = mark_healthy w.upstreams url healthy now }
