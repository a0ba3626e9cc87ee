-- ===== src/LoadBalancer/Weighted/Valid.antt =====
-- The invariant of the weighted balancer: every remaining weight is positive between calls.
use peretum.LoadBalancer.Weighted.{
  Weighted, clamp_weight, initial_weights, new_weighted, refill, spend, advance, next_loop, next,
  mark,
}
use peretum.LoadBalancer.{Upstream, is_healthy, all_healthy, mark_healthy}
use peretum.Prelude.Bytes.{Bytes}
use peretum.Prelude.Int.{ℤ, pos, negsuc}
use peretum.Prelude.{
  ℕ, zero, suc, ◌+◌, ◌-◌, ◌%◌, ◌<◌, ◌≡◌, refl, ap, Bool, true, ◌&&◌, List, [], ◌∷◌, arith, length,
  set, get_or, All, All-set, length-set, Bool-cases, inl, inr, ◌==◌, ltb,
}

abbrev pub AllPositive : List ℕ → Type 0
AllPositive = All (λ x. 0 < x)

pub record IsValid (w : Weighted) : Type 0 where
  pub sized : length w.weights ≡ length w.upstreams
  pub positive : AllPositive w.weights

pub clamp_weight_pos : (x : ℤ) → 0 < clamp_weight x
unfolding clamp_weight
clamp_weight_pos (pos zero) = omega arith
clamp_weight_pos (pos (suc w)) = omega arith
clamp_weight_pos (negsuc w) = omega arith

length-refill : (us : List Upstream) (ws : List ℕ) → length (refill us ws) ≡ length ws
unfolding refill
length-refill [] ws = refl
length-refill (u ∷ us) [] = refl
length-refill (u ∷ us) (w ∷ ws) = ap suc (length-refill us ws)

-- The refill turns the one weight that is 0, which is a healthy upstream's, positive again.
refill-AllPositive :
    (us : List Upstream) (ws : List ℕ) (c : ℕ)
    → is_healthy us c ≡ true
    → AllPositive ws
    → AllPositive (refill us (set ws c 0))
unfolding refill
refill-AllPositive [] ws c h a = absurd (cc)
refill-AllPositive (u ∷ us) [] c h a = tt
refill-AllPositive (u ∷ us) (w ∷ ws) zero h (p, a) = rw h (clamp_weight_pos u.weight, rest us ws a)
  where
    rest : (us : List Upstream) (ws : List ℕ) → AllPositive ws → AllPositive (refill us ws)
    rest [] ws a = a
    rest (u ∷ us) [] a = tt
    rest (u ∷ us) (w ∷ ws) (p, a) = (ground (arith, clamp_weight_pos u.weight), rest us ws a)
refill-AllPositive (u ∷ us) (w ∷ ws) (suc c) h (p, a) =
    (ground (arith, clamp_weight_pos u.weight), refill-AllPositive us ws c h a)

pub spend-IsValid :
    (w : Weighted) → is_healthy w.upstreams w.current ≡ true → IsValid w → IsValid (spend w)
unfolding spend
spend-IsValid w healthy v = elim (Bool-cases (get_or w.weights w.current 0 - 1 == 0)) [
  | inl gone ↦
      let e : get_or w.weights w.current 0 - 1 ≡ 0 = ground arith in
      rw (e) (record {
        sized = omega (
          arith,
          length-refill w.upstreams (set w.weights w.current 0),
          length-set w.weights w.current 0,
          v.sized,
        );
        positive = refill-AllPositive w.upstreams w.weights w.current healthy v.positive;
      })
  | inr left ↦ rw left (record {
    sized =
        omega (arith, length-set w.weights w.current (get_or w.weights w.current 0 - 1), v.sized);
    positive =
        All-set (λ x. 0 < x) w.weights w.current (get_or w.weights w.current 0 - 1) v.positive
          (ground arith);
  })
]

loop-IsValid : (n k : ℕ) (w : Weighted) → IsValid w → IsValid (next_loop n k w).0
unfolding next_loop
loop-IsValid n zero w v = v
loop-IsValid n (suc k) w v =
    let c = (w.current + 1) % n in
    elim (Bool-cases (is_healthy w.upstreams c && ltb 0 (get_or w.weights c 0))) [
      | inl taken ↦ rw taken (
          spend-IsValid (advance n w) (ground arith)
            (record { sized = v.sized; positive = v.positive }))
      | inr passed ↦
          rw passed
            (loop-IsValid n k (advance n w) (record { sized = v.sized; positive = v.positive }))
    ]

-- `Next` keeps the invariant: a selection that uses a weight up refills it in the same call.
pub next-IsValid : (w : Weighted) → IsValid w → IsValid (next w).0
unfolding next
next-IsValid w v = elim (Bool-cases (length w.upstreams == 0)) [
  | inl empty ↦ rw empty v
  | inr full ↦ rw full (loop-IsValid (length w.upstreams) (length w.upstreams) w v)
]

length-mark_healthy :
    (us : List Upstream) (url : Bytes) (healthy : Bool) (now : ℕ)
    → length (mark_healthy us url healthy now) ≡ length us
unfolding mark_healthy
length-mark_healthy [] url healthy now = refl
length-mark_healthy (u ∷ us) url healthy now =
    ground (arith, length-mark_healthy us url healthy now)

pub mark-IsValid :
    (w : Weighted) (url : Bytes) (healthy : Bool) (now : ℕ)
    → IsValid w
    → IsValid (mark w url healthy now)
unfolding mark
mark-IsValid w url healthy now v = record {
  sized = omega (arith, length-mark_healthy w.upstreams url healthy now, v.sized);
  positive = v.positive;
}

initial-IsValid : (us : List Upstream) → IsValid (new_weighted us)
unfolding new_weighted
initial-IsValid us = record { sized = sized us; positive = positive us }
  where
    sized : (us : List Upstream) → length (initial_weights us) ≡ length (all_healthy us)
    sized [] = refl
    sized (u ∷ us) = ap suc (sized us)

    positive : (us : List Upstream) → AllPositive (initial_weights us)
    positive [] = tt
    positive (u ∷ us) = (clamp_weight_pos u.weight, positive us)

pub new_weighted-IsValid : (us : List Upstream) → IsValid (new_weighted us)
new_weighted-IsValid us = initial-IsValid us
