-- ===== src/LoadBalancer/Weighted/Blind.antt =====
-- What the weighted balancer selects, against a plain rotation that has no weights at all.
use peretum.LoadBalancer.Weighted.Valid.{
  AllPositive, IsValid, next-IsValid, mark-IsValid, new_weighted-IsValid,
}
use peretum.LoadBalancer.Weighted.{Weighted, new_weighted, spend, advance, next_loop, next, mark}
use peretum.LoadBalancer.{
  Upstream, is_healthy, all_healthy, mark_healthy, probe_candidate, probe_loop, probe_step,
}
use peretum.Prelude.Bytes.{Bytes}
use peretum.Prelude.Int.{pos}
use peretum.Prelude.{
  ℕ, zero, suc, ◌+◌, ◌%◌, ◌≡◌, refl, ap, sym, ◌∙◌, Bool, true, Option, none, some, List, [], ◌∷◌,
  arith, length, get_or, Bool-cases, inl, inr, ◌==◌, ltb, if◌then◌else◌,
}

-- The reference: the next healthy position in cyclic order, in `k` rounds.
unfoldable pub rotate : ℕ → ℕ → List Upstream → ℕ → ℕ × Option ℕ
rotate n zero us cur = (cur, probe_candidate us)
rotate n (suc k) us cur =
    let c = (cur + 1) % n in
    let rest = rotate n k us c in if is_healthy us c then (c, some c) else rest

unfoldable pub rotation : List Upstream → ℕ → ℕ × Option ℕ
unfolding rotate
rotation us cur = if length us == 0 then (cur, none) else rotate (length us) (length us) us cur

abbrev pub selection : Weighted × Option ℕ → ℕ × Option ℕ
selection (w, picked) = (w.current, picked)

positive_at :
    (us : List Upstream) (ws : List ℕ) (c : ℕ)
    → length ws ≡ length us
    → AllPositive ws
    → is_healthy us c ≡ true
    → ltb 0 (get_or ws c 0) ≡ true
positive_at [] ws c e a h = absurd (cc)
positive_at (u ∷ us) [] c e a h = absurd (omega arith)
positive_at (u ∷ us) (w ∷ ws) zero e (p, a) h = ground arith
positive_at (u ∷ us) (w ∷ ws) (suc c) e (p, a) h = positive_at us ws c (omega arith) a h

spend_fields :
    (w : Weighted) → ((spend w).current ≡ w.current) × ((spend w).upstreams ≡ w.upstreams)
unfolding spend
spend_fields w = ground arith

loop-rotate :
    (n k : ℕ) (w : Weighted)
    → IsValid w
    → selection (next_loop n k w) ≡ rotate n k w.upstreams w.current
unfolding next_loop rotate
loop-rotate n zero w v = refl
loop-rotate n (suc k) w v =
    let c = (w.current + 1) % n in
    elim (Bool-cases (is_healthy w.upstreams c)) [
      | inl healthy ↦ rw (
        healthy,
        positive_at w.upstreams w.weights c v.sized v.positive healthy,
        (spend_fields (advance n w)).0,
      )
      | inr sick ↦
          rw sick
            (loop-rotate n k (advance n w) (record { sized = v.sized; positive = v.positive }))
    ]

-- On a valid state `Next` selects what the rotation without weights selects, and moves the
-- position as it does.
pub next-rotation : (w : Weighted) → IsValid w → selection (next w) ≡ rotation w.upstreams w.current
unfolding next rotation
next-rotation w v = elim (Bool-cases (length w.upstreams == 0)) [
  | inl empty ↦ rw empty
  | inr full ↦ rw full (loop-rotate (length w.upstreams) (length w.upstreams) w v)
]

loop-upstreams : (n k : ℕ) (w : Weighted) → (next_loop n k w).0.upstreams ≡ w.upstreams
unfolding next_loop
loop-upstreams n zero w = refl
loop-upstreams n (suc k) w =
    ground (arith, loop-upstreams n k (advance n w), spend_fields (advance n w))

pub next-upstreams : (w : Weighted) → (next w).0.upstreams ≡ w.upstreams
unfolding next
next-upstreams w = ground (arith, loop-upstreams (length w.upstreams) (length w.upstreams) w)

-- The same upstreams with every weight 1.
unfoldable pub unweighted : List Upstream → List Upstream
unweighted [] = []
unweighted (u ∷ us) = record u { weight = pos 1 } ∷ unweighted us

module _ (us : List Upstream) where
  pub length-unweighted : length (unweighted us) ≡ length us
  unfolding unweighted
  length-unweighted = go us
    where
      go : (us : List Upstream) → length (unweighted us) ≡ length us
      go [] = refl
      go (u ∷ us) = ap suc (go us)

  is_healthy-unweighted : (i : ℕ) → is_healthy (unweighted us) i ≡ is_healthy us i
  unfolding unweighted
  is_healthy-unweighted = go us
    where
      go : (us : List Upstream) (i : ℕ) → is_healthy (unweighted us) i ≡ is_healthy us i
      go [] i = refl
      go (u ∷ us) zero = refl
      go (u ∷ us) (suc i) = go us i

probe_loop-unweighted :
    (us : List Upstream) (i : ℕ) (best : Option (ℕ × ℕ))
    → probe_loop i (unweighted us) best ≡ probe_loop i us best
unfolding unweighted probe_loop
probe_loop-unweighted [] i best = refl
probe_loop-unweighted (u ∷ us) i best =
    probe_loop-unweighted us (suc i) (probe_step i u.last_check best)

probe_candidate-unweighted :
    (us : List Upstream) → probe_candidate (unweighted us) ≡ probe_candidate us
unfolding probe_candidate
probe_candidate-unweighted us = rw (probe_loop-unweighted us 0 none)

rotate-unweighted :
    (n k : ℕ) (us : List Upstream) (cur : ℕ) → rotate n k (unweighted us) cur ≡ rotate n k us cur
unfolding rotate
rotate-unweighted n zero us cur = rw (probe_candidate-unweighted us)
rotate-unweighted n (suc k) us cur =
    rw (is_healthy-unweighted us ((cur + 1) % n), rotate-unweighted n k us ((cur + 1) % n))

rotation-unweighted :
    (us : List Upstream) (cur : ℕ) → rotation (unweighted us) cur ≡ rotation us cur
unfolding rotation
rotation-unweighted us cur =
    rw (length-unweighted us, rotate-unweighted (length us) (length us) us cur)

mark_healthy-unweighted :
    (us : List Upstream) (url : Bytes) (healthy : Bool) (now : ℕ)
    → mark_healthy (unweighted us) url healthy now ≡ unweighted (mark_healthy us url healthy now)
unfolding mark_healthy unweighted
mark_healthy-unweighted [] url healthy now = refl
mark_healthy-unweighted (u ∷ us) url healthy now =
    ground (arith, mark_healthy-unweighted us url healthy now)

all_healthy-unweighted :
    (us : List Upstream) → all_healthy (unweighted us) ≡ unweighted (all_healthy us)
unfolding all_healthy unweighted
all_healthy-unweighted [] = refl
all_healthy-unweighted (u ∷ us) = rw (all_healthy-unweighted us)

pub data Call : Type 0 where
  selects : Call
  marks : Bytes → Bool → ℕ → Call

-- What the `Next` calls of a sequence return.
unfoldable pub run : List Call → Weighted → List (Option ℕ)
run [] w = []
run (selects ∷ calls) w = let (w', picked) = next w in picked ∷ run calls w'
run (marks url healthy now ∷ calls) w = run calls (mark w url healthy now)

-- Two valid states with the same upstreams up to the weights, at the same position.
pub record IsTwin (w v : Weighted) : Type 0 where
  pub left : IsValid w
  pub right : IsValid v
  pub upstreams : v.upstreams ≡ unweighted w.upstreams
  pub current : v.current ≡ w.current

module _ {w v : Weighted} (t : IsTwin w v) where
  twin_selection : selection (next v) ≡ selection (next w)
  twin_selection =
      next-rotation v t.right
      ∙ rw (t.upstreams, t.current) (rotation-unweighted w.upstreams w.current)
      ∙ sym (next-rotation w t.left)

  next-IsTwin : IsTwin (next w).0 (next v).0
  next-IsTwin = record {
    left = next-IsValid w t.left;
    right = next-IsValid v t.right;
    upstreams = rw (next-upstreams w, next-upstreams v) t.upstreams;
    current = ap (λ p. p.0) twin_selection;
  }

  mark-IsTwin :
      (url : Bytes) (healthy : Bool) (now : ℕ)
      → IsTwin (mark w url healthy now) (mark v url healthy now)
  unfolding mark
  mark-IsTwin url healthy now = record {
    left = mark-IsValid w url healthy now t.left;
    right = mark-IsValid v url healthy now t.right;
    upstreams = rw t.upstreams (mark_healthy-unweighted w.upstreams url healthy now);
    current = t.current;
  }

run-IsTwin : (calls : List Call) {w v : Weighted} → IsTwin w v → run calls v ≡ run calls w
unfolding run
run-IsTwin [] t = refl
run-IsTwin (selects ∷ calls) {w} {v} t =
    cc (ap (λ p. p.1) (twin_selection t), run-IsTwin calls (next-IsTwin t))
run-IsTwin (marks url healthy now ∷ calls) t = run-IsTwin calls (mark-IsTwin t url healthy now)

-- Whatever the weights are, every sequence of `Next` and `MarkHealthy` calls on a new weighted
-- balancer returns what it returns with all weights 1.
pub run-unweighted :
    (calls : List Call) (us : List Upstream)
    → run calls (new_weighted (unweighted us)) ≡ run calls (new_weighted us)
unfolding new_weighted
run-unweighted calls us = run-IsTwin calls (record {
  left = new_weighted-IsValid us;
  right = new_weighted-IsValid (unweighted us);
  upstreams = all_healthy-unweighted us;
  current = refl;
})
