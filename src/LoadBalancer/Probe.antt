-- ===== src/LoadBalancer/Probe.antt =====
-- `probeCandidate` picks the upstream that has gone longest without a check, the first of them.
use peretum.LoadBalancer.{Upstream, probe_step, probe_loop, probe_candidate}
use peretum.Prelude.{
  ℕ, suc, ◌+◌, ◌≤◌, ◌<◌, ◌≡◌, refl, ap, ◌⊎◌, inl, inr, Option, some, List, [], ◌∷◌, arith,
  get_elem?, All, take, ltb, Bool-cases, ltb→lt,
}

-- Position `j` of `us` holds the first upstream with the smallest time.
pub record IsOldest (us : List Upstream) (j : ℕ) : Type 0 where
  pub upstream : Upstream
  pub here : get_elem? us j ≡ some upstream
  pub least : All (λ v. upstream.last_check ≤ v.last_check) us
  pub first : All (λ v. upstream.last_check < v.last_check) (take j us)

-- The loop from position `i` with the candidate `c`, whose time is `best`: it keeps the candidate
-- if no time is smaller, and else finds the first smallest one, which is smaller than `best`.
abbrev Outcome : ℕ → ℕ → ℕ → List Upstream → Option (ℕ × ℕ) → Type 0
Outcome i c best us r =
    ((r ≡ some (c, best)) × All (λ v. best ≤ v.last_check) us)
    ⊎ ((j : ℕ) × (o : IsOldest us j) × (r ≡ some (i + j, o.upstream.last_check))
        × (o.upstream.last_check < best))

All-le :
    (m n : ℕ) (us : List Upstream)
    → m ≤ n
    → All (λ v. n ≤ v.last_check) us
    → All (λ v. m ≤ v.last_check) us
All-le m n [] h a = tt
All-le m n (u ∷ us) h (p, a) = (omega arith, All-le m n us h a)

-- A later smallest upstream stays the first smallest behind one whose time is greater.
IsOldest-cons :
    (u : Upstream) (us : List Upstream) (j : ℕ) (o : IsOldest us j)
    → o.upstream.last_check < u.last_check
    → IsOldest (u ∷ us) (suc j)
IsOldest-cons u us j o h = record {
  upstream = o.upstream;
  here = o.here;
  least = (omega arith, o.least);
  first = (h, o.first);
}

loop-Outcome :
    (i c best : ℕ) (us : List Upstream) → Outcome i c best us (probe_loop i us (some (c, best)))
unfolding probe_loop probe_step IsOldest-cons
loop-Outcome i c best [] = inl (refl, tt)
loop-Outcome i c best (u ∷ us) = elim (Bool-cases (ltb u.last_check best)) [
  | inl less ↦ rw less (elim (loop-Outcome (suc i) i u.last_check us) [
    | inl (same, least) ↦ inr (
      0,
      record { upstream = u; here = refl; least = (omega arith, least); first = tt },
      rw same (ap (λ (k : ℕ). some (k, u.last_check)) (omega arith)),
      ltb→lt _ _ less,
    )
    | inr (j, o, found, smaller) ↦ inr (
      suc j,
      IsOldest-cons u us j o smaller,
      rw found (ap (λ (k : ℕ). some (k, o.upstream.last_check)) (omega arith)),
      omega (arith, ltb→lt _ _ less),
    )
  ])
  | inr more ↦ rw more (elim (loop-Outcome (suc i) c best us) [
    | inl (same, least) ↦ inl (same, (ground arith, least))
    | inr (j, o, found, smaller) ↦ inr (
      suc j,
      IsOldest-cons u us j o (ground arith),
      rw found (ap (λ (k : ℕ). some (k, o.upstream.last_check)) (omega arith)),
      smaller,
    )
  ])
]

-- On any non-empty slice the candidate exists, its last check is the oldest of all, and no
-- earlier upstream has one as old.
pub probe_candidate-IsOldest :
    (u : Upstream) (us : List Upstream)
    → (j : ℕ) × (probe_candidate (u ∷ us) ≡ some j) × IsOldest (u ∷ us) j
unfolding probe_candidate
probe_candidate-IsOldest u us = elim (loop-Outcome 1 0 u.last_check us) [
  | inl (same, least) ↦
      (0, rw same, record { upstream = u; here = refl; least = (omega arith, least); first = tt })
  | inr (j, o, found, smaller) ↦
      (suc j, rw found (ap (λ (k : ℕ). some k) (omega arith)), IsOldest-cons u us j o smaller)
]
