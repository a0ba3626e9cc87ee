-- ===== src/LoadBalancer/LeastConnections/Least.antt =====
-- `Next` of the least-connections balancer, while no counter is negative.
use native.Mathlib.Nat.{add-zero}
use peretum.LoadBalancer.LeastConnections.{best_loop, next}
use peretum.LoadBalancer.{Upstream, probe_candidate}
use peretum.Prelude.Int.{ℤ, pos, negsuc}
use peretum.Prelude.{
  ℕ, suc, ◌+◌, ◌≤◌, ◌<◌, ◌≡◌, refl, ap, ◌⊎◌, inl, inr, true, false, Option, none, some, List, [],
  ◌∷◌, map, arith, get_elem?, take, ltb, Bool-cases, ◌&&◌,
}

-- `P` holds of the load of every healthy upstream.
abbrev pub OfHealthy : (ℕ → Type 0) → List Upstream → List ℕ → Type 0
OfHealthy P (u ∷ us) (a ∷ loads) = (u.healthy ≡ true → P a) × OfHealthy P us loads
OfHealthy P _ _ = Unit

pub record IsLeast (us : List Upstream) (loads : List ℕ) (j : ℕ) : Type 0 where
  pub upstream : Upstream
  pub load : ℕ
  pub here : get_elem? us j ≡ some upstream
  pub healthy : upstream.healthy ≡ true
  pub counted : get_elem? loads j ≡ some load
  pub least : OfHealthy (λ a. load ≤ a) us loads
  pub first : OfHealthy (λ a. load < a) (take j us) (take j loads)

OfHealthy-map :
    (P Q : ℕ → Type 0) (us : List Upstream) (loads : List ℕ)
    → ((a : ℕ) → P a → Q a)
    → OfHealthy P us loads
    → OfHealthy Q us loads
OfHealthy-map P Q [] loads f h = tt
OfHealthy-map P Q (u ∷ us) [] f h = tt
OfHealthy-map P Q (u ∷ us) (a ∷ loads) f (p, h) = (λ e. f a (p e), OfHealthy-map P Q us loads f h)

module _ (u : Upstream) (us : List Upstream) (a : ℕ) (loads : List ℕ) (j : ℕ)
    (o : IsLeast us loads j) (smaller : u.healthy ≡ true → o.load < a) where
  IsLeast-cons : IsLeast (u ∷ us) (a ∷ loads) (suc j)
  IsLeast-cons = record {
    upstream = o.upstream;
    load = o.load;
    here = o.here;
    healthy = o.healthy;
    counted = o.counted;
    least = (λ e. omega (arith, smaller e), o.least);
    first = (smaller, o.first);
  }

IsLeast-head :
    (u : Upstream) (us : List Upstream) (a : ℕ) (loads : List ℕ)
    → u.healthy ≡ true
    → OfHealthy (λ b. a ≤ b) us loads
    → IsLeast (u ∷ us) (a ∷ loads) 0
IsLeast-head u us a loads healthy h = record {
  upstream = u;
  load = a;
  here = refl;
  healthy = healthy;
  counted = refl;
  least = (λ e. omega arith, h);
  first = tt;
}

-- The loop from position `i` with the upstream `b` chosen at load `best`.
abbrev Keeps : ℕ → ℕ → ℕ → List Upstream → List ℕ → Option ℕ → Type 0
Keeps i b best us loads r =
    ((r ≡ some b) × OfHealthy (λ a. best ≤ a) us loads)
    ⊎ ((j : ℕ) × (o : IsLeast us loads j) × (r ≡ some (i + j)) × (o.load < best))

abbrev loop : ℕ → List Upstream → List ℕ → Option ℕ → ℤ → Option ℕ
loop i us loads = best_loop i us (map pos loads)

later : (i j : ℕ) {r : Option ℕ} → r ≡ some (suc i + j) → r ≡ some (i + suc j)
later i j e = let s : suc i + j ≡ i + suc j = omega arith in rw (← s) e

module _ (i : ℕ) (u : Upstream) (us : List Upstream) (a : ℕ) (loads : List ℕ) where
  loop_better :
      (b best : ℕ)
      → (u.healthy && ltb a best) ≡ true
      → loop i (u ∷ us) (a ∷ loads) (some b) (pos best) ≡ loop (suc i) us loads (some i) (pos a)
  unfolding best_loop
  loop_better b best h = ground arith

  loop_worse :
      (b best : ℕ)
      → (u.healthy && ltb a best) ≡ false
      → loop i (u ∷ us) (a ∷ loads) (some b) (pos best) ≡ loop (suc i) us loads (some b) (pos best)
  unfolding best_loop
  loop_worse b best h = ground arith

  loop_first :
      u.healthy ≡ true
      → loop i (u ∷ us) (a ∷ loads) none (negsuc 0) ≡ loop (suc i) us loads (some i) (pos a)
  unfolding best_loop
  loop_first h = ground arith

  loop_skip :
      u.healthy ≡ false
      → loop i (u ∷ us) (a ∷ loads) none (negsuc 0) ≡ loop (suc i) us loads none (negsuc 0)
  unfolding best_loop
  loop_skip h = ground arith

loop_end : (i : ℕ) (us : List Upstream) (best : Option ℕ) (load : ℤ) → loop i us [] best load ≡ best
unfolding best_loop
loop_end i [] best load = refl
loop_end i (u ∷ us) best load = refl

loop_end_left :
    (i : ℕ) (loads : List ℕ) (best : Option ℕ) (load : ℤ) → loop i [] loads best load ≡ best
unfolding best_loop
loop_end_left i loads best load = refl

found_here : (i : ℕ) {r : Option ℕ} → r ≡ some i → r ≡ some (i + 0)
found_here i e = rw add-zero e

loop-Keeps :
    (i b best : ℕ) (us : List Upstream) (loads : List ℕ)
    → Keeps i b best us loads (loop i us loads (some b) (pos best))
unfolding IsLeast-cons IsLeast-head
loop-Keeps i b best [] loads = inl (loop_end_left i loads (some b) (pos best), tt)
loop-Keeps i b best (u ∷ us) [] = inl (loop_end i (u ∷ us) (some b) (pos best), tt)
loop-Keeps i b best (u ∷ us) (a ∷ loads) = elim (Bool-cases (u.healthy && ltb a best)) [
  | inl better ↦
      rw (loop_better i u us a loads b best better) (elim (loop-Keeps (suc i) i a us loads) [
        | inl (same, least) ↦
            inr (0, IsLeast-head u us a loads (ground arith) least, found_here i same, ground arith)
        | inr (j, o, found, smaller) ↦
            inr (suc j, IsLeast-cons u us a loads j o (λ h. smaller), later i j found, ground arith)
      ])
  | inr worse ↦
      rw (loop_worse i u us a loads b best worse) (elim (loop-Keeps (suc i) b best us loads) [
        | inl (same, least) ↦ inl (same, (λ h. ground arith, least))
        | inr (j, o, found, smaller) ↦
            inr (suc j, IsLeast-cons u us a loads j o (λ h. ground arith), later i j found, smaller)
      ])
]

abbrev pub NoneHealthy : List Upstream → List ℕ → Type 0
NoneHealthy us loads = OfHealthy (λ a. ⊥) us loads

loop-start :
    (i : ℕ) (us : List Upstream) (loads : List ℕ)
    → ((loop i us loads none (negsuc 0) ≡ none) × NoneHealthy us loads)
      ⊎ ((j : ℕ) × IsLeast us loads j × (loop i us loads none (negsuc 0) ≡ some (i + j)))
loop-start i [] loads = inl (loop_end_left i loads none (negsuc 0), tt)
loop-start i (u ∷ us) [] = inl (loop_end i (u ∷ us) none (negsuc 0), tt)
loop-start i (u ∷ us) (a ∷ loads) = elim (Bool-cases u.healthy) [
  | inl healthy ↦ rw (loop_first i u us a loads healthy) (elim (loop-Keeps (suc i) i a us loads) [
    | inl (same, least) ↦ inr (0, IsLeast-head u us a loads healthy least, found_here i same)
    | inr (j, o, found, smaller) ↦
        inr (suc j, IsLeast-cons u us a loads j o (λ h. smaller), later i j found)
  ])
  | inr sick ↦ rw (loop_skip i u us a loads sick) (elim (loop-start (suc i) us loads) [
    | inl (nothing, dead) ↦ inl (nothing, (λ h. cc, dead))
    | inr (j, o, found) ↦
        inr (suc j, IsLeast-cons u us a loads j o (λ h. absurd (cc)), later i j found)
  ])
]

-- While no counter is negative, `Next` selects the first healthy upstream among those with the
-- fewest connections, and the probe candidate exactly when no upstream is healthy.
pub next-IsLeast :
    (us : List Upstream) (loads : List ℕ)
    → ((j : ℕ) × IsLeast us loads j
        × (next (record { upstreams = us; active = map pos loads }) ≡ some j))
      ⊎ (NoneHealthy us loads
          × (next (record { upstreams = us; active = map pos loads }) ≡ probe_candidate us))
unfolding next
next-IsLeast us loads = elim (loop-start 0 us loads) [
  | inl (nothing, dead) ↦ inr (dead, rw nothing)
  | inr (j, o, found) ↦ inl (j, o, rw found (ap (λ (k : ℕ). some k) (omega arith)))
]
