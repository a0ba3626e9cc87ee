-- ===== src/LoadBalancer/Maglev/Table.antt =====
-- `buildTableLocked` ends, within its fuel, with a table that holds healthy upstreams only.
use native.Mathlib.Nat.{mod-lt, zero-add}
use peretum.LoadBalancer.Maglev.Permutation.{Reaches}
use peretum.LoadBalancer.Maglev.Filling.{Granted, fill_row_lem}
use peretum.LoadBalancer.Maglev.Seek.{Covers}
use peretum.LoadBalancer.Maglev.Slots.{nonzero, contains, missing, All-nonzero}
use peretum.LoadBalancer.Maglev.{
  Maglev, FillState, has_healthy, permutation_loop, permutation, fill_rounds, build_table_locked,
}
use peretum.LoadBalancer.{Upstream, is_healthy}
use peretum.Prelude.Bytes.{Bytes}
use peretum.Prelude.{
  ℕ, zero, suc, ◌+◌, ◌≤◌, ◌<◌, ◌≡◌, ◌≢◌, ◌∙◌, refl, ◌⊎◌, inl, inr, true, false, some, List, [], ◌∷◌,
  map, arith, length, leb, All, All-mono, Bool-cases, replicate, length-replicate, length-map,
}

-- The state between two rounds.
record IsFilling (size : ℕ) (us : List Upstream) (s : FillState) : Type 0 where
  sized : length s.table ≡ size
  bounded : s.filled ≤ size
  parallel : length s.cursors ≡ length us
  covers : All (Covers s.table s.filled) s.cursors
  granted : Granted us s.table s.filled

abbrev pub AllHealthy : List Upstream → List ℕ → Type 0
AllHealthy us table = All (λ t. is_healthy us t ≡ true) table

-- A full table.
full_healthy :
    (us : List Upstream) (table : List ℕ) (filled : ℕ)
    → Granted us table filled
    → length table ≤ filled
    → AllHealthy us table
full_healthy us table filled g full = elim (Bool-cases (is_healthy us 0)) [
  | inl up ↦
      All-mono _ (λ t. is_healthy us t ≡ true)
        (λ t h. elim h [ inl z ↦ rw z up | inr healthy ↦ healthy ]) table g.slots
  | inr down ↦ both table g.slots (All-nonzero table (omega (arith, g.counted down)))
]
  where
    both :
        (ts : List ℕ)
        → All (λ t. (t ≡ 0) ⊎ (is_healthy us t ≡ true)) ts
        → All (λ t. t ≢ 0) ts
        → All (λ t. is_healthy us t ≡ true) ts
    both [] h k = tt
    both (t ∷ ts) (inl z, h) (k, ks) = absurd (k z)
    both (t ∷ ts) (inr healthy, h) (k, ks) = (healthy, both ts h ks)

-- Each round fills a slot, so the fuel lasts.
rounds_lem :
    (fuel size : ℕ) (us : List Upstream) (s : FillState)
    → has_healthy us ≡ true
    → size < fuel + s.filled
    → IsFilling size us s
    → (table : List ℕ) × (fill_rounds fuel size us s ≡ some table)
      × (length table ≡ size)
      × AllHealthy us table
unfolding fill_rounds
rounds_lem zero size us s up lasts v = absurd (omega (arith, v.bounded))
rounds_lem (suc fuel) size us s up lasts v = elim (Bool-cases (leb size s.filled)) [
  | inl full ↦
      let le : size ≤ s.filled = ground arith in
      (
        s.table,
        rw full,
        v.sized,
        full_healthy us s.table s.filled v.granted (omega (arith, v.sized)),
      )
  | inr room ↦
      let p =
        fill_row_lem size 0 us us s.cursors s.table s.filled v.sized v.bounded v.parallel v.covers
          (λ j. rw zero-add) v.granted in
      let more = p.progress up (ground arith) in
      let (table, done, sized, healthy) = rounds_lem fuel size us p.after up (omega arith) (record {
        sized = p.grows.sized ∙ v.sized;
        bounded = p.bounded;
        parallel = p.parallel ∙ v.parallel;
        covers = p.covers;
        granted = p.granted;
      }) in
      (table, rw (room, p.returned) done, sized, healthy)
]

missing-start :
    (n k : ℕ) (unread : List ℕ)
    → ((z : ℕ) → z < k + n → contains unread z ≡ true)
    → missing k (replicate n 0) unread ≡ 0
missing-start zero k unread h = refl
missing-start (suc n) k unread h =
    rw (h k (omega arith), zero-add) (missing-start n (suc k) unread (λ z lt. h z (omega arith)))

nonzero-start : (n : ℕ) → nonzero (replicate n 0) ≡ 0
nonzero-start zero = refl
nonzero-start (suc n) = rw zero-add (nonzero-start n)

slots-start : (P : ℕ → Type 0) (n : ℕ) → P 0 → All P (replicate n 0)
slots-start P zero p = tt
slots-start P (suc n) p = (p, slots-start P n p)

permutation-below :
    (size h1 h2 n j : ℕ) → 0 < size → All (λ x. x < size) (permutation_loop size h1 h2 n j)
unfolding permutation_loop
permutation-below size h1 h2 zero j h = tt
permutation-below size h1 h2 (suc n) j h = (mod-lt _ h, permutation-below size h1 h2 n (suc j) h)

Covers-start :
    (size : ℕ) (url : Bytes)
    → 0 < size
    → Reaches size url
    → Covers (replicate size 0) 0 (permutation size url)
unfolding permutation
Covers-start size url some_slot reach = (
  omega (
    arith,
    missing-start size 0 (permutation size url) (λ z h. reach z (omega arith)),
    nonzero-start size,
  ),
  rw (length-replicate {A = ℕ} size 0) (permutation-below size _ _ size 0 some_slot),
)

cursors-start :
    (size : ℕ) (us : List Upstream)
    → 0 < size
    → All (λ u. Reaches size u.url) us
    → All (Covers (replicate size 0) 0) (map (λ u. permutation size u.url) us)
cursors-start size [] h r = tt
cursors-start size (u ∷ us) h (r, rs) = (Covers-start size u.url h r, cursors-start size us h rs)

-- With a healthy upstream, and permutations that reach every slot, the table is rebuilt: the loop
-- ends within its fuel, nothing is read out of range, and every slot holds a healthy upstream.
pub build_table_locked-AllHealthy :
    (size : ℕ) (m : Maglev)
    → 0 < size
    → All (λ u. Reaches size u.url) m.upstreams
    → has_healthy m.upstreams ≡ true
    → (table : List ℕ) × (build_table_locked size m ≡ some (record m { table = table }))
      × (length table ≡ size)
      × AllHealthy m.upstreams table
unfolding build_table_locked
build_table_locked-AllHealthy size m some_slot reach up =
    let (table, done, sized, healthy) =
      rounds_lem (size + 1) size m.upstreams
        (record {
          cursors = map (λ u. permutation size u.url) m.upstreams;
          table = replicate size 0;
          filled = 0;
        })
        up (omega arith)
        (record {
          sized = length-replicate size 0;
          bounded = omega arith;
          parallel = length-map m.upstreams (λ u. permutation size u.url);
          covers = cursors-start size m.upstreams some_slot reach;
          granted = record { slots = slots-start _ size (inl refl); counted = λ down. omega arith };
        }) in
    (table, rw (up, done), sized, healthy)

-- With none the table stays as it was.
pub build_table_locked-none_healthy :
    (size : ℕ) (m : Maglev) → has_healthy m.upstreams ≡ false → build_table_locked size m ≡ some m
unfolding build_table_locked
build_table_locked-none_healthy size m down = rw down
