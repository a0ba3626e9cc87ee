-- ===== src/LoadBalancer/Maglev/Selection.antt =====
-- What `Next` of the Maglev balancer returns, over any sequence of health changes.
use native.Mathlib.Nat.{mod-lt}
use peretum.LoadBalancer.Maglev.Permutation.{Reaches}
use peretum.LoadBalancer.Maglev.Table.{
  AllHealthy, build_table_locked-AllHealthy, build_table_locked-none_healthy,
}
use peretum.LoadBalancer.Maglev.{
  Maglev, has_healthy, build_table_locked, first_healthy, refresh, pick, next,
}
use peretum.LoadBalancer.{Upstream, is_healthy, probe_candidate}
use peretum.Prelude.Bytes.{Bytes}
use peretum.Prelude.Crc.{crc32}
use peretum.Prelude.{
  ℕ, zero, suc, ◌%◌, ◌<◌, ◌≡◌, ◌≢◌, refl, ap, ◌⊎◌, inl, inr, true, false, Option, none, some, List,
  [], ◌∷◌, ◌++◌, arith, length, get_elem?, get_elem?-lt, ◌==◌, ◌||◌, All, All-mono, All-get_elem?,
  Bool-cases, Option-cases, lt-get_elem?,
}

-- A table that holds positions of upstreams, and only healthy ones unless it is to be rebuilt or
-- no upstream is healthy.
pub record IsValid (size : ℕ) (m : Maglev) : Type 0 where
  pub some_slot : 0 < size
  pub reach : All (λ u. Reaches size u.url) m.upstreams
  pub sized : m.upstreams ≢ [] → length m.table ≡ size
  pub positions : All (λ t. t < length m.upstreams) m.table
  pub fresh : m.dirty ≡ false → has_healthy m.upstreams ≡ true → AllHealthy m.upstreams m.table

pub healthy_position : (us : List Upstream) (i : ℕ) → is_healthy us i ≡ true → i < length us
healthy_position us i h = elim (Option-cases (get_elem? us i)) [
  | inl out ↦ absurd (ground arith)
  | inr (u, e) ↦ lt-get_elem? us i u e
]

pub refresh_built :
    (size : ℕ) (m m' : Maglev)
    → m.dirty ≡ true
    → build_table_locked size m ≡ some m'
    → refresh size m ≡ some (record m' { dirty = false })
unfolding refresh
refresh_built size m m' dirty done = ground arith

pub refresh_clean : (size : ℕ) (m : Maglev) → m.dirty ≡ false → refresh size m ≡ some m
unfolding refresh
refresh_clean size m clean = ground arith

-- `refresh` succeeds, leaves the upstreams alone and gives a table that is up to date.
pub refresh_lem :
    (size : ℕ) (m : Maglev)
    → IsValid size m
    → (m' : Maglev) × (refresh size m ≡ some m')
      × IsValid size m'
      × (m'.dirty ≡ false)
      × (m'.upstreams ≡ m.upstreams)
refresh_lem size m v = elim (Bool-cases m.dirty) [
  | inr clean ↦ (m, refresh_clean size m clean, v, clean, refl)
  | inl dirty ↦ elim (Bool-cases (has_healthy m.upstreams)) [
    | inl up ↦
        let (table, done, sized, healthy) =
          build_table_locked-AllHealthy size m v.some_slot v.reach up in
        (
          record m { table = table; dirty = false },
          refresh_built size m _ dirty done,
          record {
            some_slot = v.some_slot;
            reach = v.reach;
            sized = λ h. sized;
            positions = All-mono _ _ (healthy_position m.upstreams) table healthy;
            fresh = λ h k. healthy;
          },
          refl,
          refl,
        )
    | inr down ↦ (
      record m { dirty = false },
      refresh_built size m m dirty (build_table_locked-none_healthy size m down),
      record {
        some_slot = v.some_slot;
        reach = v.reach;
        sized = v.sized;
        positions = v.positions;
        fresh = λ h k. absurd (cc);
      },
      refl,
      refl,
    )
  ]
]

pub has_healthy_of_position :
    (us : List Upstream) (i : ℕ) → is_healthy us i ≡ true → has_healthy us ≡ true
unfolding has_healthy
has_healthy_of_position [] i h = cc
has_healthy_of_position (u ∷ us) zero h = ground arith
has_healthy_of_position (u ∷ us) (suc i) h = ground (arith, has_healthy_of_position us i h)

first_healthy-none :
    (i : ℕ) (us : List Upstream) → has_healthy us ≡ false → first_healthy i us ≡ none
unfolding first_healthy has_healthy
first_healthy-none i [] h = refl
first_healthy-none i (u ∷ us) h = ground (arith, first_healthy-none (suc i) us)

-- The selection for a hash from an up-to-date table: a healthy upstream if there is one.
pick_healthy :
    (size : ℕ) (m : Maglev) (hash : ℕ)
    → IsValid size m
    → m.dirty ≡ false
    → has_healthy m.upstreams ≡ true
    → (i : ℕ) × (pick size m hash ≡ some (some i)) × (is_healthy m.upstreams i ≡ true)
unfolding pick has_healthy
pick_healthy size m hash v clean up =
    let some_up : m.upstreams ≢ [] = λ e. absurd (ground arith) in
    let sized = v.sized some_up in
    let (idx, at) = get_elem?-lt m.table (hash % size) (rw sized (mod-lt hash v.some_slot)) in
    let healthy = All-get_elem? _ m.table (hash % size) idx (v.fresh clean up) at in
    let (u, here) = get_elem?-lt m.upstreams idx (healthy_position m.upstreams idx healthy) in
    let u_up : u.healthy ≡ true = ground arith in
    let full : (length m.upstreams == 0 || length m.table == 0) ≡ false =
      ground (arith, healthy_position m.upstreams idx healthy, v.some_slot) in
    (idx, rw (full, at, here, u_up), healthy)

-- With none it is the probe candidate, or nil for no upstreams at all.
pick_down :
    (size : ℕ) (m : Maglev) (hash : ℕ)
    → IsValid size m
    → has_healthy m.upstreams ≡ false
    → (pick size m hash ≡ some (probe_candidate m.upstreams))
unfolding pick probe_candidate
pick_down size m hash v down = elim (Bool-cases (length m.upstreams == 0)) [
  | inl empty ↦ let e : m.upstreams ≡ [] = ground arith in rw (empty) (rw e refl)
  | inr full ↦
      let some_up : m.upstreams ≢ [] = λ e. absurd (ground arith) in
      let sized = v.sized some_up in
      let (idx, at) = get_elem?-lt m.table (hash % size) (rw sized (mod-lt hash v.some_slot)) in
      let below = All-get_elem? _ m.table (hash % size) idx v.positions at in
      let (u, here) = get_elem?-lt m.upstreams idx below in
      let u_down : u.healthy ≡ false = ground (arith, has_healthy_of_position m.upstreams idx) in
      let t : (length m.table == 0) ≡ false = ground (arith, v.some_slot) in
      rw (full, t, at, here, u_down, first_healthy-none 0 m.upstreams down)
]

-- `Next` never panics and always ends. It returns a healthy upstream if there is one, and else the
-- probe candidate; the state that it leaves is valid and has the same upstreams.
pub next_lem :
    (size : ℕ) (m : Maglev) (path raw_query : Bytes)
    → IsValid size m
    → (m' : Maglev) × (picked : Option ℕ) × (next size m path raw_query ≡ some (m', picked))
      × IsValid size m'
      × (m'.upstreams ≡ m.upstreams)
      × (((i : ℕ) × (picked ≡ some i) × (is_healthy m.upstreams i ≡ true))
          ⊎ ((has_healthy m.upstreams ≡ false) × (picked ≡ probe_candidate m.upstreams)))
unfolding next
next_lem size m path raw_query v =
    let (m', done, v', clean, kept) = refresh_lem size m v in
    let hash = crc32 (path ++ raw_query) in
    elim (Bool-cases (has_healthy m'.upstreams)) [
      | inl up ↦
          let (i, picked, healthy) = pick_healthy size m' hash v' clean up in
          (m', some i, rw (done, picked), v', kept, inl (i, refl, rw (← kept) healthy))
      | inr down ↦ (
        m',
        probe_candidate m'.upstreams,
        rw (done, pick_down size m' hash v' down),
        v',
        kept,
        inr (rw (← kept) down, ap probe_candidate kept),
      )
    ]
