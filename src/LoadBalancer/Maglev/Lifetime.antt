-- ===== src/LoadBalancer/Maglev/Lifetime.antt =====
-- The Maglev balancer from its construction through health changes and selections.
use peretum.LoadBalancer.Maglev.Selection.{
  IsValid, healthy_position, has_healthy_of_position, refresh_clean, refresh_lem, next_lem,
}
use peretum.LoadBalancer.Maglev.Permutation.{Reaches}
use peretum.LoadBalancer.Maglev.Table.{
  build_table_locked-AllHealthy, build_table_locked-none_healthy,
}
use peretum.LoadBalancer.Maglev.{
  Maglev, has_healthy, build_table_locked, new_maglev, refresh, pick, next, keep_first, set_health,
  mark, same,
}
use peretum.LoadBalancer.{Upstream, all_healthy, is_healthy, probe_candidate}
use peretum.Prelude.Bytes.{Bytes, equal}
use peretum.Prelude.Crc.{crc32}
use peretum.Prelude.{
  ℕ, suc, ◌<◌, ◌≡◌, ◌≢◌, ◌∙◌, sym, refl, ap, inl, inr, Bool, true, false, Option, none, some,
  bind-eq-some, List, [], ◌∷◌, ◌++◌, arith, length, All, All-mono, Bool-cases, Option-cases,
}

keep_first-eq-some :
    (u : Upstream) (m : Option (List Upstream)) (us : List Upstream)
    → keep_first u m ≡ some us
    → (rest : List Upstream) × (m ≡ some rest) × (us ≡ u ∷ rest)
unfolding keep_first
keep_first-eq-some u none us e = absurd (cc)
keep_first-eq-some u (some rest) us e = (rest, refl, cc)

-- `setHealth` keeps the URLs and their number.
set_health_keeps :
    (size : ℕ) (us us' : List Upstream) (url : Bytes) (healthy : Bool) (now : ℕ)
    → set_health us url healthy now ≡ some us'
    → (length us' ≡ length us)
      × (All (λ u. Reaches size u.url) us → All (λ u. Reaches size u.url) us')
unfolding set_health
set_health_keeps size [] us' url healthy now e = absurd (cc)
set_health_keeps size (u ∷ us) us' url healthy now e = elim (Bool-cases (equal u.url url)) [
  | inl here ↦ elim (Bool-cases (same u.healthy healthy)) [
    | inl unchanged ↦ absurd (ground arith)
    | inr changed ↦
        let v : Upstream = record u { healthy = healthy; last_check = now } in
        let f : us' ≡ v ∷ us = ground arith in (rw f, λ r. rw f r)
  ]
  | inr other ↦
      let (rest, found, f) =
        keep_first-eq-some u (set_health us url healthy now) us' (ground arith) in
      let (len, keeps) = set_health_keeps size us rest url healthy now found in
      (rw f (ap suc len), λ (p, r). rw f (p, keeps r))
]

-- `MarkHealthy` keeps the invariant: a change marks the table dirty.
pub mark-IsValid :
    (size : ℕ) (m : Maglev) (url : Bytes) (healthy : Bool) (now : ℕ)
    → IsValid size m
    → IsValid size (mark m url healthy now)
unfolding mark
mark-IsValid size m url healthy now v =
    elim (Option-cases (set_health m.upstreams url healthy now)) [
      | inl unchanged ↦ rw unchanged v
      | inr (us, changed) ↦
          let (len, keeps) = set_health_keeps size m.upstreams us url healthy now changed in
          rw changed (record {
            some_slot = v.some_slot;
            reach = keeps v.reach;
            sized = λ h. v.sized (λ e. h (empty_of_length us (len ∙ ap length e)));
            positions = rw len v.positions;
            fresh = λ h. absurd (cc);
          })
    ]
  where
    empty_of_length : (us : List Upstream) → length us ≡ 0 → us ≡ []
    empty_of_length [] e = refl
    empty_of_length (u ∷ us) e = absurd (omega arith)

all_healthy-Reaches :
    (size : ℕ) (us : List Upstream)
    → All (λ u. Reaches size u.url) us
    → All (λ u. Reaches size u.url) (all_healthy us)
unfolding all_healthy
all_healthy-Reaches size [] r = tt
all_healthy-Reaches size (u ∷ us) (r, rs) = (r, all_healthy-Reaches size us rs)

all_healthy-has_healthy :
    (u : Upstream) (us : List Upstream) → has_healthy (all_healthy (u ∷ us)) ≡ true
unfolding all_healthy has_healthy
all_healthy-has_healthy u us = refl

new_maglev_build :
    (size : ℕ) (us : List Upstream)
    → new_maglev size us
      ≡ build_table_locked size (record { upstreams = all_healthy us; table = []; dirty = false })
unfolding new_maglev
new_maglev_build size us = refl

-- The constructor ends without a panic, in a valid state.
pub new_maglev-IsValid :
    (size : ℕ) (us : List Upstream)
    → 0 < size
    → All (λ u. Reaches size u.url) us
    → (m : Maglev) × (new_maglev size us ≡ some m) × IsValid size m × (m.upstreams ≡ all_healthy us)
unfolding all_healthy has_healthy
new_maglev-IsValid size [] some_slot reach =
    let m : Maglev = record { upstreams = []; table = []; dirty = false } in
    (
      m,
      new_maglev_build size [] ∙ build_table_locked-none_healthy size m refl,
      record {
        some_slot = some_slot;
        reach = tt;
        sized = λ h. absurd (h refl);
        positions = tt;
        fresh = λ h k. tt;
      },
      refl,
    )
new_maglev-IsValid size (u ∷ us) some_slot reach =
    let start : Maglev = record { upstreams = all_healthy (u ∷ us); table = []; dirty = false } in
    let r = all_healthy-Reaches size (u ∷ us) reach in
    let (table, done, sized, healthy) = build_table_locked-AllHealthy size start some_slot r refl in
    (
      record start { table = table },
      new_maglev_build size (u ∷ us) ∙ done,
      record {
        some_slot = some_slot;
        reach = r;
        sized = λ h. sized;
        positions = All-mono _ _ (healthy_position start.upstreams) table healthy;
        fresh = λ h k. healthy;
      },
      refl,
    )

-- A second `Next` for the same path and query selects the same upstream and changes nothing, as
-- long as no health changes in between.
pub next-stable :
    (size : ℕ) (m m' : Maglev) (path raw_query : Bytes) (picked : Option ℕ)
    → IsValid size m
    → next size m path raw_query ≡ some (m', picked)
    → next size m' path raw_query ≡ some (m', picked)
unfolding next
next-stable size m m' path raw_query picked v e =
    let (r, refreshed, v', clean, kept) = refresh_lem size m v in
    let (r', refreshed', e') = bind-eq-some (refresh size m) _ e in
    let (p, picked', e'') = bind-eq-some (pick size r' (crc32 (path ++ raw_query))) _ e' in
    let same_state : r' ≡ m' = cc in
    let same_r : r ≡ m' = cc in
    let same_pick : p ≡ picked = cc in
    let again : refresh size m' ≡ some m' =
      refresh_clean size m' (ap (λ (x : Maglev). x.dirty) (sym same_r) ∙ clean) in
    rw (again, ← same_state, picked', same_pick)

-- `setHealth` to unhealthy changes nothing, not even the time of the check, where no upstream is
-- healthy.
set_health-down :
    (us : List Upstream) (url : Bytes) (now : ℕ)
    → has_healthy us ≡ false
    → set_health us url false now ≡ none
unfolding set_health keep_first has_healthy
set_health-down [] url now h = refl
set_health-down (u ∷ us) url now h = ground (arith, set_health-down us url now)

mark-down :
    (m : Maglev) (url : Bytes) (now : ℕ)
    → has_healthy m.upstreams ≡ false
    → mark m url false now ≡ m
unfolding mark
mark-down m url now h = rw (set_health-down m.upstreams url now h)

-- With no healthy upstream, a failed attempt leaves no trace: after `MarkHealthy` with false, for
-- any URL and at any time, the next selection is the same probe candidate again.
pub next-mark_down :
    (size : ℕ) (m m' : Maglev) (path raw_query url : Bytes) (now : ℕ) (picked : Option ℕ)
    → IsValid size m
    → has_healthy m.upstreams ≡ false
    → next size m path raw_query ≡ some (m', picked)
    → (picked ≡ probe_candidate m.upstreams)
      × (next size (mark m' url false now) path raw_query ≡ some (m', picked))
next-mark_down size m m' path raw_query url now picked v down e =
    let (r, p, done, v', kept, selects) = next_lem size m path raw_query v in
    let same_r : r ≡ m' = cc in
    let same_p : p ≡ picked = cc in
    let still_down : has_healthy m'.upstreams ≡ false = rw (← same_r, kept) down in
    (
      elim selects [
        | inl (i, found, healthy) ↦ absurd (no_position m.upstreams down i healthy)
        | inr (_, probe) ↦ rw (← same_p) probe
      ],
      rw (mark-down m' url now still_down) (next-stable size m m' path raw_query picked v e),
    )
  where
    no_position : (us : List Upstream) → has_healthy us ≡ false → (i : ℕ) → is_healthy us i ≢ true
    no_position us down i healthy = cc (has_healthy_of_position us i healthy)
