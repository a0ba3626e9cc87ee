-- ===== src/LoadBalancer/Maglev.antt =====
-- `maglev` of internal/loadbalancer/loadbalancer.go.
--
-- `size` is the constant maglevTableSize, 65537. `next[i]` is kept as the part of
-- `permutations[i]` that has not been read, so that reading behind its end, which panics, is a
-- match on []. `none` is a panic, or the end of the fuel.
pub mod Slots
pub mod Seek
pub mod Filling
pub mod Permutation
pub mod Table
pub mod Selection
pub mod Lifetime
use peretum.LoadBalancer.{Upstream, all_healthy, is_healthy, probe_candidate}
use peretum.Prelude.Bytes.{Bytes, codes, equal}
use peretum.Prelude.Crc.{crc32}
use peretum.Prelude.{
  ℕ, zero, suc, ◌+◌, ◌*◌, ◌%◌, ◌^◌, Bool, true, false, ◌||◌, Option, none, some, ◌>>=◌, List, [],
  ◌∷◌, ◌++◌, map, ◌==◌, leb, if◌then◌else◌, length, get_elem?, set, replicate,
}

abbrev pub maglev_table_size : ℕ
maglev_table_size = 65537

pub record Maglev : Type 0 where
  pub upstreams : List Upstream
  pub table : List ℕ
  pub dirty : Bool

unfoldable pub has_healthy : List Upstream → Bool
has_healthy [] = false
has_healthy (u ∷ us) = u.healthy || has_healthy us

-- `perm[j]` for the `k` values of `j` left.
unfoldable pub permutation_loop : ℕ → ℕ → ℕ → ℕ → ℕ → List ℕ
permutation_loop size h1 h2 zero j = []
permutation_loop size h1 h2 (suc k) j =
    ((h1 + j * h2) % 2 ^ 64 % size) ∷ permutation_loop size h1 h2 k (suc j)

unfoldable pub permutation : ℕ → Bytes → List ℕ
unfolding permutation_loop
permutation size url =
    permutation_loop size (crc32 (url ++ codes "1")) (crc32 (url ++ codes "2")) size 0

pub record FillState : Type 0 where
  pub cursors : List (List ℕ)
  pub table : List ℕ
  pub filled : ℕ

-- One look at slot `idx`: a free slot is taken for upstream `i`, any other is passed over.
unfoldable pub probe_slot :
    ℕ → List ℕ → ℕ → List ℕ → Option ℕ → Option (List ℕ × List ℕ) → Option (List ℕ × List ℕ)
probe_slot i table idx unread none more = none
probe_slot i table idx unread (some v) more =
    if v == 0 then some (set table idx i, unread) else more

-- The innermost loop, `for { … }`.
unfoldable pub seek : ℕ → ℕ → List ℕ → List ℕ → Option (List ℕ × List ℕ)
unfolding probe_slot
seek size i table [] = none
seek size i table (x ∷ unread) =
    let more = seek size i table unread in
    probe_slot i table (x % size) unread (get_elem? table (x % size)) more

unfoldable pub keep_cursor : List ℕ → Option FillState → Option FillState
keep_cursor cursor none = none
keep_cursor cursor (some s) = some (record s { cursors = cursor ∷ s.cursors })

-- The loop over the upstreams, from position `i`.
unfoldable pub fill_row : ℕ → ℕ → List Upstream → List (List ℕ) → List ℕ → ℕ → Option FillState
unfolding seek keep_cursor
fill_row size i (u ∷ us) (cursor ∷ cursors) table filled =
    let skipped = keep_cursor cursor (fill_row size (suc i) us cursors table filled) in
    let taken = seek size i table cursor >>= λ (table', unread).
    keep_cursor unread (fill_row size (suc i) us cursors table' (filled + 1)) in
    if leb size filled
    then some (record { cursors = cursor ∷ cursors; table = table; filled = filled })
    else if u.healthy
    then taken
    else skipped
fill_row size i _ cursors table filled =
    some (record { cursors = cursors; table = table; filled = filled })

-- The loop `for filled < maglevTableSize`, on fuel.
unfoldable pub fill_rounds : ℕ → ℕ → List Upstream → FillState → Option (List ℕ)
unfolding fill_row
fill_rounds zero size us s = none
fill_rounds (suc fuel) size us s =
    let rest =
      fill_row size 0 us s.cursors s.table s.filled >>= λ s'. fill_rounds fuel size us s' in
    if leb size s.filled then some s.table else rest

unfoldable pub build_table_locked : ℕ → Maglev → Option Maglev
unfolding has_healthy permutation fill_rounds
build_table_locked size m =
    let start : FillState = record {
      cursors = map (λ u. permutation size u.url) m.upstreams;
      table = replicate size 0;
      filled = 0;
    } in
    if has_healthy m.upstreams
    then (do
      table ← fill_rounds (size + 1) size m.upstreams start
      some (record m { table = table }))
    else some m

unfoldable pub new_maglev : ℕ → List Upstream → Option Maglev
unfolding build_table_locked all_healthy
new_maglev size us =
    build_table_locked size (record { upstreams = all_healthy us; table = []; dirty = false })

-- The loop at the end of `Next`: the first healthy upstream from position `i`.
unfoldable pub first_healthy : ℕ → List Upstream → Option ℕ
first_healthy i [] = none
first_healthy i (u ∷ us) = if u.healthy then some i else first_healthy (suc i) us

abbrev or_probe : List Upstream → Option ℕ → Option ℕ
or_probe us none = probe_candidate us
or_probe us (some i) = some i

-- The lazy rebuild at the head of `Next`.
unfoldable pub refresh : ℕ → Maglev → Option Maglev
refresh size m =
    if m.dirty
    then (do m' ← build_table_locked size m; some (record m' { dirty = false }))
    else some m

-- The rest of `Next` for the hash of the request.
unfoldable pub pick : ℕ → Maglev → ℕ → Option (Option ℕ)
unfolding first_healthy
pick size m hash =
    if length m.upstreams == 0 || length m.table == 0
    then some none
    else get_elem? m.table (hash % size) >>= λ idx. get_elem? m.upstreams idx >>= λ u.
        some (if u.healthy then some idx else or_probe m.upstreams (first_healthy 0 m.upstreams))

unfoldable pub next : ℕ → Maglev → Bytes → Bytes → Option (Maglev × Option ℕ)
unfolding refresh pick
next size m path raw_query = do
  m' ← refresh size m
  picked ← pick size m' (crc32 (path ++ raw_query))
  some (m', picked)

abbrev pub same : Bool → Bool → Bool
same true b = b
same false true = false
same false false = true

unfoldable pub keep_first : Upstream → Option (List Upstream) → Option (List Upstream)
keep_first u none = none
keep_first u (some us) = some (u ∷ us)

-- `setHealth`: none if nothing changed.
unfoldable pub set_health : List Upstream → Bytes → Bool → ℕ → Option (List Upstream)
unfolding keep_first
set_health [] url healthy now = none
set_health (u ∷ us) url healthy now =
    let rest = keep_first u (set_health us url healthy now) in
    if equal u.url url
    then (if same u.healthy healthy
        then none
        else some (record u { healthy = healthy; last_check = now } ∷ us))
    else rest

abbrev pub marked : Maglev → Option (List Upstream) → Maglev
marked m none = m
marked m (some us) = record m { upstreams = us; dirty = true }

unfoldable pub mark : Maglev → Bytes → Bool → ℕ → Maglev
unfolding set_health
mark m url healthy now = marked m (set_health m.upstreams url healthy now)
