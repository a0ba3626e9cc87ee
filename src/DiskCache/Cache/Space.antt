-- ===== src/DiskCache/Cache/Space.antt =====
-- `ensureSpace`: its loop ends, and where it reports success the new entry fits.
use peretum.DiskCache.Cache.Accounting.{bytes_in, IsAccounted}
use peretum.DiskCache.Cache.{
  Cache, remove_files, evict_loop, evict_oldest, is_over, ensure_loop, entries, ensure_space,
}
use peretum.DiskCache.Shard.Removal.{Evicts, evict_lem}
use peretum.DiskCache.Shard.Valid.{IsValid, bytes_of, drop_entry-bytes_of}
use peretum.DiskCache.Shard.{Shard, EntryMeta, evict, drop_entry, len}
use peretum.Prelude.Bytes.{Bytes, equal_iff}
use peretum.Prelude.Dict.{lookup, member, is_some}
use peretum.Prelude.Int.{pos, pos_part, neg_part, ◌+ℤ◌, ◌-ℤ◌, -ℤ_parts, eq_of_parts}
use peretum.Prelude.Recency.{length-delete_found}
use peretum.Prelude.{
  ℕ, zero, suc, ◌+◌, ◌<◌, ◌≤◌, ◌≡◌, ◌∙◌, sym, refl, ap, ◌⊎◌, inl, inr, Bool, true, false, Option,
  none, some, List, [], ◌∷◌, arith, length, All, ltb, ◌==◌, Bool-cases,
}

-- An eviction frees what it reports, and takes out an entry.
Evicts_lem :
    (s s' : Shard) (key : Bytes) (size : ℕ)
    → IsValid s
    → Evicts s s' key size
    → (bytes_of s' + size ≡ bytes_of s) × (length s'.lru < length s.lru)
unfolding drop_entry
Evicts_lem s s' key size v e =
    rw (e.taken, e.freed)
      (drop_entry-bytes_of key e.entry s e.stored v, length-delete_found key e.entry s.lru e.stored)

lru-empty :
    (s : Shard) (m : List (Bytes × EntryMeta))
    → ((k : Bytes) → is_some (lookup k m) ≡ false)
    → m ≡ []
lru-empty s [] h = refl
lru-empty s ((k, e) ∷ m) h = absurd (ground (arith, h k, equal_iff k k))

evict_loop_empty :
    (s : Shard) (shards shards' : List Shard) (victim : Option (Bytes × ℕ))
    → evict s ≡ some (s, none)
    → evict_loop shards ≡ some (shards', victim)
    → evict_loop (s ∷ shards) ≡ some (s ∷ shards', victim)
unfolding evict_loop
evict_loop_empty s shards shards' victim e f = ground arith

evict_loop_found :
    (s s' : Shard) (shards : List Shard) (victim : Bytes × ℕ)
    → evict s ≡ some (s', some victim)
    → evict_loop (s ∷ shards) ≡ some (s' ∷ shards, some victim)
unfolding evict_loop
evict_loop_found s s' shards victim e = ground arith

-- What the loop does to valid shards: all of them are empty and it finds nothing, or one entry is
-- taken out, and the sum of the sizes falls by what it reports.
record Frees (shards shards' : List Shard) (size : ℕ) : Type 0 where
  valid : All IsValid shards'
  bytes : bytes_in shards' + size ≡ bytes_in shards
  fewer : entries shards' < entries shards
  same_count : length shards' ≡ length shards

evict_loop_lem :
    (shards : List Shard)
    → All IsValid shards
    → ((evict_loop shards ≡ some (shards, none)) × (entries shards ≡ 0) × (bytes_in shards ≡ 0))
      ⊎ ((shards' : List Shard) × (key : Bytes) × (size : ℕ) × (evict_loop shards
            ≡ some (shards', some (key, size)))
          × Frees shards shards' size)
unfolding evict_loop entries len bytes_in
evict_loop_lem [] v = inl (refl, refl, refl)
evict_loop_lem (s ∷ shards) (v, vs) = elim (evict_lem s v) [
  | inr (s', key, size, e, ev, v') ↦
      let (b, f) = Evicts_lem s s' key size v ev in
      inr (
        s' ∷ shards,
        key,
        size,
        evict_loop_found s s' shards (key, size) e,
        record {
          valid = (v', vs);
          bytes = omega (arith, b);
          fewer = omega (arith, f);
          same_count = refl;
        },
      )
  | inl (empty, e) ↦
      let gone : s.lru ≡ [] =
        lru-empty s s.lru (λ k. sym (v.same k) ∙ ap (λ l. member l k) empty) in
      elim (evict_loop_lem shards vs) [
        | inl (f, n, b) ↦ inl (
          evict_loop_empty s shards shards none e f,
          rw gone (omega (arith, n)),
          rw gone (omega (arith, b)),
        )
        | inr (shards', key, size, f, frees) ↦ inr (
          s ∷ shards',
          key,
          size,
          evict_loop_empty s shards shards' (some (key, size)) e f,
          record {
            valid = (v, frees.valid);
            bytes = omega (arith, frees.bytes);
            fewer = omega (arith, frees.fewer);
            same_count = ap suc frees.same_count;
          },
        )
      ]
]

abbrev evicted : Cache → List Shard → Bytes → ℕ → Cache
evicted d shards key size = record d {
  shards = shards;
  current_size = d.current_size -ℤ pos size;
  evictions = d.evictions + 1;
  disk = remove_files d.cache_dir key d.disk;
}

evict_oldest_found :
    (d : Cache) (shards : List Shard) (key : Bytes) (size : ℕ)
    → evict_loop d.shards ≡ some (shards, some (key, size))
    → evict_oldest d ≡ some (evicted d shards key size, true)
unfolding evict_oldest
evict_oldest_found d shards key size e = rw e

evict_oldest_empty :
    (d : Cache) → evict_loop d.shards ≡ some (d.shards, none) → evict_oldest d ≡ some (d, false)
unfolding evict_oldest
evict_oldest_empty d e = rw e

-- `evict` keeps the accounts and takes an entry out, where there is one.
evict_oldest_lem :
    (d : Cache)
    → IsAccounted d
    → ((evict_oldest d ≡ some (d, false)) × (entries d.shards ≡ 0) × (bytes_in d.shards ≡ 0))
      ⊎ ((d' : Cache) × (evict_oldest d ≡ some (d', true))
          × IsAccounted d'
          × (entries d'.shards < entries d.shards)
          × (d'.max_size ≡ d.max_size))
evict_oldest_lem d a = elim (evict_loop_lem d.shards a.valid) [
  | inl (e, n, b) ↦ inl (evict_oldest_empty d e, n, b)
  | inr (shards, key, size, e, frees) ↦ inr (
    evicted d shards key size,
    evict_oldest_found d shards key size e,
    record {
      count = frees.same_count ∙ a.count;
      valid = frees.valid;
      sized = eq_of_parts _ _ (
          omega (
            arith,
            -ℤ_parts d.current_size (pos size),
            ap pos_part a.sized,
            ap neg_part a.sized,
            frees.bytes,
          ));
    },
    frees.fewer,
    refl,
  )
]

-- What a run of the loop reaches: the cache is accounted for, and with `true` the new entry fits;
-- with `false` no entry is left, and it is larger than the whole cache.
pub record Ensures (size : ℕ) (d d' : Cache) (ok : Bool) : Type 0 where
  pub accounted : IsAccounted d'
  pub fits : ok ≡ true → bytes_in d'.shards + size ≤ d.max_size
  pub too_large : ok ≡ false → d.max_size < size
  pub same_max : d'.max_size ≡ d.max_size

ensure_loop_stop :
    (n size : ℕ) (d : Cache) → is_over size d ≡ false → ensure_loop (suc n) size d ≡ some (d, true)
unfolding ensure_loop
ensure_loop_stop n size d h = ground arith

ensure_loop_fail :
    (n size : ℕ) (d : Cache)
    → is_over size d ≡ true
    → evict_oldest d ≡ some (d, false)
    → ensure_loop (suc n) size d ≡ some (d, false)
unfolding ensure_loop
ensure_loop_fail n size d h e = ground arith

ensure_loop_more :
    (n size : ℕ) (d d' : Cache)
    → is_over size d ≡ true
    → evict_oldest d ≡ some (d', true)
    → ensure_loop (suc n) size d ≡ ensure_loop n size d'
unfolding ensure_loop
ensure_loop_more n size d d' h e = ground arith

is_over_lem :
    (size : ℕ) (d : Cache) (b : Bool)
    → IsAccounted d
    → is_over size d ≡ b
    → ltb d.max_size (bytes_in d.shards + size) ≡ b
unfolding ◌+ℤ◌
is_over_lem size d b a h = ground (arith, a.sized)

ensure_loop_lem :
    (n size : ℕ) (d : Cache)
    → IsAccounted d
    → entries d.shards < n
    → (d' : Cache) × (ok : Bool) × (ensure_loop n size d ≡ some (d', ok)) × Ensures size d d' ok
ensure_loop_lem zero size d a h = elim h [ ]
ensure_loop_lem (suc n) size d a h = elim (Bool-cases (is_over size d)) [
  | inr fits ↦ (
    d,
    true,
    ensure_loop_stop n size d fits,
    record {
      accounted = a;
      fits = λ _. ground (arith, is_over_lem size d false a fits);
      too_large = λ e. absurd (cc);
      same_max = refl;
    },
  )
  | inl over ↦ elim (evict_oldest_lem d a) [
    | inl (e, none_left, b) ↦ (
      d,
      false,
      ensure_loop_fail n size d over e,
      record {
        accounted = a;
        fits = λ e. absurd (cc);
        too_large = λ _. ground (arith, is_over_lem size d true a over);
        same_max = refl;
      },
    )
    | inr (d', e, a', fewer, same) ↦
        let (d'', ok, done, ens) = ensure_loop_lem n size d' a' (omega (arith, fewer)) in
        (
          d'',
          ok,
          ensure_loop_more n size d d' over e ∙ done,
          record {
            accounted = ens.accounted;
            fits = λ t. omega (arith, ens.fits t, same);
            too_large = λ t. omega (arith, ens.too_large t, same);
            same_max = ens.same_max ∙ same;
          },
        )
  ]
]

ensure_space_limited :
    (size : ℕ) (d : Cache)
    → (d.max_size == 0) ≡ false
    → ensure_space size d ≡ ensure_loop (entries d.shards + 1) size d
unfolding ensure_space
ensure_space_limited size d h = rw h

-- With a limit, and on a cache that is accounted for, `ensureSpace` ends without a panic. The cache
-- stays accounted for. Where it reports success the entries and the new one together keep the
-- limit, and it reports failure only if the new entry alone exceeds it.
pub ensure_space-Ensures :
    (size : ℕ) (d : Cache)
    → IsAccounted d
    → (d.max_size == 0) ≡ false
    → (d' : Cache) × (ok : Bool) × (ensure_space size d ≡ some (d', ok)) × Ensures size d d' ok
ensure_space-Ensures size d a limited =
    let (d', ok, done, ens) = ensure_loop_lem (entries d.shards + 1) size d a (omega arith) in
    (d', ok, ensure_space_limited size d limited ∙ done, ens)
