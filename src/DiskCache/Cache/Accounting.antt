-- ===== src/DiskCache/Cache/Accounting.antt =====
-- The accounts of the cache: every shard is valid, and `CurrentSize` is the sum of the sizes of all
-- entries.
pub mod Purges
use peretum.DiskCache.Cache.{
  Cache, Disk, shard_count, new, shard_index, shard, touch, untrack, clear, purge_all,
}
use peretum.DiskCache.Shard.{Shard, EntryMeta, new_lru_shard, put, remove}
use peretum.DiskCache.Shard.Valid.{IsValid, bytes_of, new_lru_shard-IsValid, put-IsValid, put-size}
use peretum.DiskCache.Shard.Removal.{remove_lem}
use peretum.Prelude.Bytes.{Bytes}
use peretum.Prelude.Int.{
  ℤ, pos, pos_part, neg_part, ◌+ℤ◌, ◌-ℤ◌, int_laws, +ℤ_parts, -ℤ_parts, eq_of_parts,
}
use peretum.Prelude.{
  ℕ, zero, suc, ◌+◌, ◌*◌, ◌%◌, ◌<◌, ◌≡◌, ◌∙◌, sym, refl, ap, ◌⊎◌, inl, inr, Bool, true, false,
  Option, none, some, List, [], ◌∷◌, arith, length, set, get_or, replicate, All, All-set,
  length-set, ltb, if◌then◌else◌,
}

-- The sum of the sizes of all entries.
unfoldable pub bytes_in : List Shard → ℕ
bytes_in [] = 0
bytes_in (s ∷ shards) = bytes_of s + bytes_in shards

pub record IsAccounted (d : Cache) : Type 0 where
  pub count : length d.shards ≡ shard_count
  pub valid : All IsValid d.shards
  pub sized : d.current_size ≡ pos (bytes_in d.shards)

shard_index-lt : (key : Bytes) → shard_index key < shard_count
unfolding shard_index
shard_index-lt key = omega arith

pub get_or-IsValid :
    (shards : List Shard) (i : ℕ) → All IsValid shards → IsValid (get_or shards i new_lru_shard)
get_or-IsValid [] i v = new_lru_shard-IsValid
get_or-IsValid (s ∷ shards) zero v = v.0
get_or-IsValid (s ∷ shards) (suc i) v = get_or-IsValid shards i v.1

-- To replace a shard changes the sum by the change of that shard.
bytes_in-set :
    (shards : List Shard) (i : ℕ) (s : Shard)
    → i < length shards
    → bytes_in (set shards i s) + bytes_of (get_or shards i new_lru_shard)
      ≡ bytes_in shards + bytes_of s
unfolding bytes_in
bytes_in-set [] i s h = elim h [ ]
bytes_in-set (t ∷ shards) zero s h = omega arith
bytes_in-set (t ∷ shards) (suc i) s h = omega (arith, bytes_in-set shards i s (omega arith))

-- A shard replaced by a valid one, and `CurrentSize` changed as the size of the shard changes.
replaced-IsAccounted :
    (d : Cache) (key : Bytes) (s : Shard) (size : ℤ)
    → IsAccounted d
    → IsValid s
    → pos_part size + neg_part d.current_size + pos_part (shard key d).size + neg_part s.size
      ≡ neg_part size + pos_part d.current_size + neg_part (shard key d).size + pos_part s.size
    → IsAccounted (record d { shards = set d.shards (shard_index key) s; current_size = size })
unfolding shard
replaced-IsAccounted d key s size a v e =
    let i = shard_index key in
    let old = get_or d.shards i new_lru_shard in
    let old_valid : IsValid old = get_or-IsValid d.shards i a.valid in
    record {
      count = length-set d.shards i s ∙ a.count;
      valid = All-set IsValid d.shards i s a.valid v;
      sized = eq_of_parts _ _ (
          omega (
            arith,
            e,
            ap pos_part a.sized,
            ap neg_part a.sized,
            ap pos_part v.sized,
            ap neg_part v.sized,
            ap pos_part old_valid.sized,
            ap neg_part old_valid.sized,
            bytes_in-set d.shards i s (omega (arith, shard_index-lt key, a.count)),
          ));
    }

pub shard-IsValid : (d : Cache) (key : Bytes) → IsAccounted d → IsValid (shard key d)
unfolding shard
shard-IsValid d key a = get_or-IsValid d.shards (shard_index key) a.valid

abbrev expiry : ℕ → Cache → ℕ
expiry now d = if ltb 0 d.max_age then now + d.max_age else 0

-- `touch` keeps the accounts.
pub touch-IsAccounted :
    (key : Bytes) (size now : ℕ) (d : Cache) → IsAccounted d → IsAccounted (touch key size now d)
unfolding touch
touch-IsAccounted key size now d a =
    let s = shard key d in
    let r = put key size (expiry now d) now s in
    replaced-IsAccounted d key r.0 (d.current_size +ℤ r.1) a
      (put-IsValid key size (expiry now d) now s (shard-IsValid d key a))
      (omega (
        arith,
        +ℤ_parts d.current_size r.1,
        +ℤ_parts s.size r.1,
        ap pos_part (put-size key size (expiry now d) now s),
        ap neg_part (put-size key size (expiry now d) now s),
      ))

untrack_missing :
    (key : Bytes) (d : Cache)
    → (remove key (shard key d)).1 ≡ none
    → untrack key d
      ≡ record d { shards = set d.shards (shard_index key) (remove key (shard key d)).0 }
unfolding untrack
untrack_missing key d e = ground arith

untrack_found :
    (key : Bytes) (d : Cache) (n : ℕ)
    → (remove key (shard key d)).1 ≡ some n
    → untrack key d ≡ record d {
      shards = set d.shards (shard_index key) (remove key (shard key d)).0;
      current_size = d.current_size -ℤ pos n;
    }
unfolding untrack
untrack_found key d n e = ground arith

-- `remove` keeps them.
pub untrack-IsAccounted : (key : Bytes) (d : Cache) → IsAccounted d → IsAccounted (untrack key d)
untrack-IsAccounted key d a =
    let (v, cases) = remove_lem key (shard key d) (shard-IsValid d key a) in
    let s = (remove key (shard key d)).0 in
    elim cases [
      | inl (missing, same) ↦ rw (untrack_missing key d missing) (
          replaced-IsAccounted d key s d.current_size a v
            (omega (arith, ap (λ t. pos_part t.size) same, ap (λ t. neg_part t.size) same)))
      | inr (n, found, size) ↦ rw (untrack_found key d n found) (
          replaced-IsAccounted d key s (d.current_size -ℤ pos n) a v (
            omega (
              arith,
              ap pos_part size,
              ap neg_part size,
              -ℤ_parts d.current_size (pos n),
              -ℤ_parts (shard key d).size (pos n),
            )))
    ]

new_shards :
    (n : ℕ) → All IsValid (replicate n new_lru_shard) × (bytes_in (replicate n new_lru_shard) ≡ 0)
unfolding bytes_in new_lru_shard
new_shards zero = (tt, refl)
new_shards (suc n) = ((new_lru_shard-IsValid, (new_shards n).0), omega (arith, (new_shards n).1))

-- A new cache is accounted for.
pub new-IsAccounted :
    (dir : Bytes) (max_size max_age : ℕ) (disk : Disk) → IsAccounted (new dir max_size max_age disk)
unfolding new
new-IsAccounted dir max_size max_age disk = record {
  count = refl;
  valid = (new_shards shard_count).0;
  sized = ap pos (sym (new_shards shard_count).1);
}

clear_lem :
    (shards : List Shard)
    → (length (clear shards) ≡ length shards)
      × All IsValid (clear shards)
      × (bytes_in (clear shards) ≡ 0)
unfolding clear bytes_in new_lru_shard
clear_lem [] = (refl, tt, refl)
clear_lem (s ∷ shards) =
    let (l, v, b) = clear_lem shards in (ap suc l, (new_lru_shard-IsValid, v), omega (arith, b))

-- `PurgeAll` keeps them.
pub purge_all-IsAccounted : (d : Cache) → IsAccounted d → IsAccounted (purge_all d).0
unfolding purge_all
purge_all-IsAccounted d a =
    let (l, v, b) = clear_lem d.shards in
    record { count = l ∙ a.count; valid = v; sized = ap pos (sym b) }
