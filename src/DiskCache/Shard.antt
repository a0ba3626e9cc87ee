-- ===== src/DiskCache/Shard.antt =====
-- `lruShard` of internal/cache/disk/diskcache.go: the map `lru` and the list `lruList`, whose front
-- is the head here. The list element of an entry is named by the key that it holds. Times are Unix
-- nanoseconds, 0 for the zero time. A call holds the mutex, so it is one step.
--
-- Sizes of entries are byte counts; the sum `size` is signed, as in the source. `none` as the
-- whole result of a call is a panic.
pub mod Valid
pub mod Removal
pub mod Selective
use peretum.Prelude.Bytes.{Bytes, equal}
use peretum.Prelude.Dict.{lookup, assign, delete, without}
use peretum.Prelude.Int.{ℤ, pos, ◌+ℤ◌, ◌-ℤ◌}
use peretum.Prelude.Recency.{back}
use peretum.Prelude.{
  ℕ, suc, ◌+◌, Bool, ◌&&◌, not, Option, none, some, ◌>>=◌, List, [], ◌∷◌, ◌==◌, ltb, if◌then◌else◌,
  length,
}

pub record EntryMeta : Type 0 where
  pub size : ℕ
  pub last_used : ℕ
  pub expires_at : ℕ

pub record Shard : Type 0 where
  pub lru : List (Bytes × EntryMeta)
  pub lru_list : List Bytes
  pub size : ℤ

unfoldable pub new_lru_shard : Shard
new_lru_shard = record { lru = []; lru_list = []; size = pos 0 }

-- `MoveToFront` of the element of a key, and `PushFront` of a new one.
abbrev pub move_to_front : Bytes → List Bytes → List Bytes
move_to_front key l = key ∷ without key l

unfoldable pub get : Bytes → Shard → Shard × Option EntryMeta
get key s = elim (lookup key s.lru) [
  | none ↦ (s, none)
  | some e ↦ (record s { lru_list = move_to_front key s.lru_list }, some e)
]

-- Returns the change of the size.
unfoldable pub put : Bytes → ℕ → ℕ → ℕ → Shard → Shard × ℤ
put key size expires_at now s =
    let entry : EntryMeta = record { size = size; last_used = now; expires_at = expires_at } in
    elim (lookup key s.lru) [
      | none ↦ (
        record {
          lru = assign key entry s.lru;
          lru_list = key ∷ s.lru_list;
          size = s.size +ℤ pos size;
        },
        pos size,
      )
      | some e ↦ (
        record {
          lru = assign key entry s.lru;
          lru_list = move_to_front key s.lru_list;
          size = s.size +ℤ (pos size -ℤ pos e.size);
        },
        pos size -ℤ pos e.size,
      )
    ]

-- The three lines that take an entry out.
unfoldable pub drop_entry : Bytes → EntryMeta → Shard → Shard
drop_entry key e s = record {
  lru = delete key s.lru;
  lru_list = without key s.lru_list;
  size = s.size -ℤ pos e.size;
}

unfoldable pub remove : Bytes → Shard → Shard × Option ℕ
unfolding drop_entry
remove key s = elim (lookup key s.lru) [
  | none ↦ (s, none)
  | some e ↦ (drop_entry key e s, some e.size)
]

-- The key of the list's last element is looked up in the map, which panics if it is not there.
unfoldable pub evict : Shard → Option (Shard × Option (Bytes × ℕ))
unfolding drop_entry back
evict s = elim (back s.lru_list) [
  | none ↦ some (s, none)
  | some key ↦ do e ← lookup key s.lru; some (drop_entry key e s, some (key, e.size))
]

abbrev pub is_expired : ℕ → EntryMeta → Bool
is_expired now e = not (e.expires_at == 0) && ltb e.expires_at now

-- The first loop of `findExpired` and of the purges: the keys of the entries that pass a test.
unfoldable pub keys_where : (Bytes → EntryMeta → Bool) → List (Bytes × EntryMeta) → List Bytes
keys_where p [] = []
keys_where p ((k, e) ∷ m) = if p k e then k ∷ keys_where p m else keys_where p m

-- The variable `totalSize` of that loop.
unfoldable pub size_where : (Bytes → EntryMeta → Bool) → List (Bytes × EntryMeta) → ℕ
size_where p [] = 0
size_where p ((k, e) ∷ m) = (if p k e then e.size else 0) + size_where p m

-- The second loop of `findExpired`, and of the purges: each key is looked up and taken out.
unfoldable pub drop_keys : List Bytes → Shard → Option Shard
unfolding drop_entry
drop_keys [] s = some s
drop_keys (k ∷ keys) s = do e ← lookup k s.lru; drop_keys keys (drop_entry k e s)

abbrev pub expired : ℕ → Bytes → EntryMeta → Bool
expired now k e = is_expired now e

unfoldable pub find_expired : ℕ → Shard → Option (Shard × List Bytes × ℕ)
unfolding keys_where size_where drop_keys
find_expired now s = do
  s' ← drop_keys (keys_where (expired now) s.lru) s
  some (s', keys_where (expired now) s.lru, size_where (expired now) s.lru)

unfoldable pub len : Shard → ℕ
len s = length s.lru
