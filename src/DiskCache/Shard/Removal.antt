-- ===== src/DiskCache/Shard/Removal.antt =====
-- Taking entries out of a shard: `remove`, `evict`, `findExpired` and the loops of the purges.
use peretum.DiskCache.Shard.Valid.{IsValid, drop_entry-IsValid, drop_entry-size}
use peretum.DiskCache.Shard.{EntryMeta, Shard, drop_entry, remove, evict, drop_keys}
use peretum.Prelude.Bytes.{Bytes}
use peretum.Prelude.Dict.{lookup, delete, is_some}
use peretum.Prelude.Int.{pos, ◌-ℤ◌}
use peretum.Prelude.Recency.{back, back-cases, member_last}
use peretum.Prelude.{
  ℕ, ◌≡◌, ◌∙◌, refl, ap, ◌⊎◌, inl, inr, true, none, some, List, [], ◌∷◌, ◌++◌, arith, Option-cases,
}

remove_missing : (key : Bytes) (s : Shard) → lookup key s.lru ≡ none → remove key s ≡ (s, none)
unfolding remove
remove_missing key s missing = ground arith

remove_found :
    (key : Bytes) (s : Shard) (e : EntryMeta)
    → lookup key s.lru ≡ some e
    → remove key s ≡ (drop_entry key e s, some e.size)
unfolding remove
remove_found key s e found = ground arith

-- `remove` keeps the invariant, and reports what it takes off the size.
pub remove_lem :
    (key : Bytes) (s : Shard)
    → IsValid s
    → IsValid (remove key s).0
      × (((remove key s).1 ≡ none) × ((remove key s).0 ≡ s)
          ⊎ ((n : ℕ) × ((remove key s).1 ≡ some n) × ((remove key s).0.size ≡ s.size -ℤ pos n)))
remove_lem key s v = elim (Option-cases (lookup key s.lru)) [
  | inl missing ↦ rw (remove_missing key s missing) (v, inl (refl, refl))
  | inr (e, found) ↦
      rw (remove_found key s e found)
        (drop_entry-IsValid key e s found v, inr (e.size, refl, drop_entry-size key e s))
]

evict_nothing : (s : Shard) → back s.lru_list ≡ none → evict s ≡ some (s, none)
unfolding evict
evict_nothing s nothing = ground arith

evict_last :
    (s : Shard) (key : Bytes) (e : EntryMeta)
    → back s.lru_list ≡ some key
    → lookup key s.lru ≡ some e
    → evict s ≡ some (drop_entry key e s, some (key, e.size))
unfolding evict
evict_last s key e last found = ground arith

-- What `evict` does to a valid shard: nothing to an empty one, and else it takes out the entry of
-- the last key of the list. It does not panic.
pub record Evicts (s s' : Shard) (key : Bytes) (size : ℕ) : Type 0 where
  pub front : List Bytes
  pub last : s.lru_list ≡ front ++ key ∷ []
  pub entry : EntryMeta
  pub stored : lookup key s.lru ≡ some entry
  pub taken : s' ≡ drop_entry key entry s
  pub freed : size ≡ entry.size

pub evict_lem :
    (s : Shard)
    → IsValid s
    → ((s.lru_list ≡ []) × (evict s ≡ some (s, none)))
      ⊎ ((s' : Shard) × (key : Bytes) × (size : ℕ) × (evict s ≡ some (s', some (key, size)))
          × Evicts s s' key size
          × IsValid s')
evict_lem s v = elim (back-cases s.lru_list) [
  | inl (empty, nothing) ↦ inl (empty, evict_nothing s nothing)
  | inr (key, front, e, last) ↦ elim (Option-cases (lookup key s.lru)) [
    | inl missing ↦ absurd (ground (arith, v.same key, member_last key front))
    | inr (entry, found) ↦ inr (
      drop_entry key entry s,
      key,
      entry.size,
      evict_last s key entry last found,
      record { front = front; last = e; entry = entry; stored = found; taken = refl; freed = refl },
      drop_entry-IsValid key entry s found v,
    )
  ]
]

-- All of the keys have an entry, also when those before them are gone.
abbrev pub ArePresent : List Bytes → List (Bytes × EntryMeta) → Type 0
ArePresent [] m = Unit
ArePresent (k ∷ keys) m = (is_some (lookup k m) ≡ true) × ArePresent keys (delete k m)

unfoldable pub delete_all : List Bytes → List (Bytes × EntryMeta) → List (Bytes × EntryMeta)
delete_all [] m = m
delete_all (k ∷ keys) m = delete_all keys (delete k m)

lru-drop_entry :
    (key : Bytes) (e : EntryMeta) (s : Shard) → (drop_entry key e s).lru ≡ delete key s.lru
unfolding drop_entry
lru-drop_entry key e s = refl

drop_keys_step :
    (k : Bytes) (keys : List Bytes) (s : Shard) (e : EntryMeta)
    → lookup k s.lru ≡ some e
    → drop_keys (k ∷ keys) s ≡ drop_keys keys (drop_entry k e s)
unfolding drop_keys
drop_keys_step k keys s e found = ground arith

drop_keys_end : (s : Shard) → drop_keys [] s ≡ some s
unfolding drop_keys
drop_keys_end s = refl

pub drop_keys_lem :
    (keys : List Bytes) (s : Shard)
    → IsValid s
    → ArePresent keys s.lru
    → (s' : Shard) × (drop_keys keys s ≡ some s') × IsValid s' × (s'.lru ≡ delete_all keys s.lru)
unfolding delete_all
drop_keys_lem [] s v p = (s, drop_keys_end s, v, refl)
drop_keys_lem (k ∷ keys) s v p = elim (Option-cases (lookup k s.lru)) [
  | inl missing ↦ absurd (ground (arith, p.0))
  | inr (e, found) ↦
      let rest = rw (← lru-drop_entry k e s) at p.1 in
      let (s', done, v', lru) =
        drop_keys_lem keys (drop_entry k e s) (drop_entry-IsValid k e s found v) rest in
      (
        s',
        drop_keys_step k keys s e found ∙ done,
        v',
        lru ∙ ap (delete_all keys) (lru-drop_entry k e s),
      )
]
