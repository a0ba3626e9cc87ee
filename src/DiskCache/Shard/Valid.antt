-- ===== src/DiskCache/Shard/Valid.antt =====
-- The invariant of a shard: the list holds the keys of the map, each once, and the size is the sum
-- of the sizes of the entries. Every operation keeps it, and none panics under it.
use peretum.DiskCache.Shard.{EntryMeta, Shard, new_lru_shard, move_to_front, get, put, drop_entry}
use peretum.Prelude.Bytes.{Bytes, equal_iff}
use peretum.Prelude.Dict.{
  member, AreDistinct, member-without, without-AreDistinct, front-AreDistinct, lookup, assign,
  is_some, lookup-assign, lookup-delete, HasDistinctKeys, delete-HasDistinctKeys,
  assign-HasDistinctKeys, total, total-delete, total-assign_new, total-assign,
}
use peretum.Prelude.Int.{pos, ◌+ℤ◌, ◌-ℤ◌, +ℤ_parts, -ℤ_parts}
use peretum.Prelude.{
  ℕ, ◌+◌, ◌≡◌, ◌∙◌, refl, ap, inl, inr, true, none, some, ◌∷◌, arith, Option-cases,
}

abbrev pub entry_size : EntryMeta → ℕ
entry_size e = e.size

-- The sum of the sizes of the entries.
abbrev pub bytes_of : Shard → ℕ
bytes_of s = total entry_size s.lru

pub record IsValid (s : Shard) : Type 0 where
  pub keys : HasDistinctKeys s.lru
  pub order : AreDistinct s.lru_list
  pub same : (k : Bytes) → member s.lru_list k ≡ is_some (lookup k s.lru)
  pub sized : s.size ≡ pos (bytes_of s)

pub new_lru_shard-IsValid : IsValid new_lru_shard
unfolding new_lru_shard
new_lru_shard-IsValid = record { keys = tt; order = tt; same = λ k. refl; sized = refl }

front_same :
    (key : Bytes) (s : Shard)
    → IsValid s
    → is_some (lookup key s.lru) ≡ true
    → (k : Bytes) → member (move_to_front key s.lru_list) k ≡ is_some (lookup k s.lru)
front_same key s v there k =
    ground (arith, member-without key k s.lru_list, v.same k, equal_iff key k, equal_iff k key)

get_missing : (key : Bytes) (s : Shard) → lookup key s.lru ≡ none → get key s ≡ (s, none)
unfolding get
get_missing key s missing = ground arith

get_found :
    (key : Bytes) (s : Shard) (e : EntryMeta)
    → lookup key s.lru ≡ some e
    → get key s ≡ (record s { lru_list = move_to_front key s.lru_list }, some e)
unfolding get
get_found key s e found = ground arith

pub get-IsValid : (key : Bytes) (s : Shard) → IsValid s → IsValid (get key s).0
get-IsValid key s v = elim (Option-cases (lookup key s.lru)) [
  | inl missing ↦ rw (get_missing key s missing) v
  | inr (e, found) ↦ rw (get_found key s e found) (record {
    keys = v.keys;
    order = front-AreDistinct key s.lru_list v.order;
    same = front_same key s v (ground arith);
    sized = v.sized;
  })
]

module _ (key : Bytes) (size expires_at now : ℕ) (s : Shard) where
  abbrev entry : EntryMeta
  entry = record { size = size; last_used = now; expires_at = expires_at }

  abbrev added : Shard
  added = record {
    lru = assign key entry s.lru;
    lru_list = key ∷ s.lru_list;
    size = s.size +ℤ pos size;
  }

  abbrev replaced : ℕ → Shard
  replaced old = record {
    lru = assign key entry s.lru;
    lru_list = move_to_front key s.lru_list;
    size = s.size +ℤ (pos size -ℤ pos old);
  }

  put_new : lookup key s.lru ≡ none → put key size expires_at now s ≡ (added, pos size)
  unfolding put
  put_new missing = ground arith

  put_old :
      (e : EntryMeta)
      → lookup key s.lru ≡ some e
      → put key size expires_at now s ≡ (replaced e.size, pos size -ℤ pos e.size)
  unfolding put
  put_old e found = ground arith

  added-IsValid : lookup key s.lru ≡ none → IsValid s → IsValid added
  added-IsValid missing v = record {
    keys = assign-HasDistinctKeys key entry s.lru v.keys;
    order = (v.same key ∙ ap is_some missing, v.order);
    same = λ k. ground (arith, lookup-assign key k entry s.lru, v.same k);
    sized = ground (
      arith,
      v.sized,
      +ℤ_parts s.size (pos size),
      total-assign_new entry_size key entry s.lru missing,
    );
  }

  replaced-IsValid :
      (e : EntryMeta) → lookup key s.lru ≡ some e → IsValid s → IsValid (replaced e.size)
  replaced-IsValid e found v = record {
    keys = assign-HasDistinctKeys key entry s.lru v.keys;
    order = front-AreDistinct key s.lru_list v.order;
    same = λ k. ground (
      arith,
      lookup-assign key k entry s.lru,
      front_same key s v (ground arith) k,
      equal_iff key k,
    );
    sized = ground (
      arith,
      v.sized,
      +ℤ_parts s.size (pos size -ℤ pos e.size),
      -ℤ_parts (pos size) (pos e.size),
      total-assign entry_size key entry e s.lru found,
    );
  }

  -- `put` keeps the invariant.
  pub put-IsValid : IsValid s → IsValid (put key size expires_at now s).0
  put-IsValid v = elim (Option-cases (lookup key s.lru)) [
    | inl missing ↦ rw (put_new missing) (added-IsValid missing v)
    | inr (e, found) ↦ rw (put_old e found) (replaced-IsValid e found v)
  ]

  -- It returns the change of the size.
  pub put-size :
      (put key size expires_at now s).0.size ≡ s.size +ℤ (put key size expires_at now s).1
  unfolding put
  put-size = ground arith

module _ (key : Bytes) (e : EntryMeta) (s : Shard) (found : lookup key s.lru ≡ some e) where
  -- To take an entry out keeps the invariant, and the size falls by that of the entry.
  pub drop_entry-IsValid : IsValid s → IsValid (drop_entry key e s)
  unfolding drop_entry
  drop_entry-IsValid v = record {
    keys = delete-HasDistinctKeys key s.lru v.keys;
    order = without-AreDistinct key s.lru_list v.order;
    same = λ k. ground (
      arith,
      lookup-delete key k s.lru,
      member-without key k s.lru_list,
      v.same k,
      equal_iff key k,
      equal_iff k key,
    );
    sized = ground (
      arith,
      v.sized,
      -ℤ_parts s.size (pos e.size),
      total-delete entry_size key e s.lru v.keys found,
    );
  }

pub drop_entry-size :
    (key : Bytes) (e : EntryMeta) (s : Shard) → (drop_entry key e s).size ≡ s.size -ℤ pos e.size
unfolding drop_entry
drop_entry-size key e s = refl

-- The sum of the sizes of the entries falls by that of the entry taken out.
pub drop_entry-bytes_of :
    (key : Bytes) (e : EntryMeta) (s : Shard)
    → lookup key s.lru ≡ some e
    → IsValid s
    → bytes_of (drop_entry key e s) + e.size ≡ bytes_of s
unfolding drop_entry
drop_entry-bytes_of key e s found v = total-delete entry_size key e s.lru v.keys found
