-- ===== src/Cluster/Lru/Insert.antt =====
-- `Put`: an entry is added, and a full cache evicts one first.
use peretum.Cluster.Lru.Valid.{IsValid, moved_same, drop_node-IsValid}
use peretum.Cluster.Lru.{LruCache, move_to_front, drop_node, evict, add_node, make_room, put}
use peretum.Prelude.Bytes.{Bytes, equal, equal_iff, equal_refl}
use peretum.Prelude.Dict.{
  member, front-AreDistinct, lookup, assign, is_some, lookup-assign, lookup-delete,
  assign-HasDistinctKeys,
}
use peretum.Prelude.Recency.{
  back, back-cases, member_last, length-delete_found, length-assign_new, length-assign_old,
}
use peretum.Prelude.{
  ◌<◌, ◌≡◌, ◌∙◌, refl, sym, ap, inl, inr, true, false, Option, none, some, List, [], ◌∷◌, leb,
  length, arith, if◌then◌else◌, Bool-cases, Option-cases,
}

module _ {V : Type 0} where
  pub evict_last :
      (c : LruCache V) (key : Bytes) → back c.order ≡ some key → evict c ≡ drop_node key c
  unfolding evict
  evict_last c key e = ground arith

  -- The key that has to go for a new one.
  abbrev pub victim : Bytes → LruCache V → Option Bytes
  victim key c =
      if leb c.capacity (length c.cache)
      then (if is_some (lookup key c.cache) then none else back c.order)
      else none

  -- A full cache has a last key, and it is in the map.
  pub full_lem :
      (c : LruCache V)
      → IsValid c
      → leb c.capacity (length c.cache) ≡ true
      → (key : Bytes) × (value : V) × (back c.order ≡ some key) × (lookup key c.cache ≡ some value)
  full_lem c v full = elim (back-cases c.order) [
    | inl (empty, _) ↦ absurd (
        no_entry c.cache (ground (arith, v.positive))
          (λ k. sym (v.same k) ∙ ap (λ l. member l k) empty))
    | inr (key, front, e, last) ↦ elim (Option-cases (lookup key c.cache)) [
      | inl missing ↦ absurd (ground (arith, v.same key, member_last key front))
      | inr (value, found) ↦ (key, value, last, found)
    ]
  ]
    where
      no_entry :
          (m : List (Bytes × V)) → 0 < length m → ((k : Bytes) → is_some (lookup k m) ≡ false) → ⊥
      no_entry [] h f = omega arith
      no_entry ((k, w) ∷ m) h f = ground (arith, f k, equal_refl k)

  -- Room for a new key: the invariant, one entry less than the capacity, and what is still there.
  record HasRoom (c c' : LruCache V) : Type 0 where
    valid : IsValid c'
    smaller : length c'.cache < c'.capacity
    rest :
        (j : Bytes)
        → lookup j c'.cache ≡ (
            if leb c.capacity (length c.cache)
            then elim (back c.order) [
              | none ↦ lookup j c.cache
              | some k ↦ if equal k j then none else lookup j c.cache
            ]
            else lookup j c.cache)

  make_room_full :
      (c : LruCache V) (key : Bytes)
      → leb c.capacity (length c.cache) ≡ true
      → back c.order ≡ some key
      → make_room c ≡ drop_node key c
  make_room_full c key full last = rw full (evict_last c key last)

  make_room-HasRoom : (c : LruCache V) → IsValid c → HasRoom c (make_room c)
  make_room-HasRoom c v = elim (Bool-cases (leb c.capacity (length c.cache))) [
    | inr free ↦ rw free (record { valid = v; smaller = ground arith; rest = λ j. rw free refl })
    | inl full ↦
        let (key, value, last, found) = full_lem c v full in
        rw (make_room_full c key full last) (record {
          valid = drop_node-IsValid key c v;
          smaller = ground (arith, length-delete_found key value c.cache, v.bounded);
          rest = λ j. rw (full, last) (lookup-delete key j c.cache);
        })
  ]

  pub put_old :
      (key : Bytes) (value old : V) (c : LruCache V)
      → lookup key c.cache ≡ some old
      → put key value c
        ≡ record c { cache = assign key value c.cache; order = move_to_front key c.order }
  unfolding put
  put_old key value old c e = ground arith

  pub put_new :
      (key : Bytes) (value : V) (c : LruCache V)
      → lookup key c.cache ≡ none
      → put key value c ≡ add_node key value (make_room c)
  unfolding put
  put_new key value c e = ground arith

  add_node-IsValid :
      (key : Bytes) (value : V) (c : LruCache V)
      → lookup key c.cache ≡ none
      → length c.cache < c.capacity
      → IsValid c
      → IsValid (add_node key value c)
  add_node-IsValid key value c missing room v = record {
    keys = assign-HasDistinctKeys key value c.cache v.keys;
    distinct = (v.same key ∙ ap is_some missing, v.distinct);
    same = λ k. ground (arith, lookup-assign key k value c.cache, v.same k);
    bounded = omega (arith, length-assign_new key value c.cache missing);
    positive = v.positive;
  }

  missing_still :
      (key : Bytes) (c c' : LruCache V)
      → lookup key c.cache ≡ none
      → HasRoom c c'
      → lookup key c'.cache ≡ none
  missing_still key c c' missing r = r.rest key ∙ ground arith

  -- `Put` keeps the invariant, so the cache never holds more entries than its capacity. Then the
  -- key has the new value, and every other key the value that it had, but for the last key in the
  -- order of use, which is gone if the key was new and the cache full.
  pub put_lem :
      (key j : Bytes) (value : V) (c : LruCache V)
      → IsValid c
      → IsValid (put key value c)
        × (lookup j (put key value c).cache ≡ (
            if equal key j then some value else elim (victim key c) [
              | none ↦ lookup j c.cache
              | some k ↦ if equal k j then none else lookup j c.cache
            ]))
  put_lem key j value c v = elim (Option-cases (lookup key c.cache)) [
    | inr (old, e) ↦ rw (put_old key value old c e) (
      record {
        keys = assign-HasDistinctKeys key value c.cache v.keys;
        distinct = front-AreDistinct key c.order v.distinct;
        same = λ k. ground (
          arith,
          lookup-assign key k value c.cache,
          moved_same key c v (ground arith) k,
          equal_iff key k,
        );
        bounded = omega (arith, length-assign_old key value old c.cache e, v.bounded);
        positive = v.positive;
      },
      lookup-assign key j value c.cache ∙ ground arith,
    )
    | inl e ↦
        let r = make_room-HasRoom c v in
        rw (put_new key value c e) (
          add_node-IsValid key value (make_room c) (missing_still key c (make_room c) e r) r.smaller
              r.valid,
          lookup-assign key j value (make_room c).cache ∙ ground (arith, r.rest j),
        )
  ]
