-- ===== src/Cluster/Lru/Recent.antt =====
-- The order of use: after any calls the list of the cache has its keys by their last use, so that a
-- full cache forgets the key that was not used for the longest time.
use mathlib.Core.Path.{subst}
use peretum.Cluster.Lru.History.{
  Call, getting, putting, deleting, after, is_use, age, IsRanked, without-IsRanked, unused-IsRanked,
  front-IsRanked, back-IsRanked,
}
use peretum.Cluster.Lru.Insert.{full_lem, evict_last, put_new, put_old, put_lem}
use peretum.Cluster.Lru.Valid.{
  IsValid, new_lru_cache-IsValid, get_found, get_missing, delete_key_found, delete_key_missing,
  get_lem, delete_key_lem,
}
use peretum.Cluster.Lru.{LruCache, new_lru_cache, evict, make_room, get, put, delete_key}
use peretum.Prelude.Bytes.{Bytes, equal, equal_iff, equal_refl}
use peretum.Prelude.Dict.{AreDistinct, without, lookup, is_some, member-without}
use peretum.Prelude.Int.{ℤ}
use peretum.Prelude.Recency.{back, back-cases}
use peretum.Prelude.{
  ◌<◌, ◌≡◌, refl, ◌∙◌, ◌⊎◌, true, false, none, some, List, [], ◌∷◌, inl, inr, arith, length, leb,
  if◌then◌else◌, Bool-cases, Option-cases,
}

module _ {V : Type 0} where
  pub after-IsValid : (capacity : ℤ) (calls : List (Call V)) → IsValid (after capacity calls)
  after-IsValid capacity [] = new_lru_cache-IsValid capacity
  after-IsValid capacity (getting key ∷ calls) =
      (get_lem key (after capacity calls) (after-IsValid capacity calls)).1
  after-IsValid capacity (putting key value ∷ calls) =
      (put_lem key key value (after capacity calls) (after-IsValid capacity calls)).0
  after-IsValid capacity (deleting key ∷ calls) =
      (delete_key_lem key key (after capacity calls) (after-IsValid capacity calls)).0

  moved-IsRanked :
      (call : Call V) (calls : List (Call V)) (key : Bytes) (order : List Bytes)
      → is_use key call ≡ true
      → ((j : Bytes) → equal key j ≡ false → is_use j call ≡ false)
      → IsRanked calls order
      → IsRanked (call ∷ calls) (key ∷ without key order)
  moved-IsRanked call calls key order used only r =
      front-IsRanked call calls key (without key order) used only
        (ground (arith, member-without key key order, equal_refl key))
        (without-IsRanked calls key order r)

  evict_empty : (c : LruCache V) → back c.order ≡ none → evict c ≡ c
  unfolding evict
  evict_empty c e = ground arith

  make_room-IsRanked :
      (calls : List (Call V)) (c : LruCache V)
      → IsRanked calls c.order
      → IsRanked calls (make_room c).order
  make_room-IsRanked calls c r = elim (Bool-cases (leb c.capacity (length c.cache))) [
    | inr free ↦ rw free r
    | inl full ↦ elim (back-cases c.order) [
      | inl (empty, none_last) ↦ rw (full, evict_empty c none_last) r
      | inr (key, front, e, last) ↦
          rw (full, evict_last c key last) (without-IsRanked calls key c.order r)
    ]
  ]

  get-IsRanked :
      (key : Bytes) (calls : List (Call V)) (c : LruCache V)
      → IsValid c
      → IsRanked calls c.order
      → IsRanked (getting key ∷ calls) (get key c).0.order
  get-IsRanked key calls c v r = elim (Option-cases (lookup key c.cache)) [
    | inl e ↦ rw (get_missing key c e) (
        unused-IsRanked (getting key) calls c.order
          (λ j m. ground (arith, v.same j, equal_iff key j)) r)
    | inr (value, e) ↦
        rw (get_found key c value e)
          (moved-IsRanked (getting key) calls key c.order (equal_refl key) (λ j h. h) r)
  ]

  put-IsRanked :
      (key : Bytes) (value : V) (calls : List (Call V)) (c : LruCache V)
      → IsValid c
      → IsRanked calls c.order
      → IsRanked (putting key value ∷ calls) (put key value c).order
  put-IsRanked key value calls c v r = elim (Option-cases (lookup key c.cache)) [
    | inr (old, e) ↦
        rw (put_old key value old c e)
          (moved-IsRanked (putting key value) calls key c.order (equal_refl key) (λ j h. h) r)
    | inl e ↦
        let new = put_new key value c e in
        let d =
          subst (λ (x : LruCache V). AreDistinct x.order) new
            (put_lem key key value c v).0.distinct in
        rw new (
          front-IsRanked (putting key value) calls key (make_room c).order (equal_refl key)
            (λ j h. h) d.0 (make_room-IsRanked calls c r))
  ]

  delete_key-IsRanked :
      (key : Bytes) (calls : List (Call V)) (c : LruCache V)
      → IsRanked calls c.order
      → IsRanked (deleting key ∷ calls) (delete_key key c).0.order
  delete_key-IsRanked key calls c r = elim (Option-cases (lookup key c.cache)) [
    | inl e ↦
        rw (delete_key_missing key c e)
          (unused-IsRanked (deleting key) calls c.order (λ j m. refl) r)
    | inr (value, e) ↦ rw (delete_key_found key c value e) (
        unused-IsRanked (deleting key) calls (without key c.order) (λ j m. refl)
          (without-IsRanked calls key c.order r))
  ]

  after-IsRanked :
      (capacity : ℤ) (calls : List (Call V)) → IsRanked calls (after capacity calls).order
  unfolding new_lru_cache
  after-IsRanked capacity [] = tt
  after-IsRanked capacity (getting key ∷ calls) =
      get-IsRanked key calls (after capacity calls) (after-IsValid capacity calls)
        (after-IsRanked capacity calls)
  after-IsRanked capacity (putting key value ∷ calls) =
      put-IsRanked key value calls (after capacity calls) (after-IsValid capacity calls)
        (after-IsRanked capacity calls)
  after-IsRanked capacity (deleting key ∷ calls) =
      delete_key-IsRanked key calls (after capacity calls) (after-IsRanked capacity calls)

  -- A key of the cache that was used before every other key of the cache.
  pub record IsOldest (calls : List (Call V)) (c : LruCache V) (key : Bytes) : Type 0 where
    pub present : is_some (lookup key c.cache) ≡ true
    pub oldest :
        (j : Bytes)
        → is_some (lookup j c.cache) ≡ true
        → equal key j ≡ false
        → age j calls < age key calls

  -- The two ways in which `Put` ends: every other key keeps its value, which takes a key that was
  -- there or a cache that is not full, or the cache is full, the key is new, and the oldest key goes.
  abbrev pub Puts : List (Call V) → Bytes → V → LruCache V → LruCache V → Type 0
  Puts calls key value c c' =
      (((is_some (lookup key c.cache) ≡ true) ⊎ (length c.cache < c.capacity))
        × ((j : Bytes)
            → lookup j c'.cache ≡ (if equal key j then some value else lookup j c.cache)))
      ⊎ ((gone : Bytes) × IsOldest calls c gone
          × (lookup key c.cache ≡ none)
          × (length c.cache ≡ c.capacity)
          × ((j : Bytes)
              → lookup j c'.cache ≡ (
                  if equal key j
                  then some value
                  else if equal gone j
                  then none
                  else lookup j c.cache)))

  put-Puts :
      (calls : List (Call V)) (key : Bytes) (value : V) (c : LruCache V)
      → IsValid c
      → IsRanked calls c.order
      → Puts calls key value c (put key value c)
  put-Puts calls key value c v r = elim (Option-cases (lookup key c.cache)) [
    | inr (old, e) ↦ inl (inl (ground arith), λ j. (put_lem key j value c v).1 ∙ ground arith)
    | inl e ↦ elim (Bool-cases (leb c.capacity (length c.cache))) [
      | inr free ↦ inl (inr (ground arith), λ j. (put_lem key j value c v).1 ∙ ground arith)
      | inl full ↦
          let (gone, old, last, found) = full_lem c v full in
          inr (
            gone,
            record {
              present = ground arith;
              oldest = λ j there other.
                  back-IsRanked calls c.order gone j r last (ground (arith, v.same j)) other;
            },
            e,
            ground (arith, v.bounded),
            λ j. (put_lem key j value c v).1 ∙ rw (full, e, last) refl,
          )
    ]
  ]

  put-capacity :
      (key : Bytes) (value : V) (c : LruCache V) → (put key value c).capacity ≡ c.capacity
  unfolding put evict
  put-capacity key value c = ground arith

  -- Whatever calls came before, `Put` keeps the invariant and the capacity that bounds the number of
  -- entries, stores the value, and forgets another key only if the key is new and the cache full: then
  -- the one of all its keys that was last read or written the longest ago.
  pub put-after :
      (capacity : ℤ) (calls : List (Call V)) (key : Bytes) (value : V)
      → IsValid (put key value (after capacity calls))
        × ((put key value (after capacity calls)).capacity ≡ (after capacity calls).capacity)
        × Puts calls key value (after capacity calls) (put key value (after capacity calls))
  put-after capacity calls key value = (
    after-IsValid capacity (putting key value ∷ calls),
    put-capacity key value (after capacity calls),
    put-Puts calls key value (after capacity calls) (after-IsValid capacity calls)
        (after-IsRanked capacity calls),
  )
