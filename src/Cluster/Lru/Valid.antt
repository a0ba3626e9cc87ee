-- ===== src/Cluster/Lru/Valid.antt =====
-- The invariant of the cache: the list holds the keys of the map, each once, and there are at most
-- as many as the capacity.
use peretum.Cluster.Lru.{LruCache, new_lru_cache, move_to_front, get, drop_node, delete_key}
use peretum.Prelude.Bytes.{Bytes, equal, equal_iff}
use peretum.Prelude.Dict.{
  member, AreDistinct, member-without, without-AreDistinct, front-AreDistinct, lookup, is_some,
  lookup-delete, HasDistinctKeys, delete-HasDistinctKeys,
}
use peretum.Prelude.Int.{ℤ}
use peretum.Prelude.Recency.{length-delete}
use peretum.Prelude.{
  ◌≤◌, ◌<◌, ◌≡◌, refl, sym, ap, inl, inr, true, false, none, some, length, arith, if◌then◌else◌,
  Option-cases,
}

module _ {V : Type 0} where
  pub record IsValid (c : LruCache V) : Type 0 where
    pub keys : HasDistinctKeys c.cache
    pub distinct : AreDistinct c.order
    pub same : (k : Bytes) → member c.order k ≡ is_some (lookup k c.cache)
    pub bounded : length c.cache ≤ c.capacity
    pub positive : 0 < c.capacity

  pub new_lru_cache-IsValid : (capacity : ℤ) → IsValid (new_lru_cache capacity)
  unfolding new_lru_cache
  new_lru_cache-IsValid capacity = record {
    keys = tt;
    distinct = tt;
    same = λ k. refl;
    bounded = omega arith;
    positive = ground arith;
  }

  pub moved_same :
      (key : Bytes) (c : LruCache V)
      → IsValid c
      → is_some (lookup key c.cache) ≡ true
      → (k : Bytes) → member (move_to_front key c.order) k ≡ is_some (lookup k c.cache)
  moved_same key c v there k =
      ground (arith, member-without key k c.order, v.same k, equal_iff key k, equal_iff k key)

  pub get_found :
      (key : Bytes) (c : LruCache V) (value : V)
      → lookup key c.cache ≡ some value
      → get key c ≡ (record c { order = move_to_front key c.order }, some value)
  unfolding get
  get_found key c value e = ground arith

  pub get_missing :
      (key : Bytes) (c : LruCache V) → lookup key c.cache ≡ none → get key c ≡ (c, none)
  unfolding get
  get_missing key c e = ground arith

  -- `Get` returns what the map holds, keeps the invariant, and changes no entry.
  pub get_lem :
      (key : Bytes) (c : LruCache V)
      → IsValid c
      → ((get key c).1 ≡ lookup key c.cache)
        × IsValid (get key c).0
        × ((get key c).0.cache ≡ c.cache)
  get_lem key c v = elim (Option-cases (lookup key c.cache)) [
    | inl e ↦ rw (get_missing key c e) (sym e, v, refl)
    | inr (value, e) ↦ rw (get_found key c value e) (
      sym e,
      record {
        keys = v.keys;
        distinct = front-AreDistinct key c.order v.distinct;
        same = moved_same key c v (ground arith);
        bounded = v.bounded;
        positive = v.positive;
      },
      refl,
    )
  ]

  pub drop_node-IsValid : (key : Bytes) (c : LruCache V) → IsValid c → IsValid (drop_node key c)
  drop_node-IsValid key c v = record {
    keys = delete-HasDistinctKeys key c.cache v.keys;
    distinct = without-AreDistinct key c.order v.distinct;
    same = λ k. ground (
      arith,
      lookup-delete key k c.cache,
      member-without key k c.order,
      v.same k,
      equal_iff key k,
      equal_iff k key,
    );
    bounded = omega (arith, length-delete key c.cache, v.bounded);
    positive = v.positive;
  }

  pub delete_key_missing :
      (key : Bytes) (c : LruCache V) → lookup key c.cache ≡ none → delete_key key c ≡ (c, false)
  unfolding delete_key
  delete_key_missing key c e = ground arith

  pub delete_key_found :
      (key : Bytes) (c : LruCache V) (value : V)
      → lookup key c.cache ≡ some value
      → delete_key key c ≡ (drop_node key c, true)
  unfolding delete_key
  delete_key_found key c value e = ground arith

  -- `Delete` keeps the invariant, reports whether the key was there, and takes out that entry only.
  pub delete_key_lem :
      (key j : Bytes) (c : LruCache V)
      → IsValid c
      → IsValid (delete_key key c).0
        × ((delete_key key c).1 ≡ is_some (lookup key c.cache))
        × (lookup j (delete_key key c).0.cache ≡ (if equal key j then none else lookup j c.cache))
  delete_key_lem key j c v = elim (Option-cases (lookup key c.cache)) [
    | inl e ↦
        rw (delete_key_missing key c e) (v, ap is_some (sym e), ground (arith, equal_iff key j))
    | inr (value, e) ↦
        rw (delete_key_found key c value e)
          (drop_node-IsValid key c v, ap is_some (sym e), lookup-delete key j c.cache)
  ]
