-- ===== src/Cluster/Lru.antt =====
-- `LRUCache` of internal/cluster/lru.go, for string keys, as its users have it. The linked list
-- between `head` and `tail` is the list of the keys of its nodes, `head.next` first; the value of a
-- node stands in the map. A call holds the mutex, so it is one step.
pub mod Valid
pub mod Insert
pub mod History
pub mod Recent
use peretum.Prelude.Bytes.{Bytes, equal}
use peretum.Prelude.Dict.{lookup, assign, delete, without}
use peretum.Prelude.Int.{ℤ, pos, ltb_ℤ, pos_part}
use peretum.Prelude.Recency.{back}
use peretum.Prelude.{
  ℕ, suc, Bool, true, false, Option, none, some, List, [], ◌∷◌, leb, length, if◌then◌else◌,
}

pub record LruCache (V : Type 0) : Type 0 where
  pub capacity : ℕ
  pub cache : List (Bytes × V)
  pub order : List Bytes

abbrev pub move_to_front : Bytes → List Bytes → List Bytes
move_to_front key order = key ∷ without key order

module _ {V : Type 0} where
  unfoldable pub new_lru_cache : ℤ → LruCache V
  new_lru_cache capacity = record {
    capacity = if ltb_ℤ (pos 0) capacity then pos_part capacity else 10000;
    cache = [];
    order = [];
  }

  unfoldable pub get : Bytes → LruCache V → LruCache V × Option V
  get key c = elim (lookup key c.cache) [
    | none ↦ (c, none)
    | some v ↦ (record c { order = move_to_front key c.order }, some v)
  ]

  abbrev pub drop_node : Bytes → LruCache V → LruCache V
  drop_node key c = record c { cache = delete key c.cache; order = without key c.order }

  unfoldable pub evict : LruCache V → LruCache V
  unfolding back
  evict c = elim (back c.order) [ none ↦ c | some key ↦ drop_node key c ]

  abbrev pub add_node : Bytes → V → LruCache V → LruCache V
  add_node key value c = record c { cache = assign key value c.cache; order = key ∷ c.order }

  abbrev pub make_room : LruCache V → LruCache V
  make_room c = if leb c.capacity (length c.cache) then evict c else c

  unfoldable pub put : Bytes → V → LruCache V → LruCache V
  put key value c = elim (lookup key c.cache) [
    | some old ↦ record c { cache = assign key value c.cache; order = move_to_front key c.order }
    | none ↦ add_node key value (make_room c)
  ]

  -- The method `Delete`, with the flag that it returns.
  unfoldable pub delete_key : Bytes → LruCache V → LruCache V × Bool
  delete_key key c = elim (lookup key c.cache) [
    | none ↦ (c, false)
    | some v ↦ (drop_node key c, true)
  ]

  unfoldable pub len : LruCache V → ℕ
  len c = length c.cache
