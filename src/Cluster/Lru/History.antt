-- ===== src/Cluster/Lru/History.antt =====
-- Calls of the cache, and lists of keys in the order of their last use.
use peretum.Cluster.Lru.{LruCache, new_lru_cache, get, put, delete_key}
use peretum.Prelude.Bytes.{Bytes, equal, equal_iff, equal_refl}
use peretum.Prelude.Dict.{member, without, member-without}
use peretum.Prelude.Int.{ℤ}
use peretum.Prelude.Recency.{back}
use peretum.Prelude.{
  ℕ, suc, ◌<◌, ◌≡◌, Bool, true, false, some, List, [], ◌∷◌, inl, inr, arith, if◌then◌else◌,
  Bool-cases,
}

-- A call of the cache.
pub data Call (V : Type 0) : Type 0 where
  getting : Bytes → Call V
  putting : Bytes → V → Call V
  deleting : Bytes → Call V

module _ {V : Type 0} where
  abbrev pub called : Call V → LruCache V → LruCache V
  called (getting key) c = (get key c).0
  called (putting key value) c = put key value c
  called (deleting key) c = (delete_key key c).0

  -- The cache after the calls of a history, whose head is the last call.
  abbrev pub after : ℤ → List (Call V) → LruCache V
  after capacity [] = new_lru_cache capacity
  after capacity (call ∷ calls) = called call (after capacity calls)

  abbrev pub is_use : Bytes → Call V → Bool
  is_use key (getting k) = equal k key
  is_use key (putting k value) = equal k key
  is_use key (deleting k) = false

  -- How many calls came after the last one that read or wrote a key.
  abbrev pub age : Bytes → List (Call V) → ℕ
  age key [] = 0
  age key (call ∷ calls) = if is_use key call then 0 else suc (age key calls)

  -- Each key of a list was used after all the later ones.
  abbrev pub IsRanked : List (Call V) → List Bytes → Type 0
  IsRanked calls [] = Unit {0}
  IsRanked calls (k ∷ order) =
      ((j : Bytes) → member order j ≡ true → age k calls < age j calls) × IsRanked calls order

  pub without-IsRanked :
      (calls : List (Call V)) (key : Bytes) (order : List Bytes)
      → IsRanked calls order
      → IsRanked calls (without key order)
  without-IsRanked calls key [] r = tt
  without-IsRanked calls key (k ∷ order) (above, rest) = elim (Bool-cases (equal k key)) [
    | inl here ↦ rw here (without-IsRanked calls key order rest)
    | inr other ↦ rw other (
      λ j m. above j (ground (arith, member-without key j order)),
      without-IsRanked calls key order rest,
    )
  ]

  -- A call that uses none of the keys leaves their order.
  pub unused-IsRanked :
      (call : Call V) (calls : List (Call V)) (order : List Bytes)
      → ((j : Bytes) → member order j ≡ true → is_use j call ≡ false)
      → IsRanked calls order
      → IsRanked (call ∷ calls) order
  unused-IsRanked call calls [] unused r = tt
  unused-IsRanked call calls (k ∷ order) unused (above, rest) = (
    λ j m. ground (arith, unused k, unused j, equal_refl k, above j m),
    unused-IsRanked call calls order (λ j m. unused j (ground arith)) rest,
  )

  -- A key that is used goes to the front.
  pub front-IsRanked :
      (call : Call V) (calls : List (Call V)) (key : Bytes) (order : List Bytes)
      → is_use key call ≡ true
      → ((j : Bytes) → equal key j ≡ false → is_use j call ≡ false)
      → member order key ≡ false
      → IsRanked calls order
      → IsRanked (call ∷ calls) (key ∷ order)
  front-IsRanked call calls key order used only absent r =
      let unused : (j : Bytes) → member order j ≡ true → is_use j call ≡ false =
        λ j m. only j (ground (arith, equal_iff key j)) in
      (λ j m. ground (arith, unused j m), unused-IsRanked call calls order unused r)

  -- The last key of a list is the one that was used before all the others.
  pub back-IsRanked :
      (calls : List (Call V)) (order : List Bytes) (key j : Bytes)
      → IsRanked calls order
      → back order ≡ some key
      → member order j ≡ true
      → equal key j ≡ false
      → age j calls < age key calls
  unfolding back
  back-IsRanked calls [] key j r last m other = absurd (cc)
  back-IsRanked calls (k ∷ []) key j r last m other = ground (arith, equal_iff key j)
  back-IsRanked calls (k ∷ i ∷ order) key j (above, rest) last m other =
      elim (Bool-cases (equal k j)) [
        | inl here ↦ ground (arith, equal_iff k j, above key (back_member (i ∷ order) key last))
        | inr later ↦ back-IsRanked calls (i ∷ order) key j rest last (ground arith) other
      ]
    where
      back_member : (l : List Bytes) (key : Bytes) → back l ≡ some key → member l key ≡ true
      back_member [] key e = absurd (cc)
      back_member (k ∷ []) key e = ground (arith, equal_refl key)
      back_member (k ∷ j ∷ l) key e = ground (arith, back_member (j ∷ l) key e)
