-- ===== src/Prelude/Dict.antt =====
-- Go maps with string keys, as association lists. The order of the list stands for the order, not
-- determined by the language, in which a `range` loop visits the entries.
use peretum.Prelude.Bytes.{Bytes, equal, equal_iff, equal_refl}
use peretum.Prelude.{
  ℕ, ◌+◌, ◌≡◌, refl, Bool, true, false, ◌||◌, Option, none, some, List, [], ◌∷◌, arith,
  if◌then◌else◌, Bool-cases, inl, inr,
}

-- Keys in a list.
abbrev pub member : List Bytes → Bytes → Bool
member [] k = false
member (x ∷ xs) k = equal x k || member xs k

abbrev pub without : Bytes → List Bytes → List Bytes
without k [] = []
without k (x ∷ xs) = if equal x k then without k xs else x ∷ without k xs

-- No key twice.
abbrev pub AreDistinct : List Bytes → Type 0
AreDistinct [] = Unit
AreDistinct (x ∷ xs) = (member xs x ≡ false) × AreDistinct xs

pub member-without :
    (k j : Bytes) (xs : List Bytes)
    → member (without k xs) j ≡ (if equal j k then false else member xs j)
member-without k j [] = ground arith
member-without k j (x ∷ xs) =
    ground (arith, member-without k j xs, equal_iff x k, equal_iff x j, equal_iff j k)

pub without-AreDistinct :
    (k : Bytes) (xs : List Bytes) → AreDistinct xs → AreDistinct (without k xs)
without-AreDistinct k [] d = tt
without-AreDistinct k (x ∷ xs) d = elim (Bool-cases (equal x k)) [
  | inl here ↦ rw here (without-AreDistinct k xs d.1)
  | inr other ↦ rw other (ground (arith, member-without k x xs), without-AreDistinct k xs d.1)
]

pub front-AreDistinct :
    (k : Bytes) (xs : List Bytes) → AreDistinct xs → AreDistinct (k ∷ without k xs)
front-AreDistinct k xs d =
    (ground (arith, member-without k k xs, equal_refl k), without-AreDistinct k xs d)

module _ {ℓ} {V : Type ℓ} where
  abbrev pub lookup : Bytes → List (Bytes × V) → Option V
  lookup k [] = none
  lookup k ((j, v) ∷ m) = if equal j k then some v else lookup k m

  -- `m[k] = v`
  abbrev pub assign : Bytes → V → List (Bytes × V) → List (Bytes × V)
  assign k v [] = (k, v) ∷ []
  assign k v ((j, w) ∷ m) = if equal j k then (k, v) ∷ m else (j, w) ∷ assign k v m

  -- `delete(m, k)`
  abbrev pub delete : Bytes → List (Bytes × V) → List (Bytes × V)
  delete k [] = []
  delete k ((j, w) ∷ m) = if equal j k then delete k m else (j, w) ∷ delete k m

  abbrev pub is_some : Option V → Bool
  is_some none = false
  is_some (some v) = true

  pub lookup-assign :
      (k j : Bytes) (v : V) (m : List (Bytes × V))
      → lookup j (assign k v m) ≡ (if equal k j then some v else lookup j m)
  lookup-assign k j v [] = refl
  lookup-assign k j v ((i, w) ∷ m) =
      ground (arith, equal_iff k j, equal_iff i k, equal_iff i j, lookup-assign k j v m)

  pub lookup-delete :
      (k j : Bytes) (m : List (Bytes × V))
      → lookup j (delete k m) ≡ (if equal k j then none else lookup j m)
  lookup-delete k j [] = ground arith
  lookup-delete k j ((i, w) ∷ m) =
      ground (arith, equal_iff k j, equal_iff i k, equal_iff i j, lookup-delete k j m)

  -- No key twice, where the rest of the map has no entry for the key.
  abbrev pub HasDistinctKeys : List (Bytes × V) → Type 0
  HasDistinctKeys [] = Unit
  HasDistinctKeys ((k, v) ∷ m) = (is_some (lookup k m) ≡ false) × HasDistinctKeys m

  pub delete-HasDistinctKeys :
      (k : Bytes) (m : List (Bytes × V)) → HasDistinctKeys m → HasDistinctKeys (delete k m)
  delete-HasDistinctKeys k [] d = tt
  delete-HasDistinctKeys k ((i, w) ∷ m) d = elim (Bool-cases (equal i k)) [
    | inl here ↦ rw here (delete-HasDistinctKeys k m d.1)
    | inr other ↦ rw other (ground (arith, lookup-delete k i m), delete-HasDistinctKeys k m d.1)
  ]

  pub assign-HasDistinctKeys :
      (k : Bytes) (v : V) (m : List (Bytes × V))
      → HasDistinctKeys m
      → HasDistinctKeys (assign k v m)
  assign-HasDistinctKeys k v [] d = (refl, tt)
  assign-HasDistinctKeys k v ((i, w) ∷ m) d = elim (Bool-cases (equal i k)) [
    | inl here ↦ rw here (ground (arith, equal_iff i k), d.1)
    | inr other ↦ rw other (
      ground (arith, lookup-assign k i v m, equal_iff i k, equal_iff k i),
      assign-HasDistinctKeys k v m d.1,
    )
  ]

  pub delete_absent : (k : Bytes) (m : List (Bytes × V)) → lookup k m ≡ none → delete k m ≡ m
  delete_absent k [] h = refl
  delete_absent k ((i, w) ∷ m) h = ground (arith, delete_absent k m)

-- The sum of a measure over the entries.
module _ {ℓ} {V : Type ℓ} (f : V → ℕ) where
  abbrev pub total : List (Bytes × V) → ℕ
  total [] = 0
  total ((k, v) ∷ m) = f v + total m

  pub total-delete :
      (k : Bytes) (v : V) (m : List (Bytes × V))
      → HasDistinctKeys m
      → lookup k m ≡ some v
      → total (delete k m) + f v ≡ total m
  total-delete k v [] d h = cc
  total-delete k v ((i, w) ∷ m) d h = elim (Bool-cases (equal i k)) [
    | inl here ↦ ground (arith, equal_iff i k, delete_absent k m)
    | inr other ↦ ground (arith, total-delete k v m d.1)
  ]

  pub total-assign_new :
      (k : Bytes) (v : V) (m : List (Bytes × V))
      → lookup k m ≡ none
      → total (assign k v m) ≡ total m + f v
  total-assign_new k v [] h = omega arith
  total-assign_new k v ((i, w) ∷ m) h = ground (arith, total-assign_new k v m)

  pub total-assign :
      (k : Bytes) (v old : V) (m : List (Bytes × V))
      → lookup k m ≡ some old
      → total (assign k v m) + f old ≡ total m + f v
  total-assign k v old [] h = cc
  total-assign k v old ((i, w) ∷ m) h = ground (arith, total-assign k v old m)
