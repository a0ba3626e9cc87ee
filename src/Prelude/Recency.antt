-- ===== src/Prelude/Recency.antt =====
-- Lists of keys in the order of their use, as `container/list` and the linked list of a cache keep
-- them: the front is the head.
use peretum.Prelude.Bytes.{Bytes, equal_refl}
use peretum.Prelude.Dict.{lookup, delete, assign, member}
use peretum.Prelude.{
  suc, ◌≤◌, ◌<◌, ◌≡◌, refl, ◌⊎◌, inl, inr, true, Option, none, some, List, [], ◌∷◌, ◌++◌, arith,
  length,
}

-- The last key.
unfoldable pub back : List Bytes → Option Bytes
back [] = none
back (k ∷ []) = some k
back (k ∷ j ∷ l) = back (j ∷ l)

pub back-cases :
    (l : List Bytes)
    → ((l ≡ []) × (back l ≡ none))
      ⊎ ((key : Bytes) × (front : List Bytes) × (l ≡ front ++ key ∷ []) × (back l ≡ some key))
unfolding back
back-cases [] = inl (refl, refl)
back-cases (k ∷ []) = inr (k, [], refl, refl)
back-cases (k ∷ j ∷ l) = elim (back-cases (j ∷ l)) [
  | inl (empty, _) ↦ absurd (cc)
  | inr (key, front, e, last) ↦ inr (key, k ∷ front, rw e, last)
]

pub member_last : (key : Bytes) (front : List Bytes) → member (front ++ key ∷ []) key ≡ true
member_last key [] = ground (arith, equal_refl key)
member_last key (x ∷ front) = ground (arith, member_last key front)

module _ {ℓ} {V : Type ℓ} where
  pub length-delete : (k : Bytes) (m : List (Bytes × V)) → length (delete k m) ≤ length m
  length-delete k [] = omega arith
  length-delete k ((j, e) ∷ m) = ground (arith, length-delete k m)

  pub length-delete_found :
      (k : Bytes) (e : V) (m : List (Bytes × V))
      → lookup k m ≡ some e
      → length (delete k m) < length m
  length-delete_found k e [] h = absurd (cc)
  length-delete_found k e ((j, w) ∷ m) h =
      ground (arith, length-delete k m, length-delete_found k e m)

  pub length-assign_new :
      (k : Bytes) (v : V) (m : List (Bytes × V))
      → lookup k m ≡ none
      → length (assign k v m) ≡ suc (length m)
  length-assign_new k v [] h = refl
  length-assign_new k v ((j, w) ∷ m) h = ground (arith, length-assign_new k v m)

  pub length-assign_old :
      (k : Bytes) (v old : V) (m : List (Bytes × V))
      → lookup k m ≡ some old
      → length (assign k v m) ≡ length m
  length-assign_old k v old [] h = absurd (cc)
  length-assign_old k v old ((j, w) ∷ m) h = ground (arith, length-assign_old k v old m)
