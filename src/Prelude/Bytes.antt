-- ===== src/Prelude/Bytes.antt =====
-- Go strings: sequences of bytes, with their equality and the prefix test of `strings`.
use Prim.Native.Char.{code}
use Prim.Native.String.{String}
use peretum.Prelude.{
  ℕ, ◌≡◌, refl, Bool, true, false, ◌&&◌, List, [], ◌∷◌, ◌++◌, ◌==◌, arith, ◌↔◌, ◌⊎◌, inl, inr, ap,
  Bool-cases, Option, none, some, drop, length, if◌then◌else◌,
}

abbrev pub Bytes : Type 0
Bytes = List ℕ

-- The code points of a literal: its bytes, if it is ASCII.
abbrev pub codes : String → Bytes
codes String.[] = []
codes (String.◌∷◌ c s) = code c ∷ codes s

unfoldable pub equal : Bytes → Bytes → Bool
equal [] [] = true
equal (x ∷ xs) (y ∷ ys) = x == y && equal xs ys
equal _ _ = false

pub equal_refl : (s : Bytes) → equal s s ≡ true
unfolding equal
equal_refl [] = refl
equal_refl (x ∷ xs) = ground (arith, equal_refl xs)

eq_of_equal : (s t : Bytes) → equal s t ≡ true → s ≡ t
unfolding equal
eq_of_equal [] [] h = refl
eq_of_equal [] (y ∷ ys) h = cc
eq_of_equal (x ∷ xs) [] h = cc
eq_of_equal (x ∷ xs) (y ∷ ys) h = ground (arith, eq_of_equal xs ys)

pub equal_iff : (s t : Bytes) → (equal s t ≡ true) ↔ (s ≡ t)
equal_iff s t = (eq_of_equal s t, λ e. rw e (equal_refl t))

-- `strings.HasPrefix(s, prefix)`
unfoldable pub has_prefix : Bytes → Bytes → Bool
has_prefix s [] = true
has_prefix [] (p ∷ ps) = false
has_prefix (c ∷ s) (p ∷ ps) = c == p && has_prefix s ps

pub has_prefix_iff : (s p : Bytes) → (has_prefix s p ≡ true) ↔ ((rest : Bytes) × (s ≡ p ++ rest))
unfolding has_prefix
has_prefix_iff s p = (to s p, λ (rest, e). rw e (from p rest))
  where
    to : (s p : Bytes) → has_prefix s p ≡ true → (rest : Bytes) × (s ≡ p ++ rest)
    to s [] h = (s, refl)
    to [] (p ∷ ps) h = absurd (cc)
    to (c ∷ s) (p ∷ ps) h = let (rest, e) = to s ps (ground arith) in (rest, ground arith)

    from : (p rest : Bytes) → has_prefix (p ++ rest) p ≡ true
    from [] rest = refl
    from (p ∷ ps) rest = ground (arith, from ps rest)

abbrev prepend : ℕ → Option (Bytes × Bytes) → Option (Bytes × Bytes)
prepend c none = none
prepend c (some (before, after)) = some (c ∷ before, after)

-- `strings.Cut(s, sep)` at the first place where `sep` stands.
unfoldable pub cut : Bytes → Bytes → Option (Bytes × Bytes)
unfolding has_prefix
cut [] sep = if has_prefix [] sep then some ([], []) else none
cut (c ∷ s) sep =
    let rest = prepend c (cut s sep) in
    if has_prefix (c ∷ s) sep then some ([], drop (length sep) (c ∷ s)) else rest

prefix_drop : (s p : Bytes) → has_prefix s p ≡ true → s ≡ p ++ drop (length p) s
unfolding has_prefix
prefix_drop s [] h = refl
prefix_drop [] (p ∷ ps) h = absurd (cc)
prefix_drop (c ∷ s) (p ∷ ps) h = ground (arith, prefix_drop s ps (ground arith))

-- The parts that `strings.Cut` finds, with the separator between them, are the text.
pub cut-cases :
    (s sep : Bytes)
    → (cut s sep ≡ none)
      ⊎ ((before : Bytes) × (after : Bytes) × (cut s sep ≡ some (before, after))
          × (s ≡ before ++ (sep ++ after)))
unfolding cut has_prefix
cut-cases [] [] = inr ([], [], refl, refl)
cut-cases [] (p ∷ ps) = inl refl
cut-cases (c ∷ s) sep = elim (Bool-cases (has_prefix (c ∷ s) sep)) [
  | inl e ↦ inr ([], drop (length sep) (c ∷ s), rw e refl, prefix_drop (c ∷ s) sep e)
  | inr e ↦ elim (cut-cases s sep) [
    | inl n ↦ inl (rw (e, n) refl)
    | inr (before, after, h, parts) ↦ inr (c ∷ before, after, rw (e, h) refl, ap (◌∷◌ c) parts)
  ]
]
