-- ===== src/Prelude/Text.antt =====
-- Functions of `strings` on ASCII text.
use peretum.Prelude.Bytes.{Bytes, equal, has_prefix}
use peretum.Prelude.{
  List, ℕ, ◌+◌, ◌≡◌, ◌∙◌, refl, ap, Bool, true, false, ◌&&◌, ◌||◌, [], ◌∷◌, ◌++◌, map, ◌==◌, leb,
  arith, if◌then◌else◌, All,
}

abbrev pub is_space : ℕ → Bool
is_space c = c == 32 || (leb 9 c && leb c 13)

abbrev pub lower : ℕ → ℕ
lower c = if leb 65 c && leb c 90 then c + 32 else c

-- `strings.ToLower`
abbrev pub to_lower : Bytes → Bytes
to_lower s = map lower s

unfoldable pub trim_left : Bytes → Bytes
trim_left [] = []
trim_left (c ∷ s) = let rest = trim_left s in if is_space c then rest else c ∷ s

abbrev pub is_empty : Bytes → Bool
is_empty [] = true
is_empty (c ∷ s) = false

unfoldable pub trim_right : Bytes → Bytes
trim_right [] = []
trim_right (c ∷ s) = let rest = trim_right s in if is_space c && is_empty rest then [] else c ∷ rest

-- `strings.TrimSpace`
unfoldable pub trim_space : Bytes → Bytes
unfolding trim_left trim_right
trim_space s = trim_right (trim_left s)

-- `strings.TrimSuffix`
unfoldable pub trim_suffix : Bytes → Bytes → Bytes
trim_suffix [] suffix = []
trim_suffix (c ∷ s) suffix =
    let rest = trim_suffix s suffix in if equal (c ∷ s) suffix then [] else c ∷ rest

-- `strings.Count` of one character.
unfoldable pub count : ℕ → Bytes → ℕ
count c [] = 0
count c (d ∷ s) = (if d == c then 1 else 0) + count c s

-- What stands before the first place of a character; everything, if it stands nowhere.
unfoldable pub before : ℕ → Bytes → Bytes
before c [] = []
before c (d ∷ s) = if d == c then [] else d ∷ before c s

-- Text without spaces and capitals.
abbrev pub ArePlain : Bytes → Type 0
ArePlain s = All (λ c. (is_space c ≡ false) × (lower c ≡ c)) s

pub to_lower_plain : (s : Bytes) → ArePlain s → to_lower s ≡ s
to_lower_plain [] p = refl
to_lower_plain (c ∷ s) p = rw (p.0.1, to_lower_plain s p.1)

trim_right_plain : (s : Bytes) → ArePlain s → trim_right s ≡ s
unfolding trim_right
trim_right_plain [] p = refl
trim_right_plain (c ∷ s) p = ground (arith, p.0.0, trim_right_plain s p.1)

trim_left_plain : (s : Bytes) → ArePlain s → trim_left s ≡ s
unfolding trim_left
trim_left_plain [] p = refl
trim_left_plain (c ∷ s) p = ground (arith, p.0.0)

pub trim_space_plain : (s : Bytes) → ArePlain s → trim_space s ≡ s
unfolding trim_space
trim_space_plain s p = ap trim_right (trim_left_plain s p) ∙ trim_right_plain s p

pub count-append : (c : ℕ) (s t : Bytes) → count c (s ++ t) ≡ count c s + count c t
unfolding count
count-append c [] t = omega arith
count-append c (d ∷ s) t = omega (arith, count-append c s t)

pub before-append : (c : ℕ) (s t : Bytes) → count c s ≡ 0 → before c (s ++ c ∷ t) ≡ s
unfolding count before
before-append c [] t h = ground arith
before-append c (d ∷ s) t h = ground (arith, before-append c s t)

-- `strings.HasSuffix`
unfoldable pub has_suffix : Bytes → Bytes → Bool
has_suffix [] suffix = equal [] suffix
has_suffix (c ∷ s) suffix = equal (c ∷ s) suffix || has_suffix s suffix

-- `strings.Contains`
unfoldable pub contains : Bytes → Bytes → Bool
unfolding has_prefix
contains [] part = has_prefix [] part
contains (c ∷ s) part = has_prefix (c ∷ s) part || contains s part

abbrev pub cons_first : ℕ → List Bytes → List Bytes
cons_first c [] = (c ∷ []) ∷ []
cons_first c (s ∷ ss) = (c ∷ s) ∷ ss

-- `strings.Split` at one character.
unfoldable pub split_on : ℕ → Bytes → List Bytes
split_on sep [] = [] ∷ []
split_on sep (c ∷ s) =
    let rest = split_on sep s in if c == sep then [] ∷ rest else cons_first c rest
