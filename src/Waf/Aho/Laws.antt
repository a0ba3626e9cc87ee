-- ===== src/Waf/Aho/Laws.antt =====
-- The automaton with its groups against a search for each pattern by itself.
use peretum.Prelude.Bytes.{Bytes, equal_iff, has_prefix}
use peretum.Prelude.Text.{is_empty, contains}
use peretum.Prelude.{
  ℕ, zero, suc, ◌+◌, ◌≡◌, ◌∙◌, refl, sym, ap, Bool, true, false, ◌&&◌, ◌||◌, not, none, some, List,
  [], ◌∷◌, ◌++◌, ◌==◌, get_elem?, arith, Bool-cases, inl, inr,
}
use peretum.Waf.Aho.{
  Groups, add_pattern, group_patterns, build_aho_matcher, memb, conds_at, collect, patterns_of,
  match_text,
}
use peretum.Waf.{Env}

-- The documentation of `FindAllOverlapping`: it reports the numbers of exactly the patterns that
-- occur in the text.
abbrev pub occurs_at : List Bytes → Bytes → ℕ → Bool
occurs_at patterns text i = elim (get_elem? patterns i) [ none ↦ false | some p ↦ contains text p ]

abbrev pub FindsAll : Env → Type 0
FindsAll env =
    (patterns : List Bytes) (text : Bytes) (i : ℕ)
    → memb i (env.find_all_overlapping patterns text) ≡ occurs_at patterns text i

pub memb-append : (j : ℕ) (xs ys : List ℕ) → memb j (xs ++ ys) ≡ (memb j xs || memb j ys)
memb-append j [] ys = refl
memb-append j (x ∷ xs) ys = ground (arith, memb-append j xs ys)

-- The conditions of the groups whose numbers pass a test.
any_index : (ℕ → Bool) → ℕ → Groups → ℕ → Bool
any_index q n [] j = false
any_index q n ((p, conds) ∷ groups) j = (q n && memb j conds) || any_index q (suc n) groups j

any_index-false : (n : ℕ) (groups : Groups) (j : ℕ) → any_index (λ i. false) n groups j ≡ false
unfolding any_index
any_index-false n [] j = refl
any_index-false n ((p, conds) ∷ groups) j = any_index-false (suc n) groups j

any_index-or :
    (q r : ℕ → Bool) (n : ℕ) (groups : Groups) (j : ℕ)
    → any_index (λ i. q i || r i) n groups j ≡ (any_index q n groups j || any_index r n groups j)
unfolding any_index
any_index-or q r n [] j = refl
any_index-or q r n ((p, conds) ∷ groups) j = ground (arith, any_index-or q r (suc n) groups j)

any_index-cong :
    (q r : ℕ → Bool) (n : ℕ) (groups : Groups) (j : ℕ)
    → ((i : ℕ) → q i ≡ r i)
    → any_index q n groups j ≡ any_index r n groups j
unfolding any_index
any_index-cong q r n [] j h = refl
any_index-cong q r n ((p, conds) ∷ groups) j h =
    ground (arith, h n, any_index-cong q r (suc n) groups j h)

any_index-below :
    (k n : ℕ) (groups : Groups) (j : ℕ) → any_index (λ i. k == i) (suc k + n) groups j ≡ false
unfolding any_index
any_index-below k n [] j = refl
any_index-below k n ((p, conds) ∷ groups) j = ground (arith, any_index-below k (suc n) groups j)

any_index-at :
    (k n : ℕ) (groups : Groups) (j : ℕ)
    → any_index (λ i. k + n == i) n groups j ≡ memb j (conds_at groups k)
unfolding any_index conds_at
any_index-at k n [] j = refl
any_index-at zero n ((p, conds) ∷ groups) j = ground (arith, any_index-below n 0 groups j)
any_index-at (suc k) n ((p, conds) ∷ groups) j = ground (arith, any_index-at k (suc n) groups j)

memb-collect :
    (groups : Groups) (seen found : List ℕ) (j : ℕ)
    → memb j (collect groups seen found)
      ≡ any_index (λ i. memb i found && not (memb i seen)) 0 groups j
unfolding collect
memb-collect groups seen [] j = sym (any_index-false 0 groups j)
memb-collect groups seen (i ∷ found) j = elim (Bool-cases (memb i seen)) [
  | inl old ↦ rw old (
      memb-collect groups seen found j
      ∙ any_index-cong (λ k. memb k found && not (memb k seen))
          (λ k. memb k (i ∷ found) && not (memb k seen)) 0 groups j (λ k. repeat k old))
  | inr new ↦ rw new (
      memb-append j (conds_at groups i) (collect groups (i ∷ seen) found)
      ∙ first (memb-collect groups (i ∷ seen) found j)
      ∙ sym
          (any_index-or (λ k. i + 0 == k) (λ k. memb k found && not (memb k (i ∷ seen))) 0 groups j)
      ∙ any_index-cong (λ k. i + 0 == k || memb k found && not (memb k (i ∷ seen)))
          (λ k. memb k (i ∷ found) && not (memb k seen)) 0 groups j (λ k. fresh k new))
]
  where
    repeat :
        (k : ℕ)
        → memb i seen ≡ true
        → (memb k found && not (memb k seen)) ≡ (memb k (i ∷ found) && not (memb k seen))
    repeat k old = ground (arith)

    fresh :
        (k : ℕ)
        → memb i seen ≡ false
        → (i + 0 == k || memb k found && not (memb k (i ∷ seen)))
          ≡ (memb k (i ∷ found) && not (memb k seen))
    fresh k new = ground (arith)

    first :
        {b : Bool}
        → memb j (collect groups (i ∷ seen) found) ≡ b
        → (memb j (conds_at groups i) || memb j (collect groups (i ∷ seen) found))
          ≡ (any_index (λ k. i + 0 == k) 0 groups j || b)
    first rest = rw (any_index-at i 0 groups j, rest) refl

-- The conditions of the patterns that occur in a text.
any_hit : Bytes → Groups → ℕ → Bool
any_hit text [] j = false
any_hit text ((p, conds) ∷ groups) j =
    (not (is_empty p) && (contains text p && memb j conds)) || any_hit text groups j

abbrev AreFilled : Groups → Type 0
AreFilled [] = Unit {0}
AreFilled ((p, conds) ∷ groups) = (is_empty p ≡ false) × AreFilled groups

any_index-occurs :
    (q : ℕ → Bool) (n : ℕ) (groups : Groups) (text : Bytes) (j : ℕ)
    → AreFilled groups
    → ((i : ℕ) → q (n + i) ≡ occurs_at (patterns_of groups) text i)
    → any_index q n groups j ≡ any_hit text groups j
unfolding any_index any_hit
any_index-occurs q n [] text j f h = refl
any_index-occurs q n ((p, conds) ∷ groups) text j (filled, f) h =
    let here : q n ≡ contains text p = ap q (omega arith) ∙ h 0 in
    ground (arith, any_index-occurs q (suc n) groups text j f (λ i. ap q (omega arith) ∙ h (suc i)))

contains-nothing : (p : Bytes) → is_empty p ≡ false → contains [] p ≡ false
unfolding contains has_prefix
contains-nothing [] h = cc
contains-nothing (c ∷ p) h = refl

any_hit-nothing : (groups : Groups) (j : ℕ) → any_hit [] groups j ≡ false
unfolding any_hit
any_hit-nothing [] j = refl
any_hit-nothing ((p, conds) ∷ groups) j =
    ground (arith, contains-nothing p, any_hit-nothing groups j)

filled-build_aho_matcher :
    (groups : Groups) (text : Bytes) (j : ℕ)
    → AreFilled (build_aho_matcher groups)
      × (any_hit text (build_aho_matcher groups) j ≡ any_hit text groups j)
unfolding build_aho_matcher any_hit
filled-build_aho_matcher [] text j = (tt, refl)
filled-build_aho_matcher ((p, conds) ∷ groups) text j =
    let (f, e) = filled-build_aho_matcher groups text j in
    elim (Bool-cases (is_empty p)) [
      | inl empty ↦ rw empty (f, e)
      | inr filled ↦ rw filled ((filled, f), ground arith)
    ]

match_text-filled :
    (env : Env) (groups : Groups) (text : Bytes) (j : ℕ)
    → FindsAll env
    → AreFilled groups
    → memb j (match_text env groups text) ≡ any_hit text groups j
unfolding match_text any_hit
match_text-filled env [] text j finds f = refl
match_text-filled env (g ∷ groups) [] j finds f = sym (any_hit-nothing (g ∷ groups) j)
match_text-filled env (g ∷ groups) (c ∷ text) j finds f =
    let found = env.find_all_overlapping (patterns_of (g ∷ groups)) (c ∷ text) in
    memb-collect (g ∷ groups) [] found j
    ∙ any_index-occurs (λ i. memb i found && not (memb i [])) 0 (g ∷ groups) (c ∷ text) j f
        (λ i. ground (
          arith,
          finds (patterns_of (g ∷ groups)) (c ∷ text) (0 + i),
          finds (patterns_of (g ∷ groups)) (c ∷ text) i,
        ))

any_hit-add_pattern :
    (text p : Bytes) (cond : ℕ) (groups : Groups) (j : ℕ)
    → any_hit text (add_pattern p cond groups) j
      ≡ (any_hit text groups j || (not (is_empty p) && (contains text p && cond == j)))
unfolding any_hit add_pattern
any_hit-add_pattern text p cond [] j = ground arith
any_hit-add_pattern text p cond ((q, conds) ∷ groups) j = ground (
  arith,
  equal_iff q p,
  memb-append j conds (cond ∷ []),
  any_hit-add_pattern text p cond groups j,
)

-- A pattern that is not empty and occurs, in any letter case.
abbrev pub finds_pattern : Bytes → Bytes → Bool
finds_pattern text p = not (is_empty p) && contains text p

abbrev pub any_pattern : Bytes → List (Bytes × ℕ) → ℕ → Bool
any_pattern text [] j = false
any_pattern text ((p, cond) ∷ patterns) j =
    (finds_pattern text p && cond == j) || any_pattern text patterns j

any_hit-group_patterns :
    (text : Bytes) (patterns : List (Bytes × ℕ)) (groups : Groups) (j : ℕ)
    → any_hit text (group_patterns patterns groups) j
      ≡ (any_hit text groups j || any_pattern text patterns j)
unfolding group_patterns
any_hit-group_patterns text [] groups j = ground arith
any_hit-group_patterns text ((p, cond) ∷ patterns) groups j = ground (
  arith,
  any_hit-group_patterns text patterns (add_pattern p cond groups) j,
  any_hit-add_pattern text p cond groups j,
)

-- The grouping, the automaton and the collection of its matches together find the conditions whose
-- patterns are not empty and occur in the text.
pub match_text_lem :
    (env : Env) (patterns : List (Bytes × ℕ)) (text : Bytes) (j : ℕ)
    → FindsAll env
    → memb j (match_text env (build_aho_matcher (group_patterns patterns [])) text)
      ≡ any_pattern text patterns j
unfolding any_hit
match_text_lem env patterns text j finds =
    let groups = group_patterns patterns [] in
    let (f, e) = filled-build_aho_matcher groups text j in
    match_text-filled env (build_aho_matcher groups) text j finds f
    ∙ e
    ∙ any_hit-group_patterns text patterns [] j
