-- ===== src/Waf/Aho.antt =====
-- `finalizeIndexes` of plugins/waf/waf.go and plugins/waf/aho.go: all patterns of a parameter in one
-- automaton, equal patterns once, with the conditions of each. The maps from patterns to numbers and
-- from numbers to conditions are one list.
pub mod Laws
use peretum.Prelude.Bytes.{Bytes, equal}
use peretum.Prelude.Text.{is_empty}
use peretum.Prelude.{
  ℕ, Bool, true, false, ◌||◌, Option, none, some, List, [], ◌∷◌, ◌++◌, map, ◌==◌, get_elem?,
  if◌then◌else◌,
}
use peretum.Waf.{Env}

abbrev pub Groups : Type 0
Groups = List (Bytes × List ℕ)

unfoldable pub add_pattern : Bytes → ℕ → Groups → Groups
add_pattern p cond [] = (p, cond ∷ []) ∷ []
add_pattern p cond ((q, conds) ∷ groups) =
    if equal q p then (q, conds ++ cond ∷ []) ∷ groups else (q, conds) ∷ add_pattern p cond groups

unfoldable pub group_patterns : List (Bytes × ℕ) → Groups → Groups
unfolding add_pattern
group_patterns [] groups = groups
group_patterns ((p, cond) ∷ patterns) groups = group_patterns patterns (add_pattern p cond groups)

-- `buildAhoMatcher`: without the empty patterns. No pattern at all is a nil matcher.
unfoldable pub build_aho_matcher : Groups → Groups
build_aho_matcher [] = []
build_aho_matcher ((p, conds) ∷ groups) =
    if is_empty p then build_aho_matcher groups else (p, conds) ∷ build_aho_matcher groups

abbrev pub memb : ℕ → List ℕ → Bool
memb j [] = false
memb j (i ∷ is) = i == j || memb j is

unfoldable pub conds_at : Groups → ℕ → List ℕ
conds_at groups i = elim (get_elem? groups i) [ none ↦ [] | some g ↦ g.1 ]

-- The loop over the matches, with the numbers seen so far.
unfoldable pub collect : Groups → List ℕ → List ℕ → List ℕ
unfolding conds_at
collect groups seen [] = []
collect groups seen (i ∷ found) =
    let rest = collect groups seen found in
    let more = conds_at groups i ++ collect groups (i ∷ seen) found in
    if memb i seen then rest else more

abbrev pub patterns_of : Groups → List Bytes
patterns_of groups = map (λ g. g.0) groups

-- The method `match`.
unfoldable pub match_text : Env → Groups → Bytes → List ℕ
unfolding collect
match_text env [] text = []
match_text env (g ∷ groups) text =
    if is_empty text
    then []
    else collect (g ∷ groups) [] (env.find_all_overlapping (patterns_of (g ∷ groups)) text)
