-- ===== src/Waf/Policy/Compiled/Refines.antt =====
-- The groups of a rule, compiled into numbers, fire if the groups do.
use peretum.Prelude.Text.{is_empty}
use peretum.Prelude.{
  ℕ, suc, ◌+◌, ◌≡◌, ◌∙◌, refl, sym, ap, Bool, false, ◌||◌, List, [], ◌∷◌, ◌++◌, get_or, length,
  arith, Bool-cases, inl, inr,
}
use peretum.Waf.Policy.Compiled.{add_conditions}
use peretum.Waf.Policy.Reference.{holds_in, kept, all_hold, group_fires, fires, group_conditions}
use peretum.Waf.Policy.{
  Rule, CompiledRule, Builder, add_condition, compile_group, cons_filled, compile_groups, cons_rule,
  Getter, all_hit, rule_matches, decide, decide_all,
}
use peretum.Waf.{Env, Condition}

pub add_conditions-append :
    (env : Env) (xs ys : List Condition) (b : Builder)
    → add_conditions env (xs ++ ys) b ≡ add_conditions env ys (add_conditions env xs b)
unfolding add_conditions
add_conditions-append env [] ys b = refl
add_conditions-append env (x ∷ xs) ys b = add_conditions-append env xs ys (add_condition env x b)

-- The numbers of a list of conditions, from the first one on.
numbers : ℕ → List Condition → List ℕ
numbers n [] = []
numbers n (c ∷ conds) = n ∷ numbers (suc n) conds

next_number :
    (env : Env) (c : Condition) (b : Builder)
    → (add_condition env c b).cond_count ≡ suc b.cond_count
unfolding add_condition
next_number env c b = omega arith

pub cond_count-add_conditions :
    (env : Env) (conds : List Condition) (b : Builder)
    → (add_conditions env conds b).cond_count ≡ b.cond_count + length conds
unfolding add_conditions
cond_count-add_conditions env [] b = omega arith
cond_count-add_conditions env (c ∷ conds) b =
    omega (arith, cond_count-add_conditions env conds (add_condition env c b), next_number env c b)

compile_group_lem :
    (env : Env) (conds : List Condition) (b : Builder)
    → ((compile_group env conds b).0 ≡ add_conditions env (kept conds) b)
      × ((compile_group env conds b).1 ≡ numbers b.cond_count (kept conds))
unfolding compile_group add_conditions numbers
compile_group_lem env [] b = (refl, refl)
compile_group_lem env (c ∷ conds) b = elim (Bool-cases (is_empty c.param)) [
  | inl skipped ↦ rw skipped (compile_group_lem env conds b)
  | inr taken ↦
      let (e, f) = compile_group_lem env conds (add_condition env c b) in
      rw taken
        (e, ap (◌∷◌ b.cond_count) (f ∙ ap (λ n. numbers n (kept conds)) (next_number env c b)))
]

pub number_groups : ℕ → List (List Condition) → List (List ℕ)
number_groups n [] = []
number_groups n (g ∷ groups) =
    cons_filled (numbers n (kept g)) (number_groups (n + length (kept g)) groups)

pub compile_groups_lem :
    (env : Env) (groups : List (List Condition)) (b : Builder)
    → ((compile_groups env groups b).0 ≡ add_conditions env (group_conditions groups) b)
      × ((compile_groups env groups b).1 ≡ number_groups b.cond_count groups)
unfolding compile_groups number_groups add_conditions
compile_groups_lem env [] b = (refl, refl)
compile_groups_lem env (g ∷ groups) b =
    let b' = (compile_group env g b).0 in
    let (e, f) = compile_group_lem env g b in
    let (e', f') = compile_groups_lem env groups b' in
    let count : b'.cond_count ≡ b.cond_count + length (kept g) =
      ap (λ (x : Builder). x.cond_count) e ∙ cond_count-add_conditions env (kept g) b in
    (
      e'
          ∙ ap (add_conditions env (group_conditions groups)) e
          ∙ sym (add_conditions-append env (kept g) (group_conditions groups) b),
      ap (λ ids. cons_filled ids (compile_groups env groups b').1) f
          ∙ ap (cons_filled (numbers b.cond_count (kept g)))
              (f' ∙ ap (λ n. number_groups n groups) count),
    )

-- From a number on, the hits are those of the conditions that hold.
abbrev pub Agrees : Env → Getter → List Bool → ℕ → List Condition → Type 0
Agrees env get hits n [] = Unit {0}
Agrees env get hits n (c ∷ conds) =
    (get_or hits n false ≡ holds_in env get c) × Agrees env get hits (suc n) conds

pub Agrees-append :
    (env : Env) (get : Getter) (hits : List Bool) (n : ℕ) (xs ys : List Condition)
    → Agrees env get hits n (xs ++ ys)
    → Agrees env get hits n xs × Agrees env get hits (n + length xs) ys
Agrees-append env get hits n [] ys a = (tt, rw (← n_zero n) at a)
  where
    n_zero : (n : ℕ) → n + 0 ≡ n
    n_zero n = omega arith
Agrees-append env get hits n (x ∷ xs) ys (here, a) =
    let (front, back) = Agrees-append env get hits (suc n) xs ys a in
    let e : suc n + length xs ≡ n + suc (length xs) = omega arith in ((here, front), rw e at back)

all_hit-numbers :
    (env : Env) (get : Getter) (hits : List Bool) (n : ℕ) (conds : List Condition)
    → Agrees env get hits n conds
    → all_hit hits (numbers n conds) ≡ all_hold env get conds
unfolding numbers
all_hit-numbers env get hits n [] a = refl
all_hit-numbers env get hits n (c ∷ conds) (here, a) =
    rw (here, all_hit-numbers env get hits (suc n) conds a) refl

rule_matches-cons_filled :
    (env : Env) (get : Getter) (hits : List Bool) (n : ℕ) (conds : List Condition)
    (groups : List (List ℕ))
    → Agrees env get hits n conds
    → rule_matches hits (cons_filled (numbers n conds) groups)
      ≡ (group_fires env get conds || rule_matches hits groups)
unfolding rule_matches numbers
rule_matches-cons_filled env get hits n [] groups a = refl
rule_matches-cons_filled env get hits n (c ∷ conds) groups (here, a) =
    rw (here, all_hit-numbers env get hits (suc n) conds a) refl

pub rule_matches-number_groups :
    (env : Env) (get : Getter) (hits : List Bool) (n : ℕ) (groups : List (List Condition))
    → Agrees env get hits n (group_conditions groups)
    → rule_matches hits (number_groups n groups) ≡ fires env get groups
unfolding number_groups fires rule_matches
rule_matches-number_groups env get hits n [] a = refl
rule_matches-number_groups env get hits n (g ∷ groups) a =
    let (front, back) = Agrees-append env get hits n (kept g) (group_conditions groups) a in
    rule_matches-cons_filled env get hits n (kept g) (number_groups (n + length (kept g)) groups)
      front
    ∙ ap (λ b. group_fires env get (kept g) || b)
        (rule_matches-number_groups env get hits (n + length (kept g)) groups back)

pub decide_all-cons_rule :
    (hits : List Bool) (rule : Rule) (groups : List (List ℕ)) (rules : List CompiledRule)
    → decide_all hits (cons_rule rule groups rules)
      ≡ decide rule (rule_matches hits groups) (decide_all hits rules)
unfolding decide_all rule_matches
decide_all-cons_rule hits rule [] rules = ground arith
decide_all-cons_rule hits rule (g ∷ groups) rules = refl
