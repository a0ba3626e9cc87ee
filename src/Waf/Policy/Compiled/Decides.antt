-- ===== src/Waf/Policy/Compiled/Decides.antt =====
-- The compiled rules decide as the rules do.
use peretum.Prelude.Bytes.{Bytes, equal_iff, equal_refl}
use peretum.Prelude.Dict.{lookup, HasDistinctKeys, assign-HasDistinctKeys}
use peretum.Prelude.{
  ℕ, zero, suc, ◌+◌, ◌≤◌, ◌<◌, ◌≡◌, ◌∙◌, refl, sym, ap, Bool, false, Option, some, List, [], ◌∷◌,
  get_or, length, length-replicate, replicate, arith, All,
}
use peretum.Waf.Aho.Laws.{FindsAll}
use peretum.Waf.Index.{ParamIndex}
use peretum.Waf.Policy.Compiled.Refines.{
  Agrees, Agrees-append, add_conditions-append, cond_count-add_conditions, compile_groups_lem,
  rule_matches-number_groups, decide_all-cons_rule,
}
use peretum.Waf.Policy.Compiled.{
  IsFresh, any_marks, Reads, apply_all_lem, add_conditions, holds_at, any_marks-add_conditions,
}
use peretum.Waf.Policy.Reference.{
  holds, fires, reference, group_conditions, all_conditions, NoClash, NamesAgree,
}
use peretum.Waf.Policy.{
  Rule, Builder, empty_builder, index_of, add_condition, compile_groups, cons_rule, compile_rules,
  build_rule_set, Getter, apply_all, rule_matches, decide, decide_all, evaluate,
}
use peretum.Waf.{Env, Condition}

compile_rules_builder :
    (env : Env) (rules : List Rule) (b : Builder)
    → (compile_rules env rules b).0 ≡ add_conditions env (all_conditions rules) b
unfolding compile_rules add_conditions
compile_rules_builder env [] b = refl
compile_rules_builder env (rule ∷ rules) b =
    compile_rules_builder env rules (compile_groups env rule.conditions b).0
    ∙ ap (add_conditions env (all_conditions rules)) (compile_groups_lem env rule.conditions b).0
    ∙ sym (add_conditions-append env (group_conditions rule.conditions) (all_conditions rules) b)

decide_all-compile_rules :
    (env : Env) (get : Getter) (hits : List Bool) (rules : List Rule) (b : Builder)
    → Agrees env get hits b.cond_count (all_conditions rules)
    → decide_all hits (compile_rules env rules b).1 ≡ reference env get rules
unfolding compile_rules reference decide_all
decide_all-compile_rules env get hits [] b a = refl
decide_all-compile_rules env get hits (rule ∷ rules) b a =
    let conds = group_conditions rule.conditions in
    let (front, back) = Agrees-append env get hits b.cond_count conds (all_conditions rules) a in
    let b' = (compile_groups env rule.conditions b).0 in
    let (e, f) = compile_groups_lem env rule.conditions b in
    let count : b'.cond_count ≡ b.cond_count + length conds =
      ap (λ (x : Builder). x.cond_count) e ∙ cond_count-add_conditions env conds b in
    let fired : rule_matches hits (compile_groups env rule.conditions b).1
        ≡ fires env get rule.conditions =
      ap (rule_matches hits) f
      ∙ rule_matches-number_groups env get hits b.cond_count rule.conditions front in
    let later : decide_all hits (compile_rules env rules b').1 ≡ reference env get rules =
      decide_all-compile_rules env get hits rules b' (rw (← count) at back) in
    decide_all-cons_rule hits rule (compile_groups env rule.conditions b).1
      (compile_rules env rules b').1
    ∙ ap (λ (x : Bool). decide rule x (decide_all hits (compile_rules env rules b').1)) fired
    ∙ ap (decide rule (fires env get rule.conditions)) later

holds_at-below :
    (env : Env) (vals : Bytes → Option Bytes) (n : ℕ) (conds : List Condition) (j : ℕ)
    → j < n
    → holds_at env vals n conds j ≡ false
unfolding holds_at
holds_at-below env vals n [] j h = refl
holds_at-below env vals n (c ∷ conds) j h = ground (arith, holds_at-below env vals (suc n) conds j)

-- Hits that are those of the conditions by their numbers.
Agrees-holds_at :
    (env : Env) (get : Getter) (vals : Bytes → Option Bytes) (hits : List Bool) (n : ℕ)
    (conds : List Condition)
    → All (λ c. vals c.param ≡ get c.param c.param_name) conds
    → ((j : ℕ) → n ≤ j → j < n + length conds → get_or hits j false ≡ holds_at env vals n conds j)
    → Agrees env get hits n conds
unfolding holds_at
Agrees-holds_at env get vals hits n [] same h = tt
Agrees-holds_at env get vals hits n (c ∷ conds) (v, same) h = (
  h n (omega arith) (omega arith)
      ∙ ground (arith, holds_at-below env vals (suc n) conds n)
      ∙ ap (holds env c) v,
  Agrees-holds_at env get vals hits (suc n) conds same
      (λ j above below. h j (omega arith) (omega arith) ∙ ground arith),
)

get_or-replicate : (n j : ℕ) → get_or (replicate n false) j false ≡ false
get_or-replicate zero j = refl
get_or-replicate (suc n) zero = refl
get_or-replicate (suc n) (suc j) = get_or-replicate n j

HasDistinctKeys-add_conditions :
    (env : Env) (conds : List Condition) (b : Builder)
    → HasDistinctKeys b.params
    → HasDistinctKeys (add_conditions env conds b).params
unfolding add_conditions add_condition
HasDistinctKeys-add_conditions env [] b d = d
HasDistinctKeys-add_conditions env (c ∷ conds) b d =
    HasDistinctKeys-add_conditions env conds (add_condition env c b)
      (assign-HasDistinctKeys c.param _ b.params d)

-- The index of each parameter is found under its name.
Reads-index_of :
    (get : Getter) (b : Builder)
    → HasDistinctKeys b.params
    → Reads get (λ p. get p (index_of b p).name) b.params
Reads-index_of get b d = go b.params (λ p idx e. e) d
  where
    go :
        (params : List (Bytes × ParamIndex))
        → ((p : Bytes) (idx : ParamIndex)
            → lookup p params ≡ some idx
            → lookup p b.params ≡ some idx)
        → HasDistinctKeys params
        → Reads get (λ p. get p (index_of b p).name) params
    go [] found d = tt
    go ((p, idx) ∷ params) found (new, d) = (
      let here : lookup p b.params ≡ some idx = found p idx (ground (arith, equal_refl p)) in
          sym
            (ap (λ (o : Option ParamIndex). get p (peretum.Waf.Policy.or_empty_index o).name) here),
      go params (λ q other e. found q other (ground (arith, equal_iff p q))) d,
    )

All-IsFresh : (conds : List Condition) → All (IsFresh empty_builder) conds
All-IsFresh [] = tt
All-IsFresh (c ∷ conds) = (λ t. refl, All-IsFresh conds)

hits_lem :
    (env : Env) (get : Getter) (vals : Bytes → Option Bytes) (conds : List Condition)
    → FindsAll env
    → NoClash conds
    → Reads get vals (add_conditions env conds empty_builder).params
    → (j : ℕ) → j < length conds
    → get_or
        (apply_all env get
          (add_conditions env conds empty_builder).params
          (replicate (length conds) false))
        j
        false
      ≡ holds_at env vals 0 conds j
unfolding any_marks
hits_lem env get vals conds finds apart r j h =
    apply_all_lem env get vals (add_conditions env conds empty_builder).params
      (replicate (length conds) false) j (omega (arith, length-replicate (length conds) false)) r
    ∙ ground (
      arith,
      get_or-replicate (length conds) j,
      any_marks-add_conditions env vals conds empty_builder j finds apart (All-IsFresh conds),
    )

evaluate_step :
    (env : Env) (get : Getter) (rules : List Rule) (b : Builder)
    → (compile_rules env rules empty_builder).0 ≡ b
    → evaluate env get (build_rule_set env rules)
      ≡ decide_all
          (apply_all env get b.params (replicate b.cond_count false))
          (compile_rules env rules empty_builder).1
unfolding evaluate build_rule_set
evaluate_step env get rules b e =
    ap
      (λ (x : Builder).
        decide_all (apply_all env get x.params (replicate x.cond_count false))
          (compile_rules env rules empty_builder).1)
      e

-- The compiled indexes decide as the rules with each condition evaluated by itself: for an
-- automaton that finds exactly the patterns that occur, where no two conditions test one parameter
-- for equality with the same value, and the name that a parameter's index keeps gives each of its
-- conditions the value of its own name.
pub evaluate-reference :
    (env : Env) (get : Getter) (rules : List Rule)
    → FindsAll env
    → NoClash (all_conditions rules)
    → NamesAgree env get rules
    → evaluate env get (build_rule_set env rules) ≡ reference env get rules
evaluate-reference env get rules finds apart names =
    let conds = all_conditions rules in
    let b = add_conditions env conds empty_builder in
    let built = compile_rules_builder env rules empty_builder in
    let count : b.cond_count ≡ length conds =
      omega (arith, cond_count-add_conditions env conds empty_builder) in
    let vals = λ (p : Bytes). get p (index_of b p).name in
    let same : All (λ c. vals c.param ≡ get c.param c.param_name) conds = rw built at names in
    let hits = apply_all env get b.params (replicate (length conds) false) in
    let agree : Agrees env get hits 0 conds =
      Agrees-holds_at env get vals hits 0 conds same (λ j above below.
        hits_lem env get vals conds finds apart
          (Reads-index_of get b (HasDistinctKeys-add_conditions env conds empty_builder tt)) j
          (omega arith)) in
    evaluate_step env get rules b built
    ∙ ap
        (λ (n : ℕ).
          decide_all (apply_all env get b.params (replicate n false))
            (compile_rules env rules empty_builder).1)
        count
    ∙ decide_all-compile_rules env get hits rules empty_builder agree
