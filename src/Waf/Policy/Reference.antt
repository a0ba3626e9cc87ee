-- ===== src/Waf/Policy/Reference.antt =====
-- The rules without indexes: each condition is evaluated by itself.
use peretum.Prelude.Bytes.{Bytes, equal}
use peretum.Prelude.Text.{is_empty}
use peretum.Prelude.{
  ◌≡◌, Bool, true, false, ◌&&◌, ◌||◌, not, Option, List, [], ◌∷◌, ◌++◌, if◌then◌else◌, All,
}
use peretum.Waf.Index.Laws.{op_holds, ip_holds}
use peretum.Waf.Policy.{
  Rule, is_ip_condition, compile_rules, empty_builder, index_of, Getter, Decision, pass, decide,
}
use peretum.Waf.{Env, Condition, Operator, op_equals}

unfoldable pub holds : Env → Condition → Option Bytes → Bool
holds env c v =
    if is_ip_condition c
    then ip_holds env c.operator c.value v
    else op_holds env c.operator c.value v

abbrev pub holds_in : Env → Getter → Condition → Bool
holds_in env get c = holds env c (get c.param c.param_name)

-- The conditions with a parameter.
abbrev pub kept : List Condition → List Condition
kept [] = []
kept (c ∷ conds) = if is_empty c.param then kept conds else c ∷ kept conds

abbrev pub all_hold : Env → Getter → List Condition → Bool
all_hold env get [] = true
all_hold env get (c ∷ conds) = holds_in env get c && all_hold env get conds

-- A group without conditions never fires.
abbrev pub group_fires : Env → Getter → List Condition → Bool
group_fires env get [] = false
group_fires env get (c ∷ conds) = all_hold env get (c ∷ conds)

unfoldable pub fires : Env → Getter → List (List Condition) → Bool
fires env get [] = false
fires env get (g ∷ groups) = group_fires env get (kept g) || fires env get groups

unfoldable pub reference : Env → Getter → List Rule → Decision
reference env get [] = pass
reference env get (rule ∷ rules) =
    let rest = reference env get rules in decide rule (fires env get rule.conditions) rest

abbrev pub group_conditions : List (List Condition) → List Condition
group_conditions [] = []
group_conditions (g ∷ groups) = kept g ++ group_conditions groups

-- All conditions, in the order of their numbers.
abbrev pub all_conditions : List Rule → List Condition
all_conditions [] = []
all_conditions (rule ∷ rules) = group_conditions rule.conditions ++ all_conditions rules

abbrev pub is_op_equals : Operator → Bool
is_op_equals op_equals = true
is_op_equals _ = false

abbrev pub tests_equality : Condition → Bool
tests_equality c = not (is_ip_condition c) && is_op_equals c.operator

-- Two tests of one parameter for one value.
abbrev pub clash : Condition → Condition → Bool
clash c d =
    tests_equality c && (tests_equality d && (equal c.param d.param && equal c.value d.value))

abbrev pub NoClash : List Condition → Type 0
NoClash [] = Unit {0}
NoClash (c ∷ conds) = All (λ d. clash c d ≡ false) conds × NoClash conds

-- Each condition reads the value that its parameter's index reads, under the last name given to it.
abbrev pub NamesAgree : Env → Getter → List Rule → Type 0
NamesAgree env get rules =
    All
      (λ c.
        get c.param (index_of (compile_rules env rules empty_builder).0 c.param).name
        ≡ get c.param c.param_name)
      (all_conditions rules)
