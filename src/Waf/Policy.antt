-- ===== src/Waf/Policy.antt =====
-- `buildRuleSet` and `evaluate` of plugins/waf/waf.go. The configuration is read already: a missing
-- or mistyped entry is skipped before, as the source skips it.
pub mod Reference
pub mod Compiled
use peretum.Prelude.Bytes.{Bytes, codes, equal}
use peretum.Prelude.Dict.{lookup, assign}
use peretum.Prelude.Text.{to_lower, is_empty}
use peretum.Prelude.{
  ℕ, ◌+◌, Bool, true, false, ◌&&◌, ◌||◌, not, Option, none, some, List, [], ◌∷◌, ◌++◌, map, ◌==◌,
  replicate, get_or, if◌then◌else◌,
}
use peretum.Waf.Index.{
  ParamIndex, empty_index, is_ip_operator, add_ip_cond, compile_condition, apply_index,
}
use peretum.Waf.{Env, Condition}

-- `other` is an action that no case of `evaluate` names.
pub data Action : Type 0 where
  deny allow log rate_limit other : Action

abbrev underscored : ℕ → ℕ
underscored c = if c == 45 then 95 else c

-- The type of a rule's action, `none` without one. 45 is "-", 95 is "_".
unfoldable pub action_of : Option Bytes → Action
action_of none = deny
action_of (some word) =
    let action = to_lower (map underscored word) in
    if is_empty word
    then deny
    else if equal action (codes "deny")
    then deny
    else if equal action (codes "allow")
    then allow
    else if equal action (codes "log")
    then log
    else if equal action (codes "rate_limit")
    then rate_limit
    else if equal action (codes "ratelimit")
    then rate_limit
    else other

-- Rates are float64 values, named by their bits.
pub record Rule : Type 0 where
  pub id : Bytes
  pub enabled : Bool
  pub action : Action
  pub code : ℕ
  pub message : Bytes
  pub rps : ℕ
  pub burst : ℕ
  pub conditions : List (List Condition)

pub record CompiledRule : Type 0 where
  pub rule : Rule
  pub groups : List (List ℕ)

-- The fields `params` and `condCount` while the rules are compiled.
pub record Builder : Type 0 where
  pub params : List (Bytes × ParamIndex)
  pub cond_count : ℕ

abbrev pub empty_builder : Builder
empty_builder = record { params = []; cond_count = 0 }

abbrev pub is_ip_condition : Condition → Bool
is_ip_condition c = equal c.param (codes "ip") && is_ip_operator c.operator

abbrev pub or_empty_index : Option ParamIndex → ParamIndex
or_empty_index none = empty_index
or_empty_index (some idx) = idx

abbrev pub index_of : Builder → Bytes → ParamIndex
index_of b param = or_empty_index (lookup param b.params)

unfoldable pub add_to_index : Env → Condition → ℕ → ParamIndex → ParamIndex
add_to_index env c cond idx =
    if is_ip_condition c
    then add_ip_cond env idx c.operator c.value cond
    else compile_condition env idx c.operator c.value cond

abbrev pub rename : Bytes → ParamIndex → ParamIndex
rename name idx = if is_empty name then idx else record idx { name = name }

unfoldable pub add_condition : Env → Condition → Builder → Builder
add_condition env c b = record {
  params =
      assign c.param (add_to_index env c b.cond_count (rename c.param_name (index_of b c.param)))
        b.params;
  cond_count = b.cond_count + 1;
}

-- The loop over the conditions of a group: those without a parameter are skipped.
unfoldable pub compile_group : Env → List Condition → Builder → Builder × List ℕ
compile_group env [] b = (b, [])
compile_group env (c ∷ conds) b =
    let skipped = compile_group env conds b in
    let rest = compile_group env conds (add_condition env c b) in
    if is_empty c.param then skipped else (rest.0, b.cond_count ∷ rest.1)

abbrev pub cons_filled : {A : Type 0} → List A → List (List A) → List (List A)
cons_filled [] groups = groups
cons_filled (x ∷ xs) groups = (x ∷ xs) ∷ groups

unfoldable pub compile_groups : Env → List (List Condition) → Builder → Builder × List (List ℕ)
compile_groups env [] b = (b, [])
compile_groups env (g ∷ groups) b =
    let first = compile_group env g b in
    let rest = compile_groups env groups first.0 in (rest.0, cons_filled first.1 rest.1)

abbrev pub cons_rule : Rule → List (List ℕ) → List CompiledRule → List CompiledRule
cons_rule rule [] rules = rules
cons_rule rule (g ∷ groups) rules = record { rule = rule; groups = g ∷ groups } ∷ rules

unfoldable pub compile_rules : Env → List Rule → Builder → Builder × List CompiledRule
compile_rules env [] b = (b, [])
compile_rules env (rule ∷ rules) b =
    let first = compile_groups env rule.conditions b in
    let rest = compile_rules env rules first.0 in (rest.0, cons_rule rule first.1 rest.1)

pub record RuleSet : Type 0 where
  pub params : List (Bytes × ParamIndex)
  pub rules : List CompiledRule
  pub cond_count : ℕ

unfoldable pub build_rule_set : Env → List Rule → RuleSet
build_rule_set env rules =
    let r = compile_rules env rules empty_builder in
    record { params = r.0.params; rules = r.1; cond_count = r.0.cond_count }

-- A value of the request for a parameter and a name, `none` if it is not present.
abbrev pub Getter : Type 0
Getter = Bytes → Bytes → Option Bytes

unfoldable pub apply_all : Env → Getter → List (Bytes × ParamIndex) → List Bool → List Bool
apply_all env get [] hits = hits
apply_all env get ((param, idx) ∷ params) hits =
    apply_all env get params (apply_index env idx hits (get param idx.name))

abbrev pub all_hit : List Bool → List ℕ → Bool
all_hit hits [] = true
all_hit hits (cond ∷ conds) = get_or hits cond false && all_hit hits conds

-- A number out of range counts as no hit.
unfoldable pub rule_matches : List Bool → List (List ℕ) → Bool
rule_matches hits [] = false
rule_matches hits (g ∷ groups) = all_hit hits g || rule_matches hits groups

-- The decision with the rule that made it.
pub data Decision : Type 0 where
  pass : Decision
  allowed : Rule → Decision
  blocked : Rule → Decision

abbrev pub decide : Rule → Bool → Decision → Decision
decide rule fires rest =
    if rule.enabled && fires
    then elim rule.action [
      | deny ↦ blocked rule
      | rate_limit ↦ blocked rule
      | allow ↦ allowed rule
      | log ↦ rest
      | other ↦ rest
    ]
    else rest

unfoldable pub decide_all : List Bool → List CompiledRule → Decision
decide_all hits [] = pass
decide_all hits (r ∷ rules) =
    let rest = decide_all hits rules in decide r.rule (rule_matches hits r.groups) rest

unfoldable pub evaluate : Env → Getter → RuleSet → Decision
evaluate env get rs =
    decide_all (apply_all env get rs.params (replicate rs.cond_count false)) rs.rules
