-- ===== src/Waf/Tests.antt =====
-- Runs of a policy, and the theorems at concrete inputs.
use peretum.Prelude.Bytes.{Bytes, codes, equal}
use peretum.Prelude.Text.{contains}
use peretum.Prelude.{
  ℕ, zero, suc, ◌+◌, ◌≤◌, ◌<◌, ◌≡◌, ◌∙◌, refl, sym, ap, Bool, true, false, ◌||◌, Option, none, some,
  List, [], ◌∷◌, map, ◌==◌, get_elem?, arith, if◌then◌else◌, Bool-cases, inl, inr, replicate,
  length,
}
use peretum.RateLimit.{Limits, Clock}
use peretum.Waf.Aho.Laws.{FindsAll}
use peretum.Waf.Aho.{memb}
use peretum.Waf.Enforce.{Plugin}
use peretum.Waf.Policy.Compiled.Decides.{evaluate-reference}
use peretum.Waf.Policy.Reference.{reference, all_conditions, NoClash, NamesAgree}
use peretum.Waf.Policy.{
  Action, deny, log, rate_limit, Rule, Getter, Decision, pass, allowed, blocked, build_rule_set,
  evaluate,
}
use peretum.Waf.Request.Bodies.{evaluate_request_oversized, IsLeft, evaluate_request-IsLeft}
use peretum.Waf.Request.Laws.{value_of}
use peretum.Waf.Request.{Request, GeoEnv, evaluate_request, body_limit}
use peretum.Waf.{Env, Operator, op_contains, op_equals, Condition}

-- A search for each pattern in turn.
abbrev find_all : List Bytes → Bytes → List ℕ
find_all [] text = []
find_all (p ∷ patterns) text =
    let rest = map suc (find_all patterns text) in if contains text p then 0 ∷ rest else rest

memb-map-suc :
    (i : ℕ) (l : List ℕ) → (memb 0 (map suc l) ≡ false) × (memb (suc i) (map suc l) ≡ memb i l)
memb-map-suc i [] = (refl, refl)
memb-map-suc i (x ∷ l) = (ground (arith, memb-map-suc i l), ground (arith, memb-map-suc i l))

abbrev env : Env
env = record {
  compile_regex = λ p. none;
  parse_ip = λ s. none;
  is_ip4 = λ ip. true;
  parse_cidr = λ s. none;
  net_contains = λ n ip. false;
  parse_float = λ s. none;
  float_lt = λ a b. false;
  find_all_overlapping = find_all;
}

env-FindsAll : FindsAll env
env-FindsAll [] text i = refl
env-FindsAll (p ∷ patterns) text zero = elim (Bool-cases (contains text p)) [
  | inl found ↦ rw found refl
  | inr absent ↦ rw absent (memb-map-suc 0 (find_all patterns text)).0
]
env-FindsAll (p ∷ patterns) text (suc i) = elim (Bool-cases (contains text p)) [
  | inl found ↦
      let other : (0 == suc i) ≡ false = ground arith in
      rw (found, other) ((memb-map-suc i (find_all patterns text)).1 ∙ env-FindsAll patterns text i)
  | inr absent ↦
      rw absent ((memb-map-suc i (find_all patterns text)).1 ∙ env-FindsAll patterns text i)
]

abbrev condition : Bytes → Operator → Bytes → Condition
condition param operator value = record {
  param = param;
  param_name = [];
  operator = operator;
  value = value;
}

abbrev rule : Bytes → Action → Condition → Rule
rule id action c = record {
  id = id;
  enabled = true;
  action = action;
  code = 0;
  message = [];
  rps = 1;
  burst = 1;
  conditions = (c ∷ []) ∷ [];
}

abbrev rules : List Rule
rules =
    rule (codes "r1") deny (condition (codes "body") op_contains (codes "x"))
    ∷ rule (codes "r2") rate_limit (condition (codes "path") op_equals (codes "/"))
    ∷ []

abbrev request : Request
request = record {
  host = codes "h";
  method = codes "GET";
  uri = codes "/";
  path = codes "/";
  raw_query = [];
  header = λ name. [];
  query_arg = λ name. [];
  remote_addr = codes "1.2.3.4:5";
  split_host_port = some (codes "1.2.3.4");
  body = some (record { unread = codes "axb"; fails = false });
}

abbrev geo_env : GeoEnv
geo_env = record { geo_lookup = none; format_uint = λ n. [] }

abbrev values : Getter
values = value_of env geo_env 0 request

rules-NoClash : NoClash (all_conditions rules)
unfolding equal
rules-NoClash = ((refl, tt), (tt, tt))

rules-NamesAgree : (get : Getter) → NamesAgree env get rules
unfolding peretum.Waf.Policy.compile_rules peretum.Waf.Policy.compile_groups
    peretum.Waf.Policy.compile_group peretum.Waf.Policy.add_condition
    peretum.Waf.Policy.add_to_index peretum.Waf.Index.compile_condition equal
rules-NamesAgree get = (refl, (refl, tt))

evaluate-reference_example :
    evaluate env values (build_rule_set env rules) ≡ reference env values rules
evaluate-reference_example =
    evaluate-reference env values rules env-FindsAll rules-NoClash (rules-NamesAgree values)

-- Two rules that test one parameter for one value: only the later one is evaluated.
abbrev clashing : List Rule
clashing =
    rule (codes "r1") deny (condition (codes "path") op_equals (codes "/"))
    ∷ rule (codes "r2") log (condition (codes "path") op_equals (codes "/"))
    ∷ []

first_of_clashing_is_lost :
    (evaluate env (λ param name. some (codes "/")) (build_rule_set env clashing) ≡ pass)
    × (reference env (λ param name. some (codes "/")) clashing
        ≡ blocked (rule (codes "r1") deny (condition (codes "path") op_equals (codes "/"))))
unfolding peretum.Waf.Policy.compile_rules peretum.Waf.Policy.compile_groups
    peretum.Waf.Policy.compile_group peretum.Waf.Policy.add_condition
    peretum.Waf.Policy.add_to_index peretum.Waf.Index.compile_condition equal build_rule_set
    evaluate peretum.Waf.Policy.apply_all peretum.Waf.Index.apply_index peretum.Waf.Index.mark_all
    peretum.Waf.Index.marks peretum.Waf.Index.passing peretum.Waf.Aho.match_text
    peretum.Waf.Aho.build_aho_matcher peretum.Waf.Aho.group_patterns peretum.Waf.Policy.rule_matches
    peretum.Waf.Policy.decide_all reference peretum.Waf.Policy.Reference.fires
    peretum.Waf.Policy.Reference.holds peretum.Waf.Index.Laws.op_holds
    peretum.Waf.Index.Laws.value_holds
first_of_clashing_is_lost = (refl, refl)

-- A limiter that grants one token in all.
abbrev limits : Limits ℕ
limits = record {
  new_limiter = λ rps burst. burst;
  limiter_allow = λ l now. elim l [ zero ↦ (false, 0) | suc n ↦ (true, n) ];
  unset = λ rps. rps == 0;
  positive = λ rps. true;
  float_eq = λ p q. p == q;
}

abbrev clock : Clock
clock = record { seen = 1; asked = 2; checked = 3 }

abbrev plugin : Plugin
plugin = record {
  enabled = true;
  max_body_size = 0;
  rule_sets = (codes "t|/", build_rule_set env rules) ∷ [];
}

-- With a limit of two bytes, a body of three.
evaluate_request_oversized_example :
    (evaluate_request env geo_env 2 (build_rule_set env rules) request).0
    ≡ (evaluate_request env geo_env 2 (build_rule_set env rules) (record request { body = none })).0
evaluate_request_oversized_example =
    evaluate_request_oversized env geo_env 2 (build_rule_set env rules) request
      (record { unread = codes "axb"; fails = false }) refl (omega arith) (omega arith)

evaluate_request-IsLeft_example :
    IsLeft
      (body_limit 2 + 1)
      request.body
      (evaluate_request env geo_env 2 (build_rule_set env rules) request).1.body_stream
evaluate_request-IsLeft_example =
    evaluate_request-IsLeft env geo_env 2 (build_rule_set env rules) request
