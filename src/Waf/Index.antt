-- ===== src/Waf/Index.antt =====
-- `paramIndex` of plugins/waf/waf.go: the conditions on one parameter, by operator, with
-- `compileCondition` and `applyIndex`..
pub mod Laws
use peretum.Prelude.Bytes.{Bytes, codes, equal, has_prefix}
use peretum.Prelude.Dict.{lookup, assign}
use peretum.Prelude.Text.{to_lower, trim_space, contains, has_suffix, split_on, is_empty}
use peretum.Prelude.{
  ℕ, Bool, true, false, ◌&&◌, ◌||◌, not, Option, none, some, ◌>>=◌, List, [], ◌∷◌, ◌++◌, replicate,
  set, if◌then◌else◌,
}
use peretum.Waf.Aho.{group_patterns, build_aho_matcher, match_text}
use peretum.Waf.{
  Net, Env, Operator, op_contains, op_equals, starts_with, ends_with, op_matches, op_in, op_not_in,
  op_in_ip, op_not_in_ip, gt, lt, exists, not_exists, unknown, Condition,
}

-- Each operator's conditions: what they ask for, and their number.
pub record ParamIndex : Type 0 where
  pub name : Bytes
  pub patterns : List (Bytes × ℕ)
  pub equals : List (Bytes × ℕ)
  pub prefixes : List (Bytes × ℕ)
  pub suffixes : List (Bytes × ℕ)
  pub regexes : List ((Bytes → Bool) × ℕ)
  pub ins : List ((List Bytes × Bool) × ℕ)
  pub greater : List (ℕ × ℕ)
  pub less : List (ℕ × ℕ)
  pub ip_nets : List ((List Net × Bool) × ℕ)
  pub present : List (Unit {0} × ℕ)
  pub absent : List ℕ

abbrev pub empty_index : ParamIndex
empty_index = record {
  name = [];
  patterns = [];
  equals = [];
  prefixes = [];
  suffixes = [];
  regexes = [];
  ins = [];
  greater = [];
  less = [];
  ip_nets = [];
  present = [];
  absent = [];
}

abbrev pub append_some : {A : Type 0} → Option A → ℕ → List (A × ℕ) → List (A × ℕ)
append_some none cond l = l
append_some (some a) cond l = l ++ (a, cond) ∷ []

-- `parseCIDR` and `parseIPNets` of plugins/waf/helpers.go. 47 is "/", 44 is ",".
unfoldable pub parse_cidr : Env → Bytes → Option Net
parse_cidr env raw =
    let s = trim_space raw in
    if contains s (codes "/")
    then env.parse_cidr s
    else env.parse_ip s >>= λ ip.
        some (ip, if env.is_ip4 ip then replicate 4 255 else replicate 16 255)

abbrev pub cons_some : {A : Type 0} → Option A → List A → List A
cons_some none l = l
cons_some (some a) l = a ∷ l

unfoldable pub parse_nets : Env → List Bytes → List Net
unfolding parse_cidr
parse_nets env [] = []
parse_nets env (item ∷ items) = cons_some (parse_cidr env item) (parse_nets env items)

unfoldable pub parse_ip_nets : Env → Bytes → List Net
unfolding parse_nets
parse_ip_nets env value = parse_nets env (split_on 44 value)

-- The items of `in`, without spaces and empty ones.
unfoldable pub trimmed_items : List Bytes → List Bytes
trimmed_items [] = []
trimmed_items (item ∷ items) =
    if is_empty (trim_space item)
    then trimmed_items items
    else trim_space item ∷ trimmed_items items

abbrev pub is_ip_operator : Operator → Bool
is_ip_operator op_equals = true
is_ip_operator op_in = true
is_ip_operator op_not_in = true
is_ip_operator op_in_ip = true
is_ip_operator op_not_in_ip = true
is_ip_operator _ = false

abbrev pub is_negated : Operator → Bool
is_negated op_not_in = true
is_negated op_not_in_ip = true
is_negated _ = false

abbrev pub nets_of : Env → Operator → Bytes → Option (List Net × Bool)
nets_of env op value = elim (parse_ip_nets env value) [
  | [] ↦ none
  | net ∷ nets ↦ some (net ∷ nets, is_negated op)
]

unfoldable pub add_ip_cond : Env → ParamIndex → Operator → Bytes → ℕ → ParamIndex
add_ip_cond env idx op value cond = record idx {
  ip_nets = append_some (nets_of env op value) cond idx.ip_nets;
}

unfoldable pub compile_condition : Env → ParamIndex → Operator → Bytes → ℕ → ParamIndex
compile_condition env idx op value cond = elim op [
  | op_contains ↦ record idx { patterns = idx.patterns ++ (to_lower value, cond) ∷ [] }
  | op_equals ↦ record idx { equals = assign value cond idx.equals }
  | starts_with ↦ record idx { prefixes = idx.prefixes ++ (value, cond) ∷ [] }
  | ends_with ↦ record idx { suffixes = idx.suffixes ++ (value, cond) ∷ [] }
  | op_matches ↦ record idx { regexes = append_some (env.compile_regex value) cond idx.regexes }
  | op_in ↦ record idx { ins = idx.ins ++ ((trimmed_items (split_on 44 value), false), cond) ∷ [] }
  | op_not_in ↦ record idx {
    ins = idx.ins ++ ((trimmed_items (split_on 44 value), true), cond) ∷ [];
  }
  | gt ↦ record idx { greater = append_some (env.parse_float (trim_space value)) cond idx.greater }
  | lt ↦ record idx { less = append_some (env.parse_float (trim_space value)) cond idx.less }
  | exists ↦ record idx { present = idx.present ++ (tt, cond) ∷ [] }
  | not_exists ↦ record idx { absent = idx.absent ++ cond ∷ [] }
  | _ ↦ idx
]

-- The conditions of a list whose part passes a test.
unfoldable pub passing : {A : Type 0} → (A → Bool) → List (A × ℕ) → List ℕ
passing p [] = []
passing p ((a, cond) ∷ l) = if p a then cond ∷ passing p l else passing p l

abbrev pub in_list : Bytes → List Bytes → Bool
in_list v [] = false
in_list v (x ∷ xs) = equal x v || in_list v xs

abbrev pub xor : Bool → Bool → Bool
xor true b = not b
xor false b = b

abbrev pub any_net : Env → Bytes → List Net → Bool
any_net env ip [] = false
any_net env ip (net ∷ nets) = env.net_contains net ip || any_net env ip nets

abbrev pub equal_cond : Option ℕ → List ℕ
equal_cond none = []
equal_cond (some cond) = cond ∷ []

-- The tests of the loops over the networks and the thresholds; without an address or a number the
-- loop is skipped.
abbrev pub nets_test : Env → Option Bytes → List Net × Bool → Bool
nets_test env none c = false
nets_test env (some ip) c = xor (any_net env ip c.0) c.1

abbrev pub greater_test : Env → Option ℕ → ℕ → Bool
greater_test env none threshold = false
greater_test env (some n) threshold = env.float_lt threshold n

abbrev pub less_test : Env → Option ℕ → ℕ → Bool
less_test env none threshold = false
less_test env (some n) threshold = env.float_lt n threshold

abbrev pub values_test : Bytes → List Bytes × Bool → Bool
values_test v c = xor (in_list v c.0) c.1

-- The conditions that `applyIndex` marks, in its order; `none` is a parameter that is not present.
unfoldable pub marks : Env → ParamIndex → Option Bytes → List ℕ
marks env idx none = idx.absent
marks env idx (some v) =
    passing (λ u. true) idx.present
    ++ (match_text env (build_aho_matcher (group_patterns idx.patterns [])) (to_lower v)
        ++ (equal_cond (lookup v idx.equals)
            ++ (passing (has_prefix v) idx.prefixes
                ++ (passing (has_suffix v) idx.suffixes
                    ++ (passing (λ re. re v) idx.regexes
                        ++ (passing (values_test v) idx.ins
                            ++ (passing (nets_test env (env.parse_ip (trim_space v))) idx.ip_nets
                                ++ (passing (greater_test env (env.parse_float (trim_space v)))
                                      idx.greater
                                    ++ passing (less_test env (env.parse_float (trim_space v)))
                                        idx.less))))))))

-- `hits[cid] = true` for each of them. The numbers are below the length.
unfoldable pub mark_all : List ℕ → List Bool → List Bool
mark_all [] hits = hits
mark_all (cond ∷ conds) hits = mark_all conds (set hits cond true)

unfoldable pub apply_index : Env → ParamIndex → List Bool → Option Bytes → List Bool
unfolding marks mark_all
apply_index env idx hits value = mark_all (marks env idx value) hits
