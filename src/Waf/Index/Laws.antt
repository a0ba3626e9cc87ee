-- ===== src/Waf/Index/Laws.antt =====
-- A condition added to an index is marked exactly if it holds, and the others as before.
use peretum.Prelude.Bytes.{Bytes, equal, equal_iff, has_prefix}
use peretum.Prelude.Dict.{lookup, assign, lookup-assign}
use peretum.Prelude.Text.{to_lower, trim_space, has_suffix, split_on}
use peretum.Prelude.{
  ℕ, ◌≡◌, refl, Bool, true, false, ◌&&◌, ◌||◌, Option, none, some, List, [], ◌∷◌, ◌++◌, ◌==◌, arith,
}
use peretum.Waf.Aho.Laws.{FindsAll, memb-append, finds_pattern, any_pattern, match_text_lem}
use peretum.Waf.Aho.{memb}
use peretum.Waf.Index.{
  ParamIndex, append_some, trimmed_items, nets_of, add_ip_cond, compile_condition, passing,
  equal_cond, nets_test, greater_test, less_test, values_test, marks,
}
use peretum.Waf.{
  Env, Operator, op_contains, op_equals, starts_with, ends_with, op_matches, op_in, op_not_in,
  op_in_ip, op_not_in_ip, gt, lt, exists, not_exists, unknown,
}

-- A test on what an operand was parsed to; an operand that does not parse never holds.
abbrev pub parsed {ℓ} : {A : Type ℓ} → Option A → (A → Bool) → Bool
parsed none test = false
parsed (some a) test = test a

-- The meaning of an operator on the value of a parameter.
unfoldable pub value_holds : Env → Operator → Bytes → Bytes → Bool
value_holds env op value v = elim op [
  | op_contains ↦ finds_pattern (to_lower v) (to_lower value)
  | op_equals ↦ equal value v
  | starts_with ↦ has_prefix v value
  | ends_with ↦ has_suffix v value
  | op_matches ↦ parsed (env.compile_regex value) (λ re. re v)
  | op_in ↦ values_test v (trimmed_items (split_on 44 value), false)
  | op_not_in ↦ values_test v (trimmed_items (split_on 44 value), true)
  | gt ↦
      parsed (env.parse_float (trim_space value))
        (greater_test env (env.parse_float (trim_space v)))
  | lt ↦
      parsed (env.parse_float (trim_space value)) (less_test env (env.parse_float (trim_space v)))
  | exists ↦ true
  | _ ↦ false
]

abbrev pub is_not_exists : Operator → Bool
is_not_exists not_exists = true
is_not_exists _ = false

unfoldable pub op_holds : Env → Operator → Bytes → Option Bytes → Bool
op_holds env op value none = is_not_exists op
op_holds env op value (some v) = value_holds env op value v

unfoldable pub ip_holds : Env → Operator → Bytes → Option Bytes → Bool
ip_holds env op value none = false
ip_holds env op value (some v) =
    parsed (nets_of env op value) (nets_test env (env.parse_ip (trim_space v)))

memb-passing :
    {A : Type 0} (p : A → Bool) (l : List (A × ℕ)) (a : A) (cond j : ℕ)
    → memb j (passing p (l ++ (a, cond) ∷ [])) ≡ (memb j (passing p l) || (p a && cond == j))
unfolding passing
memb-passing p [] a cond j = ground arith
memb-passing p ((b, c) ∷ l) a cond j = ground (arith, memb-passing p l a cond j)

memb-passing-some :
    {A : Type 0} (p : A → Bool) (l : List (A × ℕ)) (a : Option A) (cond j : ℕ)
    → memb j (passing p (append_some a cond l))
      ≡ (memb j (passing p l) || (parsed a p && cond == j))
memb-passing-some p l none cond j = ground arith
memb-passing-some p l (some a) cond j = memb-passing p l a cond j

any_pattern-append :
    (text p : Bytes) (l : List (Bytes × ℕ)) (cond j : ℕ)
    → any_pattern text (l ++ (p, cond) ∷ []) j
      ≡ (any_pattern text l j || (finds_pattern text p && cond == j))
any_pattern-append text p [] cond j = ground arith
any_pattern-append text p ((q, c) ∷ l) cond j = ground (arith, any_pattern-append text p l cond j)

-- `marks` as a disjunction over the operators.
marked : Env → ParamIndex → Bytes → ℕ → Bool
marked env idx v j =
    memb j (passing (λ u. true) idx.present)
    || (any_pattern (to_lower v) idx.patterns j
        || (memb j (equal_cond (lookup v idx.equals))
            || (memb j (passing (has_prefix v) idx.prefixes)
                || (memb j (passing (has_suffix v) idx.suffixes)
                    || (memb j (passing (λ re. re v) idx.regexes)
                        || (memb j (passing (values_test v) idx.ins)
                            || (memb j (
                                  passing (nets_test env (env.parse_ip (trim_space v))) idx.ip_nets)
                                || (memb j (
                                      passing (greater_test env (env.parse_float (trim_space v)))
                                        idx.greater)
                                    || memb j (
                                        passing (less_test env (env.parse_float (trim_space v)))
                                          idx.less)))))))))

memb-marks :
    (env : Env) (idx : ParamIndex) (v : Bytes) (j : ℕ)
    → FindsAll env
    → memb j (marks env idx (some v)) ≡ marked env idx v j
unfolding marks marked
memb-marks env idx v j finds =
    simp (memb-append) (rw (match_text_lem env idx.patterns (to_lower v) j finds) refl)

equals_first :
    (value v : Bytes) (equals : List (Bytes × ℕ)) (cond j : ℕ)
    → lookup value equals ≡ none
    → memb j (equal_cond (lookup v (assign value cond equals)))
      ≡ (memb j (equal_cond (lookup v equals)) || (equal value v && cond == j))
equals_first value v equals cond j fresh =
    ground (arith, lookup-assign value v cond equals, equal_iff value v)

marked-compile_condition :
    (env : Env) (idx : ParamIndex) (op : Operator) (value v : Bytes) (cond j : ℕ)
    → (op ≡ op_equals → lookup value idx.equals ≡ none)
    → marked env (compile_condition env idx op value cond) v j
      ≡ (marked env idx v j || (value_holds env op value v && cond == j))
unfolding marked compile_condition value_holds
marked-compile_condition env idx op_contains value v cond j fresh =
    ground (arith, any_pattern-append (to_lower v) (to_lower value) idx.patterns cond j)
marked-compile_condition env idx op_equals value v cond j fresh =
    ground (arith, equals_first value v idx.equals cond j (fresh refl))
marked-compile_condition env idx starts_with value v cond j fresh =
    ground (arith, memb-passing (has_prefix v) idx.prefixes value cond j)
marked-compile_condition env idx ends_with value v cond j fresh =
    ground (arith, memb-passing (has_suffix v) idx.suffixes value cond j)
marked-compile_condition env idx op_matches value v cond j fresh = ground (
  arith,
  memb-passing-some (λ (re : Bytes → Bool). re v) idx.regexes (env.compile_regex value) cond j,
)
marked-compile_condition env idx op_in value v cond j fresh =
    ground (
      arith,
      memb-passing (values_test v) idx.ins (trimmed_items (split_on 44 value), false) cond j,
    )
marked-compile_condition env idx op_not_in value v cond j fresh =
    ground
      (arith, memb-passing (values_test v) idx.ins (trimmed_items (split_on 44 value), true) cond j)
marked-compile_condition env idx gt value v cond j fresh = ground (
  arith,
  memb-passing-some (greater_test env (env.parse_float (trim_space v))) idx.greater
      (env.parse_float (trim_space value)) cond j,
)
marked-compile_condition env idx lt value v cond j fresh = ground (
  arith,
  memb-passing-some (less_test env (env.parse_float (trim_space v))) idx.less
      (env.parse_float (trim_space value)) cond j,
)
marked-compile_condition env idx exists value v cond j fresh =
    ground (arith, memb-passing (λ (u : Unit {0}). true) idx.present tt cond j)
marked-compile_condition env idx not_exists value v cond j fresh = ground arith
marked-compile_condition env idx op_in_ip value v cond j fresh = ground arith
marked-compile_condition env idx op_not_in_ip value v cond j fresh = ground arith
marked-compile_condition env idx unknown value v cond j fresh = ground arith

absent-compile_condition :
    (env : Env) (idx : ParamIndex) (op : Operator) (value : Bytes) (cond j : ℕ)
    → memb j (compile_condition env idx op value cond).absent
      ≡ (memb j idx.absent || (is_not_exists op && cond == j))
unfolding compile_condition
absent-compile_condition env idx op_contains value cond j = ground arith
absent-compile_condition env idx op_equals value cond j = ground arith
absent-compile_condition env idx starts_with value cond j = ground arith
absent-compile_condition env idx ends_with value cond j = ground arith
absent-compile_condition env idx op_matches value cond j = ground arith
absent-compile_condition env idx op_in value cond j = ground arith
absent-compile_condition env idx op_not_in value cond j = ground arith
absent-compile_condition env idx gt value cond j = ground arith
absent-compile_condition env idx lt value cond j = ground arith
absent-compile_condition env idx exists value cond j = ground arith
absent-compile_condition env idx not_exists value cond j =
    ground (arith, memb-append j idx.absent (cond ∷ []))
absent-compile_condition env idx op_in_ip value cond j = ground arith
absent-compile_condition env idx op_not_in_ip value cond j = ground arith
absent-compile_condition env idx unknown value cond j = ground arith

marks-absent : (env : Env) (idx : ParamIndex) → marks env idx none ≡ idx.absent
unfolding marks
marks-absent env idx = refl

-- What `compileCondition` adds to the marks of an index: the condition, if it holds. A test for
-- equality takes the place of an earlier one for the same value.
pub marks-compile_condition :
    (env : Env) (idx : ParamIndex) (op : Operator) (value : Bytes) (cond : ℕ) (v : Option Bytes)
    (j : ℕ)
    → FindsAll env
    → (op ≡ op_equals → lookup value idx.equals ≡ none)
    → memb j (marks env (compile_condition env idx op value cond) v)
      ≡ (memb j (marks env idx v) || (op_holds env op value v && cond == j))
unfolding op_holds
marks-compile_condition env idx op value cond none j finds fresh =
    rw (marks-absent env (compile_condition env idx op value cond), marks-absent env idx)
      (absent-compile_condition env idx op value cond j)
marks-compile_condition env idx op value cond (some v) j finds fresh =
    rw
      (
        memb-marks env (compile_condition env idx op value cond) v j finds,
        memb-marks env idx v j finds,
      )
      (marked-compile_condition env idx op value v cond j fresh)

marked-add_ip_cond :
    (env : Env) (idx : ParamIndex) (op : Operator) (value v : Bytes) (cond j : ℕ)
    → marked env (add_ip_cond env idx op value cond) v j
      ≡ (marked env idx v j || (ip_holds env op value (some v) && cond == j))
unfolding marked add_ip_cond ip_holds
marked-add_ip_cond env idx op value v cond j = ground (
  arith,
  memb-passing-some (nets_test env (env.parse_ip (trim_space v))) idx.ip_nets (nets_of env op value)
      cond j,
)

absent-add_ip_cond :
    (env : Env) (idx : ParamIndex) (op : Operator) (value : Bytes) (cond j : ℕ)
    → memb j (add_ip_cond env idx op value cond).absent
      ≡ (memb j idx.absent || (ip_holds env op value none && cond == j))
unfolding add_ip_cond ip_holds
absent-add_ip_cond env idx op value cond j = ground arith

-- The same for `addIPCond`.
pub marks-add_ip_cond :
    (env : Env) (idx : ParamIndex) (op : Operator) (value : Bytes) (cond : ℕ) (v : Option Bytes)
    (j : ℕ)
    → FindsAll env
    → memb j (marks env (add_ip_cond env idx op value cond) v)
      ≡ (memb j (marks env idx v) || (ip_holds env op value v && cond == j))
marks-add_ip_cond env idx op value cond none j finds =
    rw (marks-absent env (add_ip_cond env idx op value cond), marks-absent env idx)
      (absent-add_ip_cond env idx op value cond j)
marks-add_ip_cond env idx op value cond (some v) j finds =
    rw (memb-marks env (add_ip_cond env idx op value cond) v j finds, memb-marks env idx v j finds)
      (marked-add_ip_cond env idx op value v cond j)
