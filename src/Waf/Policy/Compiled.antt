-- ===== src/Waf/Policy/Compiled.antt =====
-- The compiled indexes against the conditions one by one.
pub mod Refines
pub mod Decides
use peretum.Prelude.Bytes.{Bytes, equal, equal_iff, equal_refl}
use peretum.Prelude.Dict.{
  lookup, assign, is_some, lookup-assign, HasDistinctKeys, assign-HasDistinctKeys,
}
use peretum.Prelude.Text.{is_empty}
use peretum.Prelude.{
  ℕ, zero, suc, ◌+◌, ◌<◌, ◌≡◌, ◌∙◌, refl, sym, ap, Bool, true, false, ◌&&◌, ◌||◌, not, Option, none,
  some, List, [], ◌∷◌, ◌++◌, ◌==◌, set, get_or, length, length-set, replicate, arith, if◌then◌else◌,
  All, Bool-cases, inl, inr, Option-cases,
}
use peretum.Waf.Aho.Laws.{FindsAll}
use peretum.Waf.Aho.{memb}
use peretum.Waf.Index.Laws.{op_holds, ip_holds, marks-compile_condition, marks-add_ip_cond}
use peretum.Waf.Index.{
  ParamIndex, empty_index, add_ip_cond, compile_condition, marks, mark_all, apply_index,
}
use peretum.Waf.Policy.Reference.{is_op_equals, holds, tests_equality, clash, NoClash}
use peretum.Waf.Policy.{
  Builder, is_ip_condition, or_empty_index, index_of, add_to_index, rename, add_condition, Getter,
  apply_all,
}
use peretum.Waf.{Env, Condition, Operator, op_equals}

-- A test for equality finds no earlier one for its value in its index.
abbrev pub IsFresh : Builder → Condition → Type 0
IsFresh b c = tests_equality c ≡ true → lookup c.value (index_of b c.param).equals ≡ none

equality_op :
    (c : Condition) → is_ip_condition c ≡ false → c.operator ≡ op_equals → tests_equality c ≡ true
equality_op c plain e = rw (plain, e) refl

marks-rename :
    (env : Env) (name : Bytes) (idx : ParamIndex) (v : Option Bytes)
    → marks env (rename name idx) v ≡ marks env idx v
unfolding marks
marks-rename env name idx none = ground arith
marks-rename env name idx (some v) = elim (Bool-cases (is_empty name)) [
  | inl e ↦ rw e refl
  | inr e ↦ rw e refl
]

equals-rename : (name : Bytes) (idx : ParamIndex) → (rename name idx).equals ≡ idx.equals
equals-rename name idx = ground arith

-- What a condition adds to its index.
marks-add_to_index :
    (env : Env) (c : Condition) (cond : ℕ) (idx : ParamIndex) (v : Option Bytes) (j : ℕ)
    → FindsAll env
    → (tests_equality c ≡ true → lookup c.value idx.equals ≡ none)
    → memb j (marks env (add_to_index env c cond idx) v)
      ≡ (memb j (marks env idx v) || (holds env c v && cond == j))
unfolding add_to_index holds
marks-add_to_index env c cond idx v j finds fresh = elim (Bool-cases (is_ip_condition c)) [
  | inl ip ↦ rw ip (marks-add_ip_cond env idx c.operator c.value cond v j finds)
  | inr plain ↦ rw plain (
      marks-compile_condition env idx c.operator c.value cond v j finds
        (λ e. fresh (equality_op c plain e)))
]

-- The marks of all indexes, for a value of each parameter.
pub any_marks : Env → (Bytes → Option Bytes) → List (Bytes × ParamIndex) → ℕ → Bool
any_marks env vals [] j = false
any_marks env vals ((param, idx) ∷ params) j =
    memb j (marks env idx (vals param)) || any_marks env vals params j

marks-empty_index :
    (env : Env) (v : Option Bytes) (j : ℕ) → memb j (marks env empty_index v) ≡ false
unfolding marks peretum.Waf.Aho.match_text peretum.Waf.Aho.build_aho_matcher
    peretum.Waf.Aho.group_patterns peretum.Waf.Index.passing
marks-empty_index env none j = refl
marks-empty_index env (some v) j = refl

any_marks-assign :
    (env : Env) (vals : Bytes → Option Bytes) (param : Bytes) (idx : ParamIndex)
    (params : List (Bytes × ParamIndex)) (j : ℕ) (b : Bool)
    → memb j (marks env idx (vals param))
      ≡ (memb j (marks env (or_empty_index (lookup param params)) (vals param)) || b)
    → any_marks env vals (assign param idx params) j ≡ (any_marks env vals params j || b)
unfolding any_marks
any_marks-assign env vals param idx [] j b h = ground (arith, marks-empty_index env (vals param) j)
any_marks-assign env vals param idx ((q, old) ∷ params) j b h = elim (Bool-cases (equal q param)) [
  | inl here ↦
      let e : q ≡ param = ground (arith, equal_iff q param) in
      let v : vals q ≡ vals param = ap vals e in ground (arith)
  | inr other ↦
      let h' : memb j (marks env idx (vals param))
          ≡ (memb j (marks env (or_empty_index (lookup param params)) (vals param)) || b) =
        ground (arith) in
      rw other (ground (arith, any_marks-assign env vals param idx params j b h'))
]

get_or-mark :
    (hits : List Bool) (cond j : ℕ)
    → j < length hits
    → get_or (set hits cond true) j false ≡ (get_or hits j false || cond == j)
get_or-mark [] cond j h = absurd (omega arith)
get_or-mark (b ∷ hits) zero zero h = ground arith
get_or-mark (b ∷ hits) zero (suc j) h = ground arith
get_or-mark (b ∷ hits) (suc cond) zero h = ground arith
get_or-mark (b ∷ hits) (suc cond) (suc j) h = ground (arith, get_or-mark hits cond j)

mark_all_lem :
    (conds : List ℕ) (hits : List Bool) (j : ℕ)
    → j < length hits
    → (length (mark_all conds hits) ≡ length hits)
      × (get_or (mark_all conds hits) j false ≡ (get_or hits j false || memb j conds))
unfolding mark_all
mark_all_lem [] hits j h = (refl, ground arith)
mark_all_lem (cond ∷ conds) hits j h =
    let same = length-set hits cond true in
    let (l, e) = mark_all_lem conds (set hits cond true) j (omega (arith, same)) in
    (l ∙ same, e ∙ ground (arith, get_or-mark hits cond j h))

-- The values that the indexes read.
abbrev pub Reads : Getter → (Bytes → Option Bytes) → List (Bytes × ParamIndex) → Type 0
Reads get vals params = All (λ e. get e.0 e.1.name ≡ vals e.0) params

apply_index_lem :
    (env : Env) (idx : ParamIndex) (hits : List Bool) (v : Option Bytes)
    → apply_index env idx hits v ≡ mark_all (marks env idx v) hits
unfolding apply_index
apply_index_lem env idx hits v = refl

-- After all indexes a condition is marked if it was or one of them marks it.
pub apply_all_lem :
    (env : Env) (get : Getter) (vals : Bytes → Option Bytes) (params : List (Bytes × ParamIndex))
    (hits : List Bool) (j : ℕ)
    → j < length hits
    → Reads get vals params
    → get_or (apply_all env get params hits) j false
      ≡ (get_or hits j false || any_marks env vals params j)
unfolding apply_all any_marks
apply_all_lem env get vals [] hits j h r = ground arith
apply_all_lem env get vals ((param, idx) ∷ params) hits j h (here, r) =
    let v = get param idx.name in
    let (l, e) = mark_all_lem (marks env idx v) hits j h in
    let e' : get_or (apply_index env idx hits v) j false
        ≡ (get_or hits j false || memb j (marks env idx v)) =
      ap (λ hs. get_or hs j false) (apply_index_lem env idx hits v) ∙ e in
    let l' : length (apply_index env idx hits v) ≡ length hits =
      ap length (apply_index_lem env idx hits v) ∙ l in
    let m : memb j (marks env idx v) ≡ memb j (marks env idx (vals param)) =
      ap (λ x. memb j (marks env idx x)) here in
    apply_all_lem env get vals params (apply_index env idx hits v) j (omega (arith, l')) r
    ∙ ground arith

-- The builder after a list of conditions.
unfoldable pub add_conditions : Env → List Condition → Builder → Builder
add_conditions env [] b = b
add_conditions env (c ∷ conds) b = add_conditions env conds (add_condition env c b)

-- The number of a condition, and whether it holds.
unfoldable pub holds_at : Env → (Bytes → Option Bytes) → ℕ → List Condition → ℕ → Bool
holds_at env vals n [] j = false
holds_at env vals n (c ∷ conds) j =
    (holds env c (vals c.param) && n == j) || holds_at env vals (suc n) conds j

any_marks-add_condition :
    (env : Env) (vals : Bytes → Option Bytes) (c : Condition) (b : Builder) (j : ℕ)
    → FindsAll env
    → IsFresh b c
    → any_marks env vals (add_condition env c b).params j
      ≡ (any_marks env vals b.params j || (holds env c (vals c.param) && b.cond_count == j))
unfolding add_condition
any_marks-add_condition env vals c b j finds fresh =
    let idx = rename c.param_name (index_of b c.param) in
    any_marks-assign env vals c.param (add_to_index env c b.cond_count idx) b.params j
      (holds env c (vals c.param) && b.cond_count == j)
      (marks-add_to_index env c b.cond_count idx (vals c.param) j finds
          (λ t. ap (lookup c.value) (equals-rename c.param_name (index_of b c.param)) ∙ fresh t)
        ∙ ap (λ ms. memb j ms || (holds env c (vals c.param) && b.cond_count == j))
            (marks-rename env c.param_name (index_of b c.param) (vals c.param)))

index_of-add_condition :
    (env : Env) (c : Condition) (b : Builder) (q : Bytes)
    → index_of (add_condition env c b) q ≡ (
        if equal c.param q
        then add_to_index env c b.cond_count (rename c.param_name (index_of b c.param))
        else index_of b q)
unfolding add_condition
index_of-add_condition env c b q = ground (
  arith,
  lookup-assign c.param q
      (add_to_index env c b.cond_count (rename c.param_name (index_of b c.param))) b.params,
)

equals-compile_condition :
    (env : Env) (op : Operator) (value : Bytes) (cond : ℕ) (idx : ParamIndex)
    → (compile_condition env idx op value cond).equals
      ≡ (if is_op_equals op then assign value cond idx.equals else idx.equals)
unfolding compile_condition
equals-compile_condition env op value cond idx = ground arith

equals-add_to_index :
    (env : Env) (c : Condition) (cond : ℕ) (idx : ParamIndex)
    → (add_to_index env c cond idx).equals
      ≡ (if tests_equality c then assign c.value cond idx.equals else idx.equals)
unfolding add_to_index add_ip_cond
equals-add_to_index env c cond idx = elim (Bool-cases (is_ip_condition c)) [
  | inl ip ↦ rw ip refl
  | inr plain ↦ rw plain (equals-compile_condition env c.operator c.value cond idx)
]

-- A condition that does not clash with the one added stays fresh.
IsFresh-add_condition :
    (env : Env) (c d : Condition) (b : Builder)
    → clash c d ≡ false
    → IsFresh b d
    → IsFresh (add_condition env c b) d
IsFresh-add_condition env c d b apart fresh t = elim (Bool-cases (equal c.param d.param)) [
  | inr other ↦
      ap (λ (idx : ParamIndex). lookup d.value idx.equals) (index_of-add_condition env c b d.param)
      ∙ rw other (fresh t)
  | inl same ↦
      let p : c.param ≡ d.param = (equal_iff c.param d.param).0 same in
      let old : lookup d.value (index_of b c.param).equals ≡ none =
        ap (λ q. lookup d.value (index_of b q).equals) p ∙ fresh t in
      ap (λ (idx : ParamIndex). lookup d.value idx.equals) (index_of-add_condition env c b d.param)
      ∙ rw same (
          ap (lookup d.value)
            (equals-add_to_index env c b.cond_count (rename c.param_name (index_of b c.param)))
          ∙ still_missing c d (index_of b c.param).equals b.cond_count
              (rename c.param_name (index_of b c.param)).equals
              (equals-rename c.param_name (index_of b c.param)) old same t apart)
]
  where
    still_missing :
        (c d : Condition) (equals : List (Bytes × ℕ)) (n : ℕ) (renamed : List (Bytes × ℕ))
        → renamed ≡ equals
        → lookup d.value equals ≡ none
        → equal c.param d.param ≡ true
        → tests_equality d ≡ true
        → clash c d ≡ false
        → lookup d.value (if tests_equality c then assign c.value n renamed else renamed) ≡ none
    still_missing c d equals n renamed e old same t apart =
        let missing : lookup d.value renamed ≡ none = ap (lookup d.value) e ∙ old in
        elim (Bool-cases (tests_equality c)) [
          | inr plain ↦ rw plain missing
          | inl test ↦
              let v : equal c.value d.value ≡ false = sym (rw (test, t, same) refl) ∙ apart in
              rw test (lookup-assign c.value d.value n renamed ∙ rw v missing)
        ]

All-IsFresh :
    (env : Env) (c : Condition) (b : Builder) (conds : List Condition)
    → All (λ d. clash c d ≡ false) conds
    → All (IsFresh b) conds
    → All (IsFresh (add_condition env c b)) conds
All-IsFresh env c b [] a f = tt
All-IsFresh env c b (d ∷ conds) (apart, a) (fresh, f) =
    (IsFresh-add_condition env c d b apart fresh, All-IsFresh env c b conds a f)

cond_count-add_condition :
    (env : Env) (c : Condition) (b : Builder)
    → (add_condition env c b).cond_count ≡ suc b.cond_count
unfolding add_condition
cond_count-add_condition env c b = omega arith

-- What the indexes mark after a list of conditions without clashes: those that hold.
pub any_marks-add_conditions :
    (env : Env) (vals : Bytes → Option Bytes) (conds : List Condition) (b : Builder) (j : ℕ)
    → FindsAll env
    → NoClash conds
    → All (IsFresh b) conds
    → any_marks env vals (add_conditions env conds b).params j
      ≡ (any_marks env vals b.params j || holds_at env vals b.cond_count conds j)
unfolding add_conditions holds_at
any_marks-add_conditions env vals [] b j finds apart f = ground arith
any_marks-add_conditions env vals (c ∷ conds) b j finds (a, apart) (fresh, f) =
    any_marks-add_conditions env vals conds (add_condition env c b) j finds apart
      (All-IsFresh env c b conds a f)
    ∙ ground (
      arith,
      any_marks-add_condition env vals c b j finds fresh,
      ap (λ n. holds_at env vals n conds j) (cond_count-add_condition env c b),
    )
