-- ===== src/Waf.antt =====
-- plugins/waf: the rules of a location, compiled into indexes and evaluated on a request.
pub mod Aho
pub mod Index
pub mod Policy
pub mod Request
pub mod Enforce
mod Tests
use peretum.Prelude.Bytes.{Bytes, codes, equal}
use peretum.Prelude.Text.{to_lower, trim_space, contains, split_on, is_empty}
use peretum.Prelude.{
  ℕ, ◌≡◌, Bool, true, false, ◌&&◌, ◌||◌, not, Option, none, some, List, [], ◌∷◌, get_elem?,
  replicate, if◌then◌else◌, ◌==◌,
}

-- A network: its address and its mask.
abbrev pub Net : Type 0
Net = Bytes × Bytes

-- What is not in the repository: `regexp`, `net`, `strconv.ParseFloat`, whose float64 results are
-- named by their bits, and the Aho-Corasick library, which returns the numbers of the patterns that
-- it finds.
pub record Env : Type 0 where
  pub compile_regex : Bytes → Option (Bytes → Bool)
  pub parse_ip : Bytes → Option Bytes
  pub is_ip4 : Bytes → Bool
  pub parse_cidr : Bytes → Option Net
  pub net_contains : Net → Bytes → Bool
  pub parse_float : Bytes → Option ℕ
  pub float_lt : ℕ → ℕ → Bool
  pub find_all_overlapping : List Bytes → Bytes → List ℕ

-- The operators of `compileCondition` and `isIPOperator`, `unknown` for any other word.
pub data Operator : Type 0 where
  op_contains op_equals starts_with ends_with op_matches op_in op_not_in op_in_ip op_not_in_ip :
      Operator
  gt lt exists not_exists unknown : Operator

-- The switch on `strings.ToLower(op)`.
unfoldable pub operator_of : Bytes → Operator
operator_of word =
    let op = to_lower word in
    if equal op (codes "contains")
    then op_contains
    else if equal op (codes "equals")
    then op_equals
    else if equal op (codes "startswith")
    then starts_with
    else if equal op (codes "endswith")
    then ends_with
    else if equal op (codes "matches")
    then op_matches
    else if equal op (codes "in")
    then op_in
    else if equal op (codes "not_in")
    then op_not_in
    else if equal op (codes "in_ip")
    then op_in_ip
    else if equal op (codes "not_in_ip")
    then op_not_in_ip
    else if equal op (codes "gt")
    then gt
    else if equal op (codes "lt")
    then lt
    else if equal op (codes "exists")
    then exists
    else if equal op (codes "not_exists")
    then not_exists
    else unknown

-- A condition of the configuration, as `getString` reads its fields.
pub record Condition : Type 0 where
  pub param : Bytes
  pub param_name : Bytes
  pub operator : Operator
  pub value : Bytes
