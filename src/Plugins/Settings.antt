-- ===== src/Plugins/Settings.antt =====
-- plugins/base/helpers.go: the entries of a plugin's configuration, whose types are known at run time
-- only. Floats are named by their bits, and their conversions to int and int64 are parameters.
use peretum.Prelude.Bytes.{Bytes}
use peretum.Prelude.Dict.{lookup}
use peretum.Prelude.Int.{ℤ, pos}
use peretum.Prelude.{ℕ, Bool, false, Option, some, List, [], ◌∷◌}

mutual
  pub data Value : Type 0 where
    bool : Bool → Value
    int int64 : ℤ → Value
    float : ℕ → Value
    text : Bytes → Value
    texts : List Bytes → Value
    values : Values → Value
    unknown : Value

  pub data Values : Type 0 where
    no_values : Values
    next_value : Value → Values → Values

abbrev pub Settings : Type 0
Settings = List (Bytes × Value)

abbrev bool_of : Option Value → Bool
bool_of (some (bool b)) = b
bool_of _ = false

unfoldable pub get_bool : Settings → Bytes → Bool
get_bool config key = bool_of (lookup key config)

abbrev int_or : (ℕ → ℤ) → ℤ → Option Value → ℤ
int_or int_of default_val (some (int v)) = v
int_or int_of default_val (some (float v)) = int_of v
int_or int_of default_val _ = default_val

unfoldable pub get_int : (ℕ → ℤ) → Settings → Bytes → ℤ
get_int int_of config key = int_or int_of (pos 0) (lookup key config)

unfoldable pub get_int_or_default : (ℕ → ℤ) → Settings → Bytes → ℤ → ℤ
get_int_or_default int_of config key default_val = int_or int_of default_val (lookup key config)

abbrev int64_of : (ℕ → ℤ) → Option Value → ℤ
int64_of convert (some (int64 v)) = v
int64_of convert (some (float v)) = convert v
int64_of convert (some (int v)) = v
int64_of convert _ = pos 0

unfoldable pub get_int64 : (ℕ → ℤ) → Settings → Bytes → ℤ
get_int64 convert config key = int64_of convert (lookup key config)

abbrev text_of : Option Value → Bytes
text_of (some (text s)) = s
text_of _ = []

unfoldable pub get_string : Settings → Bytes → Bytes
get_string config key = text_of (lookup key config)

-- The texts of a list, without its other values.
unfoldable pub texts_of : Values → List Bytes
texts_of no_values = []
texts_of (next_value (text s) vs) = s ∷ texts_of vs
texts_of (next_value _ vs) = texts_of vs

abbrev slice_of : Option Value → List Bytes
slice_of (some (values vs)) = texts_of vs
slice_of (some (texts ss)) = ss
slice_of _ = []

unfoldable pub get_string_slice : Settings → Bytes → List Bytes
unfolding texts_of
get_string_slice config key = slice_of (lookup key config)
