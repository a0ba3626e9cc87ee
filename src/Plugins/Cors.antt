-- ===== src/Plugins/Cors.antt =====
-- plugins/cors/cors.go.
use peretum.Handler.Headers.{Header, Canon, header_get, CorsConfig, allows_origin, cors_headers}
use peretum.Plugins.Settings.{Settings, Value, bool, int, get_string_slice}
use peretum.Prelude.Bytes.{Bytes, codes, equal}
use peretum.Prelude.Dict.{lookup, assign}
use peretum.Prelude.Int.{ℤ, pos, negsuc}
use peretum.Prelude.Text.{is_empty}
use peretum.Prelude.{
  ℕ, zero, suc, Bool, false, not, Option, none, some, ◌>>=◌, List, [], ◌∷◌, ◌++◌, if◌then◌else◌,
}

abbrev default_methods : List Bytes
default_methods =
    codes "GET" ∷ codes "POST" ∷ codes "PUT" ∷ codes "DELETE" ∷ codes "OPTIONS" ∷ codes "HEAD" ∷ []

-- A type assertion, `none` for its panic.
abbrev asserted_bool : Option Value → Option Bool
asserted_bool (some (bool b)) = some b
asserted_bool _ = none

abbrev asserted_int : Option Value → Option ℤ
asserted_int (some (int v)) = some v
asserted_int _ = none

abbrev or_default : List Bytes → List Bytes
or_default [] = default_methods
or_default (m ∷ methods) = m ∷ methods

abbrev age_text : (ℕ → Bytes) → ℤ → Bytes
age_text itoa (negsuc n) = []
age_text itoa (pos zero) = []
age_text itoa (pos (suc n)) = itoa (suc n)

-- `Init`, where `none` is a panic: the entries that are not slices have to be there. `itoa` is the
-- decimal text of a number.
unfoldable pub init : (ℕ → Bytes) → Settings → Option CorsConfig
init itoa config = do
  enabled ← asserted_bool (lookup (codes "enabled") config)
  credentials ← asserted_bool (lookup (codes "allow_credentials") config)
  age ← asserted_int (lookup (codes "max_age") config)
  some (record {
    enabled = enabled;
    allow_origins = get_string_slice config (codes "allow_origins");
    allow_methods = or_default (get_string_slice config (codes "allow_methods"));
    allow_headers = get_string_slice config (codes "allow_headers");
    expose_headers = get_string_slice config (codes "expose_headers");
    allow_credentials = credentials;
    max_age = age_text itoa age;
  })

abbrev all_values : Option (List Bytes) → List Bytes
all_values none = []
all_values (some vs) = vs

abbrev add_vary : Canon → Header → Header
add_vary canon h =
    let name = canon (codes "Vary") in
    assign name (all_values (lookup name h) ++ codes "Origin" ∷ []) h

-- `BeforeProxy`: the headers of the response, and whether the request is a preflight, answered
-- with 204.
unfoldable pub before_proxy : Canon → CorsConfig → Bytes → Header → Header → Header × Bool
before_proxy canon cors method request h =
    let origin = header_get canon (codes "Origin") request in
    if not cors.enabled
    then (h, false)
    else if is_empty origin
    then (h, false)
    else if allows_origin cors.allow_origins origin
    then (
      cors_headers canon cors origin
          (header_get canon (codes "Access-Control-Request-Headers") request) (add_vary canon h),
      equal method (codes "OPTIONS"),
    )
    else (h, false)
