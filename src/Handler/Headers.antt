-- ===== src/Handler/Headers.antt =====
-- internal/handler/headers.go and `sanitizeResponseHeaders`: the header rules of a location.
pub mod Laws
use peretum.Prelude.Bytes.{Bytes, codes, equal, has_prefix}
use peretum.Prelude.Dict.{lookup, assign, delete, member}
use peretum.Prelude.Text.{is_empty, has_suffix, trim_suffix}
use peretum.Prelude.{
  ℕ, Bool, true, false, ◌||◌, ◌&&◌, not, Option, none, some, List, [], ◌∷◌, ◌++◌, ◌==◌,
  if◌then◌else◌,
}

-- `http.Header`, with the canonical form of a name as a parameter.
abbrev pub Header : Type 0
Header = List (Bytes × List Bytes)

abbrev pub Canon : Type 0
Canon = Bytes → Bytes

abbrev pub header_set : Canon → Bytes → Bytes → Header → Header
header_set canon name v h = assign (canon name) (v ∷ []) h

abbrev pub header_del : Canon → Bytes → Header → Header
header_del canon name h = delete (canon name) h

abbrev pub first_value : Option (List Bytes) → Bytes
first_value (some (v ∷ vs)) = v
first_value _ = []

abbrev pub header_get : Canon → Bytes → Header → Bytes
header_get canon name h = first_value (lookup (canon name) h)

-- The loops of `Set` over a map and of `Del` over a list.
unfoldable pub set_all : Canon → List (Bytes × Bytes) → Header → Header
set_all canon [] h = h
set_all canon ((name, v) ∷ adds) h = set_all canon adds (header_set canon name v h)

unfoldable pub del_all : Canon → List Bytes → Header → Header
del_all canon [] h = h
del_all canon (name ∷ removes) h = del_all canon removes (header_del canon name h)

-- A nil map of additions is an empty one.
pub record HeadersConfig : Type 0 where
  pub request_add : List (Bytes × Bytes)
  pub request_remove : List Bytes
  pub response_add : List (Bytes × Bytes)
  pub response_remove : List Bytes

unfoldable pub apply_request_headers : Canon → HeadersConfig → Header → Header
unfolding set_all del_all
apply_request_headers canon c h = del_all canon c.request_remove (set_all canon c.request_add h)

unfoldable pub apply_response_headers_to : Canon → Option HeadersConfig → Header → Header
unfolding set_all del_all
apply_response_headers_to canon none h = h
apply_response_headers_to canon (some c) h =
    del_all canon c.response_remove (set_all canon c.response_add h)

unfoldable pub set_no_cache_headers : Canon → Header → Header
set_no_cache_headers canon h = header_set canon (codes "Expires") (codes "0") (
    header_set canon (codes "Pragma") (codes "no-cache") (
      header_set canon (codes "Cache-Control")
        (codes "no-store, no-cache, must-revalidate, max-age=0") h))

-- One pattern: 46 is ".".
unfoldable pub is_excluded_by : Bytes → Bytes → Bool
is_excluded_by pattern path =
    if is_empty pattern
    then false
    else if has_prefix pattern (46 ∷ [])
    then has_suffix path pattern
    else equal pattern path || has_prefix path (trim_suffix pattern (codes "/"))

unfoldable pub is_cache_excluded : List Bytes → Bytes → Bool
unfolding is_excluded_by
is_cache_excluded [] path = false
is_cache_excluded (pattern ∷ patterns) path =
    is_excluded_by pattern path || is_cache_excluded patterns path

-- `max_age` is its decimal text, empty for a number that is not positive.
pub record CorsConfig : Type 0 where
  pub enabled : Bool
  pub allow_origins : List Bytes
  pub allow_methods : List Bytes
  pub allow_headers : List Bytes
  pub expose_headers : List Bytes
  pub allow_credentials : Bool
  pub max_age : Bytes

-- `strings.Join` with ", ".
unfoldable pub join : List Bytes → Bytes
join [] = []
join (x ∷ []) = x
join (x ∷ y ∷ xs) = x ++ (codes ", " ++ join (y ∷ xs))

abbrev pub is_nil : {A : Type 0} → List A → Bool
is_nil [] = true
is_nil (x ∷ xs) = false

unfoldable pub allows_origin : List Bytes → Bytes → Bool
allows_origin [] origin = false
allows_origin (o ∷ origins) origin =
    (equal o (codes "*") || equal o origin) || allows_origin origins origin

-- The origin, the credentials, the methods, the headers, the exposed headers and the age, in turn.
abbrev pub set_if : Canon → Bool → Bytes → Bytes → Header → Header
set_if canon b name v h = if b then header_set canon name v h else h

abbrev pub methods_text : CorsConfig → Bytes
methods_text cors =
    if is_nil cors.allow_methods
    then codes "GET, POST, PUT, DELETE, OPTIONS, HEAD"
    else join cors.allow_methods

abbrev pub headers_text : CorsConfig → Bytes → Bytes
headers_text cors asked = if is_nil cors.allow_headers then asked else join cors.allow_headers

unfoldable pub cors_headers : Canon → CorsConfig → Bytes → Bytes → Header → Header
unfolding join
cors_headers canon cors origin asked h =
    set_if canon (not (is_empty cors.max_age)) (codes "Access-Control-Max-Age") cors.max_age (
      set_if canon (not (is_nil cors.expose_headers)) (codes "Access-Control-Expose-Headers")
        (join cors.expose_headers)
        (set_if canon (not (is_nil cors.allow_headers) || not (is_empty asked))
          (codes "Access-Control-Allow-Headers") (headers_text cors asked)
          (header_set canon (codes "Access-Control-Allow-Methods") (methods_text cors) (
            set_if canon cors.allow_credentials (codes "Access-Control-Allow-Credentials")
              (codes "true") (header_set canon (codes "Access-Control-Allow-Origin") origin h)))))

-- From the headers of the request to those of the response.
unfoldable pub handle_cors : Canon → CorsConfig → Header → Header → Header
unfolding allows_origin cors_headers
handle_cors canon cors request h =
    let origin = header_get canon (codes "Origin") request in
    if is_empty origin
    then h
    else if allows_origin cors.allow_origins origin
    then cors_headers canon cors origin
        (header_get canon (codes "Access-Control-Request-Headers") request) h
    else h

abbrev pub upstream_identity_headers : List Bytes
upstream_identity_headers =
    codes "Server"
    ∷ codes "Via"
    ∷ codes "Age"
    ∷ codes "X-Powered-By"
    ∷ codes "X-Cache"
    ∷ codes "X-Cache-Hits"
    ∷ codes "X-Cache-Status"
    ∷ codes "X-Served-By"
    ∷ codes "X-Backend-Server"
    ∷ codes "X-Backend-Host"
    ∷ codes "Cf-Ray"
    ∷ codes "Cf-Cache-Status"
    ∷ codes "Cf-Worker"
    ∷ []

unfoldable pub sanitize_response_headers : Canon → Header → Header
unfolding del_all
sanitize_response_headers canon h =
    header_set canon (codes "Server") (codes "peretum") (del_all canon upstream_identity_headers h)
