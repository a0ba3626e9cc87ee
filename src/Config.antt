-- ===== src/Config.antt =====
-- internal/config/config.go: the parts of the configuration that are written as text.
pub mod Listeners
mod Tests
use peretum.Prelude.Bytes.{Bytes, codes, equal, cut}
use peretum.Prelude.Int.{ℤ, pos}
use peretum.Prelude.Text.{is_space, trim_space, trim_suffix, is_empty, has_suffix, split_on, before}
use peretum.Prelude.{
  ℕ, ◌+◌, ◌-◌, ◌*◌, Bool, true, false, ◌&&◌, Option, none, some, ◌>>=◌, List, [], ◌∷◌, ◌++◌, map,
  ◌==◌, leb, if◌then◌else◌,
}

-- `strconv.ParseFloat`, whose float64 results are named by their bits, and `int64` of a product with
-- a unit.
pub record Floats : Type 0 where
  pub parse_float : Bytes → Option ℕ
  pub scaled : ℕ → ℕ → ℤ

-- `ParseServerNames`: 44 is "," and 58 is ":".
unfoldable pub names_of : List Bytes → List Bytes
names_of [] = []
names_of (h ∷ hosts) =
    if is_empty (trim_space h) then names_of hosts else before 58 (trim_space h) ∷ names_of hosts

unfoldable pub parse_server_names : Bytes → List Bytes
unfolding names_of
parse_server_names server_name =
    if is_empty server_name then [] else names_of (split_on 44 server_name)

abbrev pub upper : ℕ → ℕ
upper c = if leb 97 c && leb c 122 then c - 32 else c

-- The units with their sizes, the longer ones first.
abbrev pub units : List (Bytes × ℕ)
units =
    (codes "GIB", 1073741824)
    ∷ (codes "MIB", 1048576)
    ∷ (codes "KIB", 1024)
    ∷ (codes "GB", 1073741824)
    ∷ (codes "MB", 1048576)
    ∷ (codes "KB", 1024)
    ∷ (codes "B", 1)
    ∷ []

abbrev pub parsed_as : Floats → ℕ → Bytes → Option ℤ
parsed_as fs mult s = fs.parse_float (trim_space s) >>= λ v. some (fs.scaled v mult)

-- The loop over the units; without one the text is a number of bytes.
unfoldable pub parse_with : Floats → List (Bytes × ℕ) → Bytes → Option ℤ
parse_with fs [] s = parsed_as fs 1 s
parse_with fs ((suffix, mult) ∷ rest) s =
    if has_suffix s suffix then parsed_as fs mult (trim_suffix s suffix) else parse_with fs rest s

unfoldable pub parse_size : Floats → Bytes → Option ℤ
unfolding parse_with
parse_size fs s = parse_with fs units (map upper (trim_space s))

unfoldable pub parse_max_response_body_size : Floats → Bytes → Option ℤ
unfolding parse_size
parse_max_response_body_size fs s = if is_empty s then some (pos 0) else parse_size fs s

pub record Url : Type 0 where
  pub scheme : Bytes
  pub host : Bytes

abbrev pub url_of : Bytes × Bytes → Url
url_of p = record { scheme = p.0; host = p.1 }

-- `ParseURL` and `String`.
unfoldable pub parse_url : Bytes → Option Url
parse_url raw = cut raw (codes "://") >>= λ p. some (url_of p)

unfoldable pub url_text : Url → Bytes
url_text u = u.scheme ++ (codes "://" ++ u.host)

-- `ParseUpstreams`
unfoldable pub parse_upstreams : List Bytes → Option (List Url)
unfolding parse_url
parse_upstreams [] = some []
parse_upstreams (raw ∷ upstreams) = do
  url ← parse_url raw
  urls ← parse_upstreams upstreams
  some (url ∷ urls)
