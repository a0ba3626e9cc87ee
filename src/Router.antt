-- ===== src/Router.antt =====
-- internal/router/router.go: requests go to the handler of their host, and there to a location.
pub mod Locations
pub mod Hosts
pub mod Flights
pub mod Lazy
mod Tests
use peretum.Prelude.Bytes.{Bytes, codes, equal, has_prefix}
use peretum.Prelude.Dict.{lookup, assign, delete}
use peretum.Prelude.Text.{to_lower, trim_space, trim_suffix, count, before, is_empty}
use peretum.Prelude.{
  ℕ, ◌+◌, Bool, true, false, ◌||◌, Option, none, some, List, [], ◌∷◌, ◌++◌, ◌==◌, if◌then◌else◌,
}

abbrev pub default_hostname : Bytes
default_hostname = codes "_default"

-- `host[:end+1]` for the first "]", and the host itself without one. 93 is "]".
unfoldable pub bracketed : Bytes → Bytes
unfolding before
bracketed host = if equal (before 93 host) host then host else before 93 host ++ codes "]"

-- ASCII hosts; 58 is ":".
unfoldable pub normalize_host : Bytes → Bytes
unfolding bracketed has_prefix
normalize_host raw =
    let host = to_lower (trim_space raw) in
    if is_empty host
    then []
    else if has_prefix host (codes "[")
    then bracketed host
    else trim_suffix (if count 58 host == 1 then before 58 host else host) (codes ".")

-- A nil handler, resolver or default is `none`. A resolver is a function of the host; its context is
-- left out.
pub record HostRouter (H : Type 0) : Type 0 where
  pub targets : List (Bytes × H)
  pub default_handler : Option H
  pub resolver : Option (Bytes → Option H)

module _ {H : Type 0} where
  unfoldable pub new_host_router : HostRouter H
  new_host_router = record { targets = []; default_handler = none; resolver = none }

  unfoldable pub lookup_host : HostRouter H → Bytes → Option H
  lookup_host hr host = elim (lookup host hr.targets) [
    | some h ↦ some h
    | none ↦ elim hr.resolver [ none ↦ none | some resolve ↦ resolve host ]
  ]

  abbrev pub or_else : Option H → Option H → Option H
  or_else none other = other
  or_else (some h) other = some h

  -- The handler that serves a request; `none` is the answer 404.
  unfoldable pub serve_http : HostRouter H → Bytes → Option H
  serve_http hr raw =
      or_else (lookup_host hr (normalize_host raw))
        (or_else (lookup_host hr default_hostname) hr.default_handler)

  unfoldable pub reload : List (Bytes × H) → Option H → HostRouter H → HostRouter H
  reload targets default_handler hr = record hr {
    targets = targets;
    default_handler = default_handler;
  }

  unfoldable pub set_resolver : Option (Bytes → Option H) → HostRouter H → HostRouter H
  set_resolver r hr = record hr { resolver = r }

  abbrev add_target : Bytes → Option H → List (Bytes × H) → List (Bytes × H)
  add_target host none targets = targets
  add_target host (some h) targets = assign host h targets

  unfoldable pub upsert : Bytes → Option H → HostRouter H → HostRouter H
  upsert host h hr =
      if is_empty host then hr else record hr { targets = add_target host h hr.targets }

  unfoldable pub remove_host : Bytes → HostRouter H → HostRouter H
  remove_host host hr = if is_empty host then hr else record hr { targets = delete host hr.targets }
