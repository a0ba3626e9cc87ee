-- ===== src/Router/Hosts.antt =====
-- Which handler serves a host.
use peretum.Prelude.Bytes.{Bytes, codes, equal, equal_iff, has_prefix}
use peretum.Prelude.Dict.{lookup-assign, lookup-delete}
use peretum.Prelude.Text.{
  ArePlain, to_lower, trim_space, trim_suffix, count, before, is_empty, to_lower_plain,
  trim_space_plain, count-append, before-append,
}
use peretum.Prelude.{
  ◌≡◌, ◌∙◌, refl, ap, ◌⊎◌, inl, inr, false, Option, none, some, [], ◌∷◌, ◌++◌, ◌==◌, arith,
  if◌then◌else◌, All-append,
}
use peretum.Router.{
  default_hostname, normalize_host, HostRouter, lookup_host, serve_http, upsert, remove_host,
  or_else,
}

-- A host name as the routing table holds it: lower case, no space, no port, no bracket in front and
-- no dot at its end.
pub record IsHostName (name : Bytes) : Type 0 where
  pub plain : ArePlain name
  pub filled : is_empty name ≡ false
  pub no_bracket : has_prefix name (codes "[") ≡ false
  pub no_port : count 58 name ≡ 0
  pub no_dot : trim_suffix name (codes ".") ≡ name

-- ":" and a port, without a further ":".
pub record IsPort (port : Bytes) : Type 0 where
  pub digits : ArePlain port
  pub single : count 58 port ≡ 0

normalize_step :
    (raw : Bytes)
    → ArePlain raw
    → is_empty raw ≡ false
    → has_prefix raw (codes "[") ≡ false
    → normalize_host raw
      ≡ trim_suffix (if count 58 raw == 1 then before 58 raw else raw) (codes ".")
unfolding normalize_host
normalize_step raw p f b =
    let e : to_lower (trim_space raw) ≡ raw =
      ap to_lower (trim_space_plain raw p) ∙ to_lower_plain raw p in
    rw (e, f, b) refl

-- A host name stands for itself.
normalize_host-name : (name : Bytes) → IsHostName name → normalize_host name ≡ name
normalize_host-name name n =
    normalize_step name n.plain n.filled n.no_bracket ∙ rw n.no_port n.no_dot

append_filled : (name : Bytes) (t : Bytes) → is_empty name ≡ false → is_empty (name ++ t) ≡ false
append_filled [] t h = absurd (cc)
append_filled (c ∷ name) t h = refl

append_no_bracket :
    (name : Bytes) (t : Bytes)
    → is_empty name ≡ false
    → has_prefix name (codes "[") ≡ false
    → has_prefix (name ++ t) (codes "[") ≡ false
unfolding has_prefix
append_no_bracket [] t h k = absurd (cc)
append_no_bracket (c ∷ name) t h k = ground arith

count-port : (port : Bytes) → count 58 port ≡ 0 → count 58 (58 ∷ port) ≡ 1
unfolding count
count-port port h = ground arith

-- The port is taken off a host name.
normalize_host-port :
    (name port : Bytes) → IsHostName name → IsPort port → normalize_host (name ++ 58 ∷ port) ≡ name
normalize_host-port name port n p =
    let raw = name ++ 58 ∷ port in
    let one : count 58 raw ≡ 1 =
      count-append 58 name (58 ∷ port) ∙ omega (arith, n.no_port, count-port port p.single) in
    normalize_step raw (All-append _ name (58 ∷ port) n.plain ((refl, refl), p.digits))
      (append_filled name (58 ∷ port) n.filled)
      (append_no_bracket name (58 ∷ port) n.filled n.no_bracket)
    ∙ rw (one, before-append 58 name port n.no_port) n.no_dot

-- The two spellings of a request's host: with a port or without.
abbrev pub Spells : Bytes → Bytes → Type 0
Spells raw name = (raw ≡ name) ⊎ ((port : Bytes) × IsPort port × (raw ≡ name ++ 58 ∷ port))

normalize_host-Spells :
    (raw name : Bytes) → IsHostName name → Spells raw name → normalize_host raw ≡ name
normalize_host-Spells raw name n (inl e) = ap normalize_host e ∙ normalize_host-name name n
normalize_host-Spells raw name n (inr (port, p, e)) =
    ap normalize_host e ∙ normalize_host-port name port n p

module _ {H : Type 0} where
  lookup_host-upsert :
      (name j : Bytes) (h : H) (hr : HostRouter H)
      → is_empty name ≡ false
      → lookup_host (upsert name (some h) hr) j
        ≡ (if equal name j then some h else lookup_host hr j)
  unfolding lookup_host upsert
  lookup_host-upsert name j h hr filled = ground (arith, lookup-assign name j h hr.targets)

  unfoldable pub resolved : HostRouter H → Bytes → Option H
  resolved hr host = elim hr.resolver [ none ↦ none | some resolve ↦ resolve host ]

  lookup_host-remove_host :
      (name j : Bytes) (hr : HostRouter H)
      → is_empty name ≡ false
      → lookup_host (remove_host name hr) j
        ≡ (if equal name j then resolved hr j else lookup_host hr j)
  unfolding lookup_host remove_host resolved
  lookup_host-remove_host name j hr filled = ground (arith, lookup-delete name j hr.targets)

  serve_http_found :
      (hr : HostRouter H) (raw : Bytes) (h : H)
      → lookup_host hr (normalize_host raw) ≡ some h
      → serve_http hr raw ≡ some h
  unfolding serve_http
  serve_http_found hr raw h e = rw e refl

  -- What a request gets from a router, from the two lookups and the default handler.
  unfoldable pub fallback : HostRouter H → Option H
  fallback hr = or_else (lookup_host hr default_hostname) hr.default_handler

  serve_http_other :
      (hr hr' : HostRouter H) (raw name : Bytes)
      → normalize_host raw ≡ name
      → lookup_host hr' name ≡ lookup_host hr name
      → lookup_host hr' default_hostname ≡ lookup_host hr default_hostname
      → hr'.default_handler ≡ hr.default_handler
      → serve_http hr' raw ≡ serve_http hr raw
  unfolding serve_http
  serve_http_other hr hr' raw name e a b c = rw (e, a, b, c) refl

  upsert-default_handler :
      (name : Bytes) (h : Option H) (hr : HostRouter H)
      → (upsert name h hr).default_handler ≡ hr.default_handler
  unfolding upsert
  upsert-default_handler name h hr = ground arith

  remove_host-default_handler :
      (name : Bytes) (hr : HostRouter H)
      → (remove_host name hr).default_handler ≡ hr.default_handler
  unfolding remove_host
  remove_host-default_handler name hr = ground arith

  -- After `Upsert` of a host name (not empty, in lower case, with no space, port, bracket in front or
  -- dot at its end) other than the default one, a request whose host is that name,
  -- with a port or without, is served by the new handler, and a request for another host name as
  -- before.
  pub serve_http-upsert :
      (name raw other : Bytes) (h : H) (hr : HostRouter H)
      → IsHostName name
      → equal name default_hostname ≡ false
      → Spells raw name
      → equal name (normalize_host other) ≡ false
      → (serve_http (upsert name (some h) hr) raw ≡ some h)
        × (serve_http (upsert name (some h) hr) other ≡ serve_http hr other)
  serve_http-upsert name raw other h hr n apart spells elsewhere =
      let at = λ (j : Bytes). lookup_host-upsert name j h hr n.filled in
      (
        serve_http_found (upsert name (some h) hr) raw h (
            ap (lookup_host (upsert name (some h) hr)) (normalize_host-Spells raw name n spells)
            ∙ at name
            ∙ ground (arith, equal_iff name name)),
        serve_http_other hr (upsert name (some h) hr) other (normalize_host other) refl
            (at (normalize_host other) ∙ rw elsewhere refl) (at default_hostname ∙ rw apart refl)
            (upsert-default_handler name (some h) hr),
      )

  serve_http_missing :
      (hr hr' : HostRouter H) (raw name : Bytes)
      → normalize_host raw ≡ name
      → lookup_host hr' name ≡ resolved hr name
      → lookup_host hr' default_hostname ≡ lookup_host hr default_hostname
      → hr'.default_handler ≡ hr.default_handler
      → serve_http hr' raw ≡ or_else (resolved hr name) (fallback hr)
  unfolding serve_http fallback
  serve_http_missing hr hr' raw name e a b c = rw (e, a, b, c) refl

  -- After `RemoveHost` of a host name (not empty, in lower case, with no space, port, bracket in front
  -- or dot at its end) other than the default one, a request for it, with a port or
  -- without, gets what the resolver gives for it, and else what the default host name and the
  -- default handler gave before. A request for another host name is served as before.
  pub serve_http-remove_host :
      (name raw other : Bytes) (hr : HostRouter H)
      → IsHostName name
      → equal name default_hostname ≡ false
      → Spells raw name
      → equal name (normalize_host other) ≡ false
      → (serve_http (remove_host name hr) raw ≡ or_else (resolved hr name) (fallback hr))
        × (serve_http (remove_host name hr) other ≡ serve_http hr other)
  serve_http-remove_host name raw other hr n apart spells elsewhere =
      let at = λ (j : Bytes). lookup_host-remove_host name j hr n.filled in
      (
        serve_http_missing hr (remove_host name hr) raw name
            (normalize_host-Spells raw name n spells)
            (at name ∙ ground (arith, equal_iff name name)) (at default_hostname ∙ rw apart refl)
            (remove_host-default_handler name hr),
        serve_http_other hr (remove_host name hr) other (normalize_host other) refl
            (at (normalize_host other) ∙ rw elsewhere refl) (at default_hostname ∙ rw apart refl)
            (remove_host-default_handler name hr),
      )
