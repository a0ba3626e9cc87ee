-- ===== src/Config/Listeners.antt =====
-- `ParseListener` and `ParseListeners` of internal/config/config.go.
pub mod Laws
use peretum.Prelude.Bytes.{Bytes, codes, equal, has_prefix}
use peretum.Prelude.Dict.{member}
use peretum.Prelude.Int.{ℤ, pos, negsuc}
use peretum.Prelude.Text.{is_space, trim_space, is_empty}
use peretum.Prelude.{
  ℕ, suc, Bool, true, false, ◌&&◌, ◌||◌, Option, none, some, List, [], ◌∷◌, ◌++◌, ◌==◌, ltb, drop,
  ◌⊎◌, inl, inr, if◌then◌else◌,
}

-- `net.SplitHostPort` without an error, `strconv.Atoi`, `net.JoinHostPort` and the decimal text of a
-- number.
pub record NetEnv : Type 0 where
  pub has_port : Bytes → Bool
  pub atoi : Bytes → Option ℤ
  pub join_host_port : Bytes → Bytes → Bytes
  pub itoa : ℕ → Bytes

pub record ListenersSpec : Type 0 where
  pub addr : Bytes
  pub ssl : Bool
  pub quic : Bool

pub data ListenError : Type 0 where
  empty_directive flags_conflict port_out_of_range : ListenError
  duplicate_flag unknown_flag : Bytes → ListenError
  in_listener : ℕ → ListenError → ListenError

pub record Flags : Type 0 where
  pub ssl : Bool
  pub quic : Bool
  pub h2c : Bool

abbrev pub no_flags : Flags
no_flags = record { ssl = false; quic = false; h2c = false }

abbrev pub prepend_word : ℕ → List Bytes → List Bytes
prepend_word c [] = (c ∷ []) ∷ []
prepend_word c (w ∷ ws) = (c ∷ w) ∷ ws

abbrev pub begins_space : Bytes → Bool
begins_space [] = true
begins_space (c ∷ s) = is_space c

-- `strings.Fields`
unfoldable pub fields : Bytes → List Bytes
fields [] = []
fields (c ∷ s) =
    let rest = fields s in
    if is_space c then rest else if begins_space s then (c ∷ []) ∷ rest else prepend_word c rest

abbrev pub is_quic_flag : Bytes → Bool
is_quic_flag f = equal f (codes "h3") || (equal f (codes "http3") || equal f (codes "quic"))

abbrev pub is_h2_flag : Bytes → Bool
is_h2_flag f = equal f (codes "h2") || equal f (codes "http2")

-- The switch on a flag, `none` for an unknown one.
unfoldable pub set_flag : Bytes → Flags → Option Flags
set_flag f flags =
    if equal f (codes "ssl")
    then some (record flags { ssl = true })
    else if is_quic_flag f
    then some (record flags { quic = true })
    else if equal f (codes "h2c")
    then some (record flags { h2c = true })
    else if is_h2_flag f
    then some flags
    else none

-- The loop over the flags, with those seen so far.
unfoldable pub parse_flags : List Bytes → Flags → List Bytes → ListenError ⊎ Flags
parse_flags seen flags [] = inr flags
parse_flags seen flags (f ∷ fs) =
    if member seen f then inl (duplicate_flag f) else elim (set_flag f flags) [
      | none ↦ inl (unknown_flag f)
      | some flags' ↦ parse_flags (f ∷ seen) flags' fs
    ]

-- 58 is ":".
abbrev pub without_colon : Bytes → Bytes
without_colon s = if has_prefix s (58 ∷ []) then drop 1 s else s

abbrev pub checked_port : NetEnv → ℤ → ListenError ⊎ Bytes
checked_port env (negsuc n) = inl port_out_of_range
checked_port env (pos p) = if ltb 65535 p then inl port_out_of_range else inr (58 ∷ env.itoa p)

unfoldable pub resolve_listen_addr : NetEnv → Bytes → ℕ → ListenError ⊎ Bytes
resolve_listen_addr env raw default_port =
    let s = trim_space raw in
    if is_empty s
    then inr (58 ∷ env.itoa default_port)
    else if env.has_port s
    then inr s
    else elim (env.atoi (without_colon s)) [
      | none ↦ inr (env.join_host_port s (env.itoa default_port))
      | some p ↦ checked_port env p
    ]

abbrev pub default_port : Flags → ℕ
default_port flags = if flags.ssl || flags.quic then 443 else 80

abbrev pub spec_of : Flags → ListenError ⊎ Bytes → ListenError ⊎ ListenersSpec
spec_of flags (inl e) = inl e
spec_of flags (inr addr) = inr (record { addr = addr; ssl = flags.ssl; quic = flags.quic })

abbrev pub with_flags : NetEnv → Bytes → ListenError ⊎ Flags → ListenError ⊎ ListenersSpec
with_flags env token (inl e) = inl e
with_flags env token (inr flags) =
    if flags.ssl && flags.h2c
    then inl flags_conflict
    else spec_of flags (resolve_listen_addr env token (default_port flags))

unfoldable pub parse_listener : NetEnv → Bytes → ListenError ⊎ ListenersSpec
parse_listener env raw = elim (fields raw) [
  | [] ↦ inl empty_directive
  | token ∷ fs ↦ with_flags env token (parse_flags [] no_flags fs)
]

abbrev pub cons_spec :
    ListenersSpec → ListenError ⊎ List ListenersSpec → ListenError ⊎ List ListenersSpec
cons_spec spec (inl e) = inl e
cons_spec spec (inr specs) = inr (spec ∷ specs)

-- The loop of `ParseListeners`, from a position on.
unfoldable pub parse_listeners : NetEnv → ℕ → List Bytes → ListenError ⊎ List ListenersSpec
parse_listeners env i [] = inr []
parse_listeners env i (raw ∷ raws) =
    let rest = parse_listeners env (suc i) raws in
    elim (parse_listener env raw) [ inl e ↦ inl (in_listener i e) | inr spec ↦ cons_spec spec rest ]
