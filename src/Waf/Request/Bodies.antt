-- ===== src/Waf/Request/Bodies.antt =====
-- What the policy does to the body of a request, and what it sees of a body over the limit.
use peretum.Prelude.Bytes.{Bytes}
use peretum.Prelude.{
  ℕ, ◌+◌, ◌≤◌, ◌<◌, ◌≡◌, refl, sym, ap, ◌∙◌, Option, none, some, [], arith, inl, inr, length, take,
  lt→ltb,
}
use peretum.Waf.Policy.{RuleSet, evaluate}
use peretum.Waf.Request.Laws.{value, value_of, kept_body, evaluate_request_lem, left_body}
use peretum.Prelude.Streams.{Stream, max_int64, read_all, rest_of, length-take, read_all_full}
use peretum.Waf.Request.{
  GeoEnv, Request, client_ip, evaluate_request, read_limit, body_limit, body_text, Param, p_host,
  p_user_agent, p_referer, p_cookie, p_url, p_path, p_query, p_method, p_ip, p_country, p_asn,
  p_asn_org, p_city, p_body, p_arg, p_header, p_unknown, param_of, filled,
}
use peretum.Waf.{Env}

body_text_over : (max : ℕ) (b : Bytes) → body_limit max < length b → (body_text max (some b)).1 ≡ []
unfolding body_text
body_text_over max b h = rw (lt→ltb (body_limit max) (length b) h) refl

-- A body over the limit is read, but not kept.
kept_body_over :
    (max : ℕ) (s : Stream)
    → body_limit max < length s.unread
    → body_limit max < max_int64
    → kept_body max (some s) ≡ []
unfolding kept_body
kept_body_over max s over small =
    let n = body_limit max + 1 in
    let within : read_limit max ≡ n = ground arith in
    ap (λ (k : ℕ). (body_text max (read_all k s)).1) within
    ∙ ap (λ (o : Option Bytes). (body_text max o).1) (read_all_full n s (omega arith))
    ∙ body_text_over max (take n s.unread) (omega (arith, length-take n s.unread (omega arith)))

-- The values of a request without a body.
value_without_body :
    (env : Env) (ge : GeoEnv) (max : ℕ) (r : Request) (param : Param) (name : Bytes)
    → kept_body max r.body ≡ []
    → value env ge max r param name ≡ value env ge max (record r { body = none }) param name
unfolding value kept_body client_ip
value_without_body env ge max r p_host name h = refl
value_without_body env ge max r p_user_agent name h = refl
value_without_body env ge max r p_referer name h = refl
value_without_body env ge max r p_cookie name h = refl
value_without_body env ge max r p_url name h = refl
value_without_body env ge max r p_path name h = refl
value_without_body env ge max r p_query name h = refl
value_without_body env ge max r p_method name h = refl
value_without_body env ge max r p_ip name h = refl
value_without_body env ge max r p_country name h = refl
value_without_body env ge max r p_asn name h = refl
value_without_body env ge max r p_asn_org name h = refl
value_without_body env ge max r p_city name h = refl
value_without_body env ge max r p_body name h = ap filled h
value_without_body env ge max r p_arg name h = refl
value_without_body env ge max r p_header name h = refl
value_without_body env ge max r p_unknown name h = refl

value_of_without_body :
    (env : Env) (ge : GeoEnv) (max : ℕ) (r : Request)
    → kept_body max r.body ≡ []
    → value_of env ge max r ≡ value_of env ge max (record r { body = none })
unfolding value_of
value_of_without_body env ge max r h =
    λ i param name. value_without_body env ge max r (param_of param) name h i

-- A request whose body is longer than the limit, itself below the largest int64, is decided as the
-- same request without a body.
pub evaluate_request_oversized :
    (env : Env) (ge : GeoEnv) (max : ℕ) (rs : RuleSet) (r : Request) (s : Stream)
    → r.body ≡ some s
    → body_limit max < length s.unread
    → body_limit max < max_int64
    → (evaluate_request env ge max rs r).0
      ≡ (evaluate_request env ge max rs (record r { body = none })).0
evaluate_request_oversized env ge max rs r s b over small =
    (evaluate_request_lem env ge max rs r).0
    ∙ ap (λ (get : Bytes → Bytes → Option Bytes). evaluate env get rs)
        (value_of_without_body env ge max r
          (ap (kept_body max) b ∙ kept_body_over max s over small))
    ∙ sym (evaluate_request_lem env ge max rs (record r { body = none })).0

-- What is left of a body after at most some of its bytes.
abbrev pub IsLeft : ℕ → Option Stream → Option Stream → Type 0
IsLeft n none o = o ≡ none
IsLeft n (some s) o = (k : ℕ) × (k ≤ n) × (o ≡ some (rest_of k s))

read_limit-le : (max : ℕ) → read_limit max ≤ body_limit max + 1
read_limit-le max = ground arith

left_body-IsLeft : (max : ℕ) (o : Option Stream) → IsLeft (body_limit max + 1) o (left_body max o)
left_body-IsLeft max none = refl
left_body-IsLeft max (some s) = (read_limit max, read_limit-le max, refl)

unread-IsLeft : (n : ℕ) (o : Option Stream) → IsLeft n o o
unread-IsLeft n none = refl
unread-IsLeft n (some s) = (0, omega arith, refl)

-- The policy takes the first bytes of the body, at most the limit and one byte more, and no others.
pub evaluate_request-IsLeft :
    (env : Env) (ge : GeoEnv) (max : ℕ) (rs : RuleSet) (r : Request)
    → IsLeft (body_limit max + 1) r.body (evaluate_request env ge max rs r).1.body_stream
evaluate_request-IsLeft env ge max rs r = elim (evaluate_request_lem env ge max rs r).1.2 [
  | inl (d, b, s) ↦ rw s (unread-IsLeft (body_limit max + 1) r.body)
  | inr (d, b, s) ↦ rw s (left_body-IsLeft max r.body)
]
