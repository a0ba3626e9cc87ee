-- ===== src/Waf/Request/Laws.antt =====
-- What a request's values are without the context, and that the context does not change them.
use peretum.Prelude.Bytes.{Bytes, codes}
use peretum.Prelude.Text.{is_empty}
use peretum.Prelude.{
  ℕ, ◌≡◌, refl, ap, ◌∙◌, Bool, true, false, Option, none, some, List, [], ◌∷◌, replicate, arith,
  if◌then◌else◌, Bool-cases, inl, inr, ◌⊎◌, length, ltb,
}
use peretum.Waf.Index.{ParamIndex, apply_index}
use peretum.Waf.Policy.{RuleSet, decide_all, Getter, apply_all, evaluate}
use peretum.Prelude.Streams.{Stream, read_all, rest_of}
use peretum.Waf.Request.{
  Request, Geo, GeoEnv, client_ip, RequestCtx, new_request_ctx, geo_of, ensure_geo, read_limit,
  body_text, ensure_body, Param, p_host, p_user_agent, p_referer, p_cookie, p_url, p_path, p_query,
  p_method, p_ip, p_country, p_asn, p_asn_org, p_city, p_body, p_arg, p_header, p_unknown, param_of,
  filled, asn_text, body_value, get_param, apply_request, evaluate_request, body_limit,
}
use peretum.Waf.{Env}

-- The text of the body that is kept, empty without one.
unfoldable pub kept_body : ℕ → Option Stream → Bytes
kept_body max none = []
kept_body max (some s) = (body_text max (read_all (read_limit max) s)).1

-- What is left of the body when it has been read.
abbrev pub left_body : ℕ → Option Stream → Option Stream
left_body max none = none
left_body max (some s) = some (rest_of (read_limit max) s)

-- A parameter's value, from the request alone.
unfoldable pub value : Env → GeoEnv → ℕ → Request → Param → Bytes → Option Bytes
value env ge max r param name = elim param [
  | p_host ↦ filled r.host
  | p_user_agent ↦ filled (r.header (codes "User-Agent"))
  | p_referer ↦ filled (r.header (codes "Referer"))
  | p_cookie ↦ filled (r.header (codes "Cookie"))
  | p_url ↦ some r.uri
  | p_path ↦ some r.path
  | p_query ↦ some r.raw_query
  | p_method ↦ some r.method
  | p_ip ↦ filled (client_ip r)
  | p_country ↦ filled (geo_of env ge (client_ip r)).country
  | p_asn ↦ asn_text ge (geo_of env ge (client_ip r)).asn
  | p_asn_org ↦ filled (geo_of env ge (client_ip r)).asn_org
  | p_city ↦ filled (geo_of env ge (client_ip r)).city
  | p_body ↦ filled (kept_body max r.body)
  | p_arg ↦ filled (r.query_arg name)
  | p_header ↦ filled (r.header name)
  | p_unknown ↦ none
]

unfoldable pub value_of : Env → GeoEnv → ℕ → Request → Getter
value_of env ge max r param name = value env ge max r (param_of param) name

-- The body has not been read, or it has been read once.
abbrev pub BodyIsKept : ℕ → Option Stream → RequestCtx → Type 0
BodyIsKept max o c =
    ((c.body_done ≡ false) × (c.body ≡ []) × (c.body_stream ≡ o))
    ⊎ ((c.body_done ≡ true) × (c.body ≡ kept_body max o) × (c.body_stream ≡ left_body max o))

-- A context for an address and a body: what it keeps is theirs.
abbrev pub IsFor : Env → GeoEnv → ℕ → Bytes → Option Stream → RequestCtx → Type 0
IsFor env ge max ip o c =
    (c.ip ≡ ip) × (c.geo_done ≡ true → c.geo ≡ geo_of env ge ip) × BodyIsKept max o c

ensure_geo-done :
    (env : Env) (ge : GeoEnv) (c : RequestCtx) → c.geo_done ≡ true → ensure_geo env ge c ≡ c
unfolding ensure_geo
ensure_geo-done env ge c done =
    ap (λ (b : Bool). if b then c else record c { geo_done = true; geo = geo_of env ge c.ip }) done

ensure_geo-not_done :
    (env : Env) (ge : GeoEnv) (c : RequestCtx)
    → c.geo_done ≡ false
    → ensure_geo env ge c ≡ record c { geo_done = true; geo = geo_of env ge c.ip }
unfolding ensure_geo
ensure_geo-not_done env ge c undone =
    ap (λ (b : Bool). if b then c else record c { geo_done = true; geo = geo_of env ge c.ip })
      undone

ensure_geo_lem :
    (env : Env) (ge : GeoEnv) (max : ℕ) (ip : Bytes) (o : Option Stream) (c : RequestCtx)
    → IsFor env ge max ip o c
    → ((ensure_geo env ge c).geo ≡ geo_of env ge ip) × IsFor env ge max ip o (ensure_geo env ge c)
ensure_geo_lem env ge max ip o c (e, g, b) = elim (Bool-cases c.geo_done) [
  | inl done ↦ rw (ensure_geo-done env ge c done) (g done, (e, g, b))
  | inr undone ↦
      rw (ensure_geo-not_done env ge c undone)
        (ap (geo_of env ge) e, (e, (λ t. ap (geo_of env ge) e), b))
]

body_text-kept :
    (max : ℕ) (o : Option Bytes)
    → (if is_empty (body_text max o).1 then none else some (body_text max o).0)
      ≡ filled (body_text max o).1
unfolding body_text
body_text-kept max none = refl
body_text-kept max (some b) = elim (Bool-cases (ltb (body_limit max) (length b))) [
  | inl over ↦ rw over
  | inr within ↦ rw within
]

ensure_body-done : (max : ℕ) (c : RequestCtx) → c.body_done ≡ true → ensure_body max c ≡ (c.body, c)
unfolding ensure_body
ensure_body-done max c done = ground arith

-- The first read.
abbrev after_reading : ℕ → RequestCtx → Option Stream → Bytes × RequestCtx
after_reading max c none = ([], record c { body_done = true })
after_reading max c (some s) =
    let t = body_text max (read_all (read_limit max) s) in
    (
      t.0,
      record c { body_done = true; body = t.1; body_stream = some (rest_of (read_limit max) s) },
    )

ensure_body-not_done :
    (max : ℕ) (c : RequestCtx) (o : Option Stream)
    → c.body_done ≡ false
    → c.body_stream ≡ o
    → ensure_body max c ≡ after_reading max c o
unfolding ensure_body
ensure_body-not_done max c o undone e = ground arith

ensure_body_lem :
    (env : Env) (ge : GeoEnv) (max : ℕ) (ip : Bytes) (o : Option Stream) (c : RequestCtx)
    → IsFor env ge max ip o c
    → ((body_value (ensure_body max c)).0 ≡ filled (kept_body max o))
      × IsFor env ge max ip o (ensure_body max c).1
unfolding kept_body
ensure_body_lem env ge max ip o c (e, g, inr (d, b, s)) =
    rw (ensure_body-done max c d) (ap filled b, (e, g, inr (d, b, s)))
ensure_body_lem env ge max ip none c (e, g, inl (d, b, s)) =
    rw (ensure_body-not_done max c none d s)
      (ap (λ (x : Bytes). if is_empty x then none else some []) b, (e, g, inr (refl, b, s)))
ensure_body_lem env ge max ip (some x) c (e, g, inl (d, b, s)) =
    rw (ensure_body-not_done max c (some x) d s)
      (body_text-kept max (read_all (read_limit max) x), (e, g, inr (refl, refl, refl)))

get_param-value :
    (env : Env) (ge : GeoEnv) (max : ℕ) (r : Request) (c : RequestCtx) (param : Param)
    (name : Bytes)
    → IsFor env ge max (client_ip r) r.body c
    → ((get_param env ge r max c param name).0 ≡ value env ge max r param name)
      × IsFor env ge max (client_ip r) r.body (get_param env ge r max c param name).1
unfolding get_param value
get_param-value env ge max r c p_host name i = (refl, i)
get_param-value env ge max r c p_user_agent name i = (refl, i)
get_param-value env ge max r c p_referer name i = (refl, i)
get_param-value env ge max r c p_cookie name i = (refl, i)
get_param-value env ge max r c p_url name i = (refl, i)
get_param-value env ge max r c p_path name i = (refl, i)
get_param-value env ge max r c p_query name i = (refl, i)
get_param-value env ge max r c p_method name i = (refl, i)
get_param-value env ge max r c p_ip name i = (ap filled i.0, i)
get_param-value env ge max r c p_country name i =
    let (e, j) = ensure_geo_lem env ge max (client_ip r) r.body c i in
    (ap (λ (g : Geo). filled g.country) e, j)
get_param-value env ge max r c p_asn name i =
    let (e, j) = ensure_geo_lem env ge max (client_ip r) r.body c i in
    (ap (λ (g : Geo). asn_text ge g.asn) e, j)
get_param-value env ge max r c p_asn_org name i =
    let (e, j) = ensure_geo_lem env ge max (client_ip r) r.body c i in
    (ap (λ (g : Geo). filled g.asn_org) e, j)
get_param-value env ge max r c p_city name i =
    let (e, j) = ensure_geo_lem env ge max (client_ip r) r.body c i in
    (ap (λ (g : Geo). filled g.city) e, j)
get_param-value env ge max r c p_body name i = ensure_body_lem env ge max (client_ip r) r.body c i
get_param-value env ge max r c p_arg name i = (refl, i)
get_param-value env ge max r c p_header name i = (refl, i)
get_param-value env ge max r c p_unknown name i = (refl, i)

apply_request_lem :
    (env : Env) (ge : GeoEnv) (max : ℕ) (r : Request) (c : RequestCtx)
    (params : List (Bytes × ParamIndex)) (hits : List Bool)
    → IsFor env ge max (client_ip r) r.body c
    → ((apply_request env ge r max c params hits).0
        ≡ apply_all env (value_of env ge max r) params hits)
      × IsFor env ge max (client_ip r) r.body (apply_request env ge r max c params hits).1
unfolding apply_request apply_all value_of
apply_request_lem env ge max r c [] hits i = (refl, i)
apply_request_lem env ge max r c ((param, idx) ∷ params) hits i =
    let (e, j) = get_param-value env ge max r c (param_of param) idx.name i in
    let v = get_param env ge r max c (param_of param) idx.name in
    let (f, k) = apply_request_lem env ge max r v.1 params (apply_index env idx hits v.0) j in
    (
      f
          ∙ ap
              (λ (x : Option Bytes).
                apply_all env (value_of env ge max r) params (apply_index env idx hits x))
              e,
      k,
    )

pub new_request_ctx-IsFor :
    (env : Env) (ge : GeoEnv) (max : ℕ) (r : Request)
    → IsFor env ge max (client_ip r) r.body (new_request_ctx r)
new_request_ctx-IsFor env ge max r = (refl, (λ t. ground arith), inl (refl, refl, refl))

-- The decision on a request is that of its values, and its context stays the request's.
pub evaluate_request_lem :
    (env : Env) (ge : GeoEnv) (max : ℕ) (rs : RuleSet) (r : Request)
    → ((evaluate_request env ge max rs r).0 ≡ evaluate env (value_of env ge max r) rs)
      × IsFor env ge max (client_ip r) r.body (evaluate_request env ge max rs r).1
unfolding evaluate_request evaluate
evaluate_request_lem env ge max rs r =
    let (e, i) =
      apply_request_lem env ge max r (new_request_ctx r) rs.params (replicate rs.cond_count false)
        (new_request_ctx-IsFor env ge max r) in
    (ap (λ (hits : List Bool). decide_all hits rs.rules) e, i)
