-- ===== src/Waf/Request.antt =====
-- `requestCtx` of plugins/waf/waf.go: the values of a request that the conditions read, each looked
-- up at most once, with `clientIP`.
pub mod Laws
pub mod Bodies
use peretum.Prelude.Bytes.{Bytes, codes, equal}
use peretum.Prelude.Streams.{Stream, one_more, read_all, rest_of}
use peretum.Prelude.Text.{trim_space, before, is_empty}
use peretum.Prelude.{
  ℕ, ◌+◌, ◌%◌, ◌/◌, Bool, true, false, ◌&&◌, not, Option, none, some, List, [], ◌∷◌, ◌++◌, ◌==◌,
  ltb, replicate, length, take, drop, if◌then◌else◌,
}
use peretum.Waf.Index.{ParamIndex, apply_index}
use peretum.Waf.Policy.{RuleSet, Decision, decide_all}
use peretum.Waf.{Env}

-- `header` is `Header.Get`, `query_arg` is `URL.Query().Get`, `split_host_port` is
-- `net.SplitHostPort` of the remote address, without the port.
pub record Request : Type 0 where
  pub host : Bytes
  pub method : Bytes
  pub uri : Bytes
  pub path : Bytes
  pub raw_query : Bytes
  pub header : Bytes → Bytes
  pub query_arg : Bytes → Bytes
  pub remote_addr : Bytes
  pub split_host_port : Option Bytes
  pub body : Option Stream

pub record Geo : Type 0 where
  pub country : Bytes
  pub asn : ℕ
  pub asn_org : Bytes
  pub city : Bytes

abbrev pub no_geo : Geo
no_geo = record { country = []; asn = 0; asn_org = []; city = [] }

-- The geolocation databases by address and `strconv.FormatUint`.
pub record GeoEnv : Type 0 where
  pub geo_lookup : Option (Bytes → Geo)
  pub format_uint : ℕ → Bytes

-- The first hop: 44 is ",". A comma in front is no end of a hop.
unfoldable pub first_hop : Bytes → Bytes
first_hop [] = []
first_hop (c ∷ s) = if c == 44 then c ∷ s else before 44 (c ∷ s)

unfoldable pub client_ip : Request → Bytes
unfolding first_hop
client_ip r =
    let real = r.header (codes "X-Real-IP") in
    let forwarded = r.header (codes "X-Forwarded-For") in
    if not (is_empty real)
    then trim_space real
    else if not (is_empty forwarded)
    then trim_space (first_hop forwarded)
    else elim r.split_host_port [ none ↦ r.remote_addr | some host ↦ host ]

-- `body_stream` is the body of the shared request.
pub record RequestCtx : Type 0 where
  pub ip : Bytes
  pub geo_done : Bool
  pub geo : Geo
  pub body_done : Bool
  pub body : Bytes
  pub body_stream : Option Stream

abbrev pub new_request_ctx : Request → RequestCtx
new_request_ctx r = record {
  ip = client_ip r;
  geo_done = false;
  geo = no_geo;
  body_done = false;
  body = [];
  body_stream = r.body;
}

abbrev pub geo_of : Env → GeoEnv → Bytes → Geo
geo_of env ge ip = elim ge.geo_lookup [
  | none ↦ no_geo
  | some find ↦ elim (env.parse_ip (trim_space ip)) [ none ↦ no_geo | some a ↦ find a ]
]

unfoldable pub ensure_geo : Env → GeoEnv → RequestCtx → RequestCtx
ensure_geo env ge c =
    if c.geo_done then c else record c { geo_done = true; geo = geo_of env ge c.ip }

-- A limit of 0, or below, is the default, 1 << 20.
abbrev pub body_limit : ℕ → ℕ
body_limit max = if max == 0 then 1048576 else max

abbrev pub read_limit : ℕ → ℕ
read_limit max = one_more (body_limit max)

-- What `ensureBody` returns when it reads, and what it keeps in `body`.
unfoldable pub body_text : ℕ → Option Bytes → Bytes × Bytes
body_text max none = ([], [])
body_text max (some b) =
    if ltb (body_limit max) (length b)
    then (take (body_limit max) b ++ codes "... [truncated]", [])
    else (b, b)

unfoldable pub ensure_body : ℕ → RequestCtx → Bytes × RequestCtx
ensure_body max c = if c.body_done then (c.body, c) else elim c.body_stream [
  | none ↦ ([], record c { body_done = true })
  | some s ↦
      let t = body_text max (read_all (read_limit max) s) in
      (
        t.0,
        record c { body_done = true; body = t.1; body_stream = some (rest_of (read_limit max) s) },
      )
]

-- The parameters of `get`.
pub data Param : Type 0 where
  p_host p_user_agent p_referer p_cookie p_url p_path p_query p_method p_ip : Param
  p_country p_asn p_asn_org p_city p_body p_arg p_header p_unknown : Param

unfoldable pub param_of : Bytes → Param
param_of param =
    if equal param (codes "host")
    then p_host
    else if equal param (codes "user_agent")
    then p_user_agent
    else if equal param (codes "referer")
    then p_referer
    else if equal param (codes "cookie")
    then p_cookie
    else if equal param (codes "url")
    then p_url
    else if equal param (codes "path")
    then p_path
    else if equal param (codes "query")
    then p_query
    else if equal param (codes "method")
    then p_method
    else if equal param (codes "ip")
    then p_ip
    else if equal param (codes "country")
    then p_country
    else if equal param (codes "asn")
    then p_asn
    else if equal param (codes "asn_org")
    then p_asn_org
    else if equal param (codes "city")
    then p_city
    else if equal param (codes "body")
    then p_body
    else if equal param (codes "arg")
    then p_arg
    else if equal param (codes "header")
    then p_header
    else p_unknown

-- A text that is present if it is not empty.
abbrev pub filled : Bytes → Option Bytes
filled v = if is_empty v then none else some v

abbrev pub asn_text : GeoEnv → ℕ → Option Bytes
asn_text ge asn = if asn == 0 then none else some (ge.format_uint asn)

-- A value that is not present is never looked at: it is `none`.
abbrev pub body_value : Bytes × RequestCtx → Option Bytes × RequestCtx
body_value b = (if is_empty b.1.body then none else some b.0, b.1)

unfoldable pub get_param :
    Env → GeoEnv → Request → ℕ → RequestCtx → Param → Bytes → Option Bytes × RequestCtx
get_param env ge r max c param name = elim param [
  | p_host ↦ (filled r.host, c)
  | p_user_agent ↦ (filled (r.header (codes "User-Agent")), c)
  | p_referer ↦ (filled (r.header (codes "Referer")), c)
  | p_cookie ↦ (filled (r.header (codes "Cookie")), c)
  | p_url ↦ (some r.uri, c)
  | p_path ↦ (some r.path, c)
  | p_query ↦ (some r.raw_query, c)
  | p_method ↦ (some r.method, c)
  | p_ip ↦ (filled c.ip, c)
  | p_country ↦ (filled (ensure_geo env ge c).geo.country, ensure_geo env ge c)
  | p_asn ↦ (asn_text ge (ensure_geo env ge c).geo.asn, ensure_geo env ge c)
  | p_asn_org ↦ (filled (ensure_geo env ge c).geo.asn_org, ensure_geo env ge c)
  | p_city ↦ (filled (ensure_geo env ge c).geo.city, ensure_geo env ge c)
  | p_body ↦ body_value (ensure_body max c)
  | p_arg ↦ (filled (r.query_arg name), c)
  | p_header ↦ (filled (r.header name), c)
  | p_unknown ↦ (none, c)
]

-- The loop of `evaluate` over the parameters.
unfoldable pub apply_request :
    Env
    → GeoEnv
    → Request
    → ℕ
    → RequestCtx
    → List (Bytes × ParamIndex)
    → List Bool
    → List Bool × RequestCtx
apply_request env ge r max c [] hits = (hits, c)
apply_request env ge r max c ((param, idx) ∷ params) hits =
    let v = get_param env ge r max c (param_of param) idx.name in
    apply_request env ge r max v.1 params (apply_index env idx hits v.0)

-- `evaluate` on a request, with the context that it leaves.
unfoldable pub evaluate_request : Env → GeoEnv → ℕ → RuleSet → Request → Decision × RequestCtx
unfolding apply_request
evaluate_request env ge max rs r =
    let res =
      apply_request env ge r max (new_request_ctx r) rs.params (replicate rs.cond_count false) in
    (decide_all res.0 rs.rules, res.1)
