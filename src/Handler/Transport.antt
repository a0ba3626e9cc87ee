-- ===== src/Handler/Transport.antt =====
-- internal/handler/transport.go: a proxied request goes to the upstream that the location pins or
-- the load balancer picks, and what happens to it sets the upstream's health.
pub mod Bodies
pub mod Laws
use peretum.Handler.Headers.{Header, Canon, header_get, sanitize_response_headers}
use peretum.LoadBalancer.Balancer.{Balancer, get_upstreams, next, mark}
use peretum.LoadBalancer.{Upstream}
use peretum.Prelude.Bytes.{Bytes, codes, equal, cut, has_prefix}
use peretum.Prelude.Int.{ℤ, pos, negsuc}
use peretum.Prelude.Streams.{Stream, one_more, read_all}
use peretum.Prelude.Text.{is_empty}
use peretum.Prelude.{
  ℕ, zero, suc, ◌+◌, Bool, true, false, Option, none, some, ◌>>=◌, List, [], ◌∷◌, ltb, length,
  get_elem?, if◌then◌else◌,
}

-- The scheme and the host of a URL; its path and query are those of the request.
pub record Url : Type 0 where
  pub scheme : Bytes
  pub host : Bytes

-- A request on its way to the upstream: its URL, its headers, and the host that it names.
pub record Outgoing : Type 0 where
  pub url : Url
  pub headers : Header
  pub host : Bytes

pub record Answer : Type 0 where
  pub status_code : ℕ
  pub headers : Header
  pub body : Stream

-- The fields of `capturingTransport` that a round trip sets.
pub record Capture : Type 0 where
  pub status_code : ℕ
  pub headers : Header
  pub body : Bytes
  pub selected_upstream : Bytes

abbrev pub new_capture : Capture
new_capture = record { status_code = 0; headers = []; body = []; selected_upstream = [] }

pub record Response : Type 0 where
  pub status_code : ℕ
  pub headers : Header
  pub body : Bytes

-- The transport of net/http, `none` for an error.
abbrev pub Send : Type 0
Send = Outgoing → Option Answer

abbrev pub max_body_read_size : ℕ
max_body_read_size = 52428800

-- A limit below 0 is none, and 0 is the default.
abbrev pub body_cap : ℤ → Option ℕ
body_cap (negsuc n) = none
body_cap (pos zero) = some max_body_read_size
body_cap (pos (suc n)) = some (suc n)

-- The body, `none` for a failed read or one over the limit.
unfoldable pub read_body : Option ℕ → Stream → Option Bytes
read_body none s = if s.fails then none else some s.unread
read_body (some limit) s =
    read_all (one_more limit) s >>= λ b. if ltb limit (length b) then none else some b

-- A balanced request is pointed at the URL of the upstream, if that has a scheme.
abbrev pub redirected : Outgoing → Option (Bytes × Bytes) → Outgoing
redirected o none = o
redirected o (some (scheme, rest)) = record o { url = record { scheme = scheme; host = rest } }

unfoldable pub redirect_to : Outgoing → Bytes → Outgoing
redirect_to o target = redirected o (cut target (codes "://"))

abbrev pub captured : Canon → Bytes → Answer → Bytes → Capture
captured canon target a b = record {
  status_code = a.status_code;
  headers = sanitize_response_headers canon a.headers;
  body = b;
  selected_upstream = target;
}

-- The part behind the choice of the upstream. A failed read leaves the answer's status and headers in
-- the capture.
unfoldable pub forward :
    Canon
    → Send
    → ℤ
    → ℕ
    → Outgoing
    → Bytes
    → Balancer
    → Capture
    → Balancer × Capture × Option Response
forward canon send max now o target lb capture =
    let chosen = record capture { selected_upstream = target } in
    elim (send o) [
      | none ↦ (mark lb target false now, chosen, none)
      | some a ↦ elim (read_body (body_cap max) a.body) [
        | none ↦ (
          mark lb target false now,
          record chosen { status_code = a.status_code; headers = a.headers },
          none,
        )
        | some b ↦ (
          mark lb target true now,
          captured canon target a b,
          some (record {
            status_code = a.status_code;
            headers = sanitize_response_headers canon a.headers;
            body = b;
          }),
        )
      ]
    ]

-- The URL of the picked upstream; nil and a position out of range are `none`.
unfoldable pub url_at : List Upstream → Option ℕ → Option Bytes
url_at us none = none
url_at us (some i) = elim (get_elem? us i) [ none ↦ none | some u ↦ some u.url ]

pub record Request : Type 0 where
  pub outgoing : Outgoing
  pub path : Bytes
  pub raw_query : Bytes

abbrev pub balanced :
    Canon
    → Send
    → ℤ
    → ℕ
    → Request
    → Capture
    → Balancer × Option ℕ
    → Balancer × Capture × Option Response
balanced canon send max now r capture picked = elim (url_at (get_upstreams picked.0) picked.1) [
  | none ↦ (picked.0, capture, none)
  | some target ↦ forward canon send max now (redirect_to r.outgoing target) target picked.0 capture
]

-- The method `RoundTrip`, where `none` as the whole result is a panic of the balancer.
unfoldable pub round_trip :
    ℕ
    → Canon
    → Send
    → Bytes
    → ℤ
    → ℕ
    → Request
    → Balancer
    → Capture
    → Option (Balancer × Capture × Option Response)
round_trip size canon send pinned max now r lb capture =
    if is_empty pinned
    then (next size lb r.path r.raw_query >>= λ picked.
        some (balanced canon send max now r capture picked))
    else some (forward canon send max now r.outgoing pinned lb capture)

-- `grpcTransport.RoundTrip`, whose answer is passed on as a stream: the first of the two transports
-- is for TLS.
unfoldable pub forward_grpc :
    Send → Send → ℕ → Outgoing → Bytes → Balancer → Balancer × Option Answer
forward_grpc tls h2c now o target lb =
    elim (if equal o.url.scheme (codes "https") then tls o else h2c o) [
      | none ↦ (mark lb target false now, none)
      | some a ↦ (mark lb target true now, some a)
    ]

unfoldable pub round_trip_grpc :
    ℕ → Send → Send → Bytes → ℕ → Request → Balancer → Option (Balancer × Option Answer)
round_trip_grpc size tls h2c pinned now r lb =
    if is_empty pinned
    then (next size lb r.path r.raw_query >>= λ picked.
        some (elim (url_at (get_upstreams picked.0) picked.1) [
          | none ↦ (picked.0, none)
          | some target ↦ forward_grpc tls h2c now (redirect_to r.outgoing target) target picked.0
        ]))
    else some (forward_grpc tls h2c now r.outgoing pinned lb)

unfoldable pub is_grpc_request : Canon → Header → Bool
is_grpc_request canon h =
    has_prefix (header_get canon (codes "Content-Type") h) (codes "application/grpc")
