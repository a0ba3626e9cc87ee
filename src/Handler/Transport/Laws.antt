-- ===== src/Handler/Transport/Laws.antt =====
-- Round trips: the upstream, the request that it gets, and its health.
use peretum.Handler.Headers.{Canon, sanitize_response_headers}
use peretum.Handler.Transport.{
  Outgoing, Answer, Capture, Response, Send, body_cap, read_body, redirect_to, captured, balanced,
  forward, url_at, Request, round_trip,
}
use peretum.Handler.Transport.Bodies.{IsWithin, Exceeds, read_body_lem}
use peretum.LoadBalancer.Balancer.Contract.{IsReady, next-Selects}
use peretum.LoadBalancer.Balancer.{Balancer, get_upstreams, next, mark}
use peretum.LoadBalancer.Maglev.{has_healthy}
use peretum.LoadBalancer.{Upstream}
use peretum.Prelude.Bytes.{Bytes, codes, cut, cut-cases}
use peretum.Prelude.Int.{ℤ}
use peretum.Prelude.Streams.{max_int64}
use peretum.Prelude.{
  ℕ, ◌≡◌, ◌≢◌, ◌++◌, refl, ap, ◌∙◌, true, false, Option, none, some, List, [], get_elem?, arith,
  ◌⊎◌, inl, inr, Option-cases,
}

-- What becomes of the request that is sent on to a URL: its headers and its host stay, and it goes to
-- the scheme and the host of the URL, or where it went before if the URL has no scheme.
abbrev pub IsDirected : Outgoing → Bytes → Outgoing → Type 0
IsDirected r target o =
    (o.headers ≡ r.headers)
    × (o.host ≡ r.host)
    × (((scheme : Bytes) × (rest : Bytes) × (target ≡ scheme ++ (codes "://" ++ rest))
          × (o.url ≡ record { scheme = scheme; host = rest }))
        ⊎ ((cut target (codes "://") ≡ none) × (o.url ≡ r.url)))

redirect_to-IsDirected :
    (r : Outgoing) (target : Bytes) → IsDirected r target (redirect_to r target)
unfolding redirect_to
redirect_to-IsDirected r target = elim (cut-cases target (codes "://")) [
  | inl e ↦ rw e (refl, refl, inr (refl, refl))
  | inr (scheme, rest, e, parts) ↦ rw e (refl, refl, inl (scheme, rest, parts, refl))
]

-- The three ways in which a round trip behind the choice of the upstream ends for the request that is
-- sent: without an answer, or with one whose body fails or is over the limit, it is marked down without
-- a response and without a new body in the capture; or it answered and is marked up, with its whole
-- body, within the limit, in the response and in the capture, and with headers that do not disclose it.
abbrev pub Ends :
    Canon
    → Send
    → ℤ
    → ℕ
    → Outgoing
    → Bytes
    → Balancer
    → Capture
    → Balancer × Capture × Option Response
    → Type 0
Ends canon send max now o target lb capture r =
    ((send o ≡ none)
      × (r.0 ≡ mark lb target false now)
      × (r.1 ≡ record capture { selected_upstream = target })
      × (r.2 ≡ none))
    ⊎ ((a : Answer) × (send o ≡ some a)
        × ((a.body.fails ≡ true) ⊎ Exceeds (body_cap max) a.body.unread)
        × (r.0 ≡ mark lb target false now)
        × (r.1.body ≡ capture.body)
        × (r.2 ≡ none))
    ⊎ ((a : Answer) × (send o ≡ some a)
        × (a.body.fails ≡ false)
        × IsWithin (body_cap max) a.body.unread
        × (r.0 ≡ mark lb target true now)
        × (r.1 ≡ captured canon target a a.body.unread)
        × (r.2
            ≡ some (record {
              status_code = a.status_code;
              headers = sanitize_response_headers canon a.headers;
              body = a.body.unread;
            })))

forward_lost :
    (canon : Canon) (send : Send) (max : ℤ) (now : ℕ) (o : Outgoing) (target : Bytes)
    (lb : Balancer) (capture : Capture)
    → send o ≡ none
    → forward canon send max now o target lb capture
      ≡ (mark lb target false now, record capture { selected_upstream = target }, none)
unfolding forward
forward_lost canon send max now o target lb capture e = ground arith

forward_cut_off :
    (canon : Canon) (send : Send) (max : ℤ) (now : ℕ) (o : Outgoing) (target : Bytes)
    (lb : Balancer) (capture : Capture) (a : Answer)
    → send o ≡ some a
    → read_body (body_cap max) a.body ≡ none
    → forward canon send max now o target lb capture ≡ (
      mark lb target false now,
      record capture {
        status_code = a.status_code;
        headers = a.headers;
        selected_upstream = target;
      },
      none,
    )
unfolding forward
forward_cut_off canon send max now o target lb capture a e f = ground arith

forward_answered :
    (canon : Canon) (send : Send) (max : ℤ) (now : ℕ) (o : Outgoing) (target : Bytes)
    (lb : Balancer) (capture : Capture) (a : Answer) (b : Bytes)
    → send o ≡ some a
    → read_body (body_cap max) a.body ≡ some b
    → forward canon send max now o target lb capture ≡ (
      mark lb target true now,
      captured canon target a b,
      some (record {
        status_code = a.status_code;
        headers = sanitize_response_headers canon a.headers;
        body = b;
      }),
    )
unfolding forward
forward_answered canon send max now o target lb capture a b e f = ground arith

forward-Ends :
    (canon : Canon) (send : Send) (max : ℤ) (now : ℕ) (o : Outgoing) (target : Bytes)
    (lb : Balancer) (capture : Capture)
    → body_cap max ≢ some max_int64
    → Ends canon send max now o target lb capture (forward canon send max now o target lb capture)
forward-Ends canon send max now o target lb capture below = elim (Option-cases (send o)) [
  | inl lost ↦
      rw (forward_lost canon send max now o target lb capture lost) (inl (lost, refl, refl, refl))
  | inr (a, sent) ↦ elim (read_body_lem (body_cap max) a.body below) [
    | inl (short, why) ↦
        rw (forward_cut_off canon send max now o target lb capture a sent short)
          (inr (inl (a, sent, why, refl, refl, refl)))
    | inr (got, whole, within) ↦
        rw (forward_answered canon send max now o target lb capture a a.body.unread sent got)
          (inr (inr (a, sent, whole, within, refl, refl, refl)))
  ]
]

url_at_found :
    (us : List Upstream) (i : ℕ) (u : Upstream)
    → get_elem? us i ≡ some u
    → url_at us (some i) ≡ some u.url
unfolding url_at
url_at_found us i u h = ground arith

balanced_found :
    (canon : Canon) (send : Send) (max : ℤ) (now : ℕ) (r : Request) (capture : Capture)
    (lb : Balancer) (picked : Option ℕ) (target : Bytes)
    → url_at (get_upstreams lb) picked ≡ some target
    → balanced canon send max now r capture (lb, picked)
      ≡ forward canon send max now (redirect_to r.outgoing target) target lb capture
balanced_found canon send max now r capture lb picked target e = ground arith

round_trip_picked :
    (size : ℕ) (canon : Canon) (send : Send) (max : ℤ) (now : ℕ) (r : Request) (lb : Balancer)
    (capture : Capture) (picked : Balancer × Option ℕ)
    → next size lb r.path r.raw_query ≡ some picked
    → round_trip size canon send [] max now r lb capture
      ≡ some (balanced canon send max now r capture picked)
unfolding round_trip
round_trip_picked size canon send max now r lb capture picked e = rw e refl

-- With a ready balancer that has a healthy upstream, no pinned upstream, and a limit on the body other
-- than the largest int64, a round trip does not panic. The request goes once, with its headers and its
-- host, to the scheme and the host of the URL of a healthy upstream. Without an answer, or with a body
-- that fails or is over the limit, that upstream is marked down and there is no response; else it is
-- marked up, and the response and the capture have its status, its whole body and its sanitized
-- headers.
pub round_trip-Ends :
    (size : ℕ) (canon : Canon) (send : Send) (max : ℤ) (now : ℕ) (r : Request) (lb : Balancer)
    (capture : Capture)
    → IsReady size lb
    → has_healthy (get_upstreams lb) ≡ true
    → body_cap max ≢ some max_int64
    → (lb' : Balancer) × (i : ℕ) × (u : Upstream) × (o : Outgoing) × (res : Balancer
        × Capture
        × Option Response)
      × (get_upstreams lb' ≡ get_upstreams lb)
      × (get_elem? (get_upstreams lb) i ≡ some u)
      × (u.healthy ≡ true)
      × IsDirected r.outgoing u.url o
      × (round_trip size canon send [] max now r lb capture ≡ some res)
      × Ends canon send max now o u.url lb' capture res
round_trip-Ends size canon send max now r lb capture ready up below =
    let (lb', picked, e, same, chosen) = next-Selects size lb r.path r.raw_query ready in
    elim chosen [
      | inr (down, probed) ↦ absurd (ground arith)
      | inl (i, here, healthy) ↦ elim (Option-cases (get_elem? (get_upstreams lb) i)) [
        | inl out ↦ absurd (ground arith)
        | inr (u, found) ↦
            let o = redirect_to r.outgoing u.url in
            let at : url_at (get_upstreams lb') picked ≡ some u.url =
              ap (λ (x : Option ℕ). url_at (get_upstreams lb') x) here
              ∙ ap (λ (us : List Upstream). url_at us (some i)) same
              ∙ url_at_found (get_upstreams lb) i u found in
            (
              lb',
              i,
              u,
              o,
              forward canon send max now o u.url lb' capture,
              same,
              found,
              ground arith,
              redirect_to-IsDirected r.outgoing u.url,
              round_trip_picked size canon send max now r lb capture (lb', picked) e
                  ∙ ap some (balanced_found canon send max now r capture lb' picked u.url at),
              forward-Ends canon send max now o u.url lb' capture below,
            )
      ]
    ]
