-- ===== src/Waf/Enforce/Laws.antt =====
-- The plugin does to a request what its rules say of the request's values.
use peretum.Prelude.Bytes.{Bytes}
use peretum.Prelude.{◌≡◌, ◌≢◌, ◌⊎◌, true, false, Option, none, some, ◌∷◌, ◌++◌}
use peretum.RateLimit.{Limits, Store, Clock, allow}
use peretum.Waf.Enforce.Pages.{block_page, limit_page}
use peretum.Waf.Enforce.{enforce, Outcome}
use peretum.Waf.Policy.{rate_limit, Decision, pass, allowed, blocked}
use peretum.Prelude.Streams.{Stream}
use peretum.Waf.Request.{Request, RequestCtx}

abbrev policy_key : Bytes → Bytes → Bytes
policy_key target location = target ++ (124 ∷ location)

module _ {L : Type 0} where
  abbrev after : Limits L → Clock → Bytes → Decision × RequestCtx → Store L → Outcome L
  after lim clock ip e s =
      let res = enforce lim clock ip e.0 s in record { response = res.0; store = res.1; ctx = e.1 }

  -- What a decision does: nothing, an answer instead of the upstream's, or a token of the limiter, and
  -- an answer if there is none.
  abbrev pub Enforces : Limits L → Clock → Bytes → Decision → Store L → Outcome L → Type 0
  Enforces lim clock ip pass s o = (o.response ≡ none) × (o.store ≡ s)
  Enforces lim clock ip (allowed rule) s o = (o.response ≡ none) × (o.store ≡ s)
  Enforces lim clock ip (blocked rule) s o =
      let asked = allow lim clock (rule.id ++ (124 ∷ ip)) rule.rps rule.burst s in
      ((rule.action ≢ rate_limit) × (o.response ≡ some (block_page rule)) × (o.store ≡ s))
      ⊎ ((rule.action ≡ rate_limit) × (asked.0 ≡ true) × (o.response ≡ none) × (o.store ≡ asked.1))
      ⊎ ((rule.action ≡ rate_limit)
          × (asked.0 ≡ false)
          × (o.response ≡ some (limit_page rule))
          × (o.store ≡ asked.1))

-- The body that the proxy is left with.
abbrev upstream_body : {L : Type 0} → Outcome L → Option Stream
upstream_body o = o.ctx.body_stream
