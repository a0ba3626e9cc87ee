-- ===== src/Waf/Enforce.antt =====
-- `BeforeProxy`, `blockConfig` and `writeBlock` of plugins/waf/waf.go: what a decision does to the
-- request.
pub mod Pages
pub mod Laws
use peretum.Prelude.Bytes.{Bytes, codes, equal}
use peretum.Prelude.Dict.{lookup}
use peretum.Prelude.Text.{is_empty}
use peretum.Prelude.{
  ℕ, Bool, true, false, not, Option, none, some, List, [], ◌∷◌, ◌++◌, ◌==◌, if◌then◌else◌,
}
use peretum.RateLimit.{Limits, Store, Clock, allow}
use peretum.Waf.Policy.{
  Action, deny, rate_limit, log, other, Rule, RuleSet, Decision, pass, allowed, blocked,
}
use peretum.Waf.Request.{GeoEnv, Request, RequestCtx, new_request_ctx, client_ip, evaluate_request}
use peretum.Waf.{Env}

-- What is written instead of proxying.
pub record Response : Type 0 where
  pub headers : List (Bytes × Bytes)
  pub status : ℕ
  pub text : Bytes

abbrev pub default_message : Bytes
default_message = codes "Request blocked by WAF"

-- The status and the message of a rule.
unfoldable pub block_config : Rule → ℕ × Bytes
block_config rule = (
  if rule.code == 0 then 403 else rule.code,
  if is_empty rule.message then default_message else rule.message,
)

unfoldable pub write_block : List (Bytes × Bytes) → ℕ → Bytes → Response
write_block headers status message = record {
  headers =
      headers
      ++ (codes "Content-Type", codes "text/plain; charset=utf-8")
        ∷ (codes "X-WAF-Block", codes "true")
        ∷ [];
  status = if status == 0 then 403 else status;
  text = if is_empty message then default_message else message;
}

abbrev pub is_rate_limit : Action → Bool
is_rate_limit rate_limit = true
is_rate_limit _ = false

-- A request over its limit: the defaults of a block become those of a limit.
abbrev pub limited_status : ℕ → ℕ
limited_status status = if status == 403 then 429 else status

abbrev pub limited_message : Bytes → Bytes
limited_message message =
    if equal message default_message then codes "Too Many Requests" else message

abbrev pub limit_key : Rule → Bytes → Bytes
limit_key rule ip = rule.id ++ (124 ∷ ip)

abbrev pub refused : Rule → Response
refused rule = write_block [] (block_config rule).0 (block_config rule).1

abbrev pub over_limit : Rule → Response
over_limit rule =
    write_block ((codes "Retry-After", codes "1") ∷ []) (limited_status (block_config rule).0)
      (limited_message (block_config rule).1)

-- `none` lets the request pass.
unfoldable pub enforce :
    {L : Type 0} → Limits L → Clock → Bytes → Decision → Store L → Option Response × Store L
enforce lim clock ip pass s = (none, s)
enforce lim clock ip (allowed rule) s = (none, s)
enforce lim clock ip (blocked rule) s =
    let asked = allow lim clock (limit_key rule ip) rule.rps rule.burst s in
    if is_rate_limit rule.action
    then (if asked.0 then none else some (over_limit rule), asked.1)
    else (some (refused rule), s)

pub record Outcome (L : Type 0) : Type 0 where
  pub response : Option Response
  pub store : Store L
  pub ctx : RequestCtx

-- The configuration of the plugin: the rule sets by target and location.
pub record Plugin : Type 0 where
  pub enabled : Bool
  pub max_body_size : ℕ
  pub rule_sets : List (Bytes × RuleSet)

abbrev pub passed : {L : Type 0} → Request → Store L → Outcome L
passed r s = record { response = none; store = s; ctx = new_request_ctx r }

unfoldable pub before_proxy :
    {L : Type 0}
    → Env
    → GeoEnv
    → Limits L
    → Clock
    → Plugin
    → Bytes
    → Bytes
    → Request
    → Store L
    → Outcome L
before_proxy env ge lim clock p target location r s =
    if not p.enabled then passed r s else elim (lookup (target ++ (124 ∷ location)) p.rule_sets) [
      | none ↦ passed r s
      | some rs ↦
          let e = evaluate_request env ge p.max_body_size rs r in
          let res = enforce lim clock (client_ip r) e.0 s in
          record { response = res.0; store = res.1; ctx = e.1 }
    ]
