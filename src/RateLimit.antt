-- ===== src/RateLimit.antt =====
-- plugins/ratelimit/store.go: token buckets by key, shared by the requests.
pub mod Maps
pub mod Buckets
mod Tests
use peretum.Prelude.Bytes.{Bytes, equal}
use peretum.Prelude.Dict.{lookup, assign, delete}
use peretum.Prelude.{
  ℕ, ◌+◌, ◌-◌, ◌%◌, Bool, true, false, ◌&&◌, Option, none, some, List, [], ◌∷◌, ◌++◌, ◌==◌, ltb,
  length, if◌then◌else◌,
}

-- The limiters of golang.org/x/time/rate and float64, whose values are named by their bits: `unset`
-- is `rps <= 0` and `positive` is `v > 0`, both false for NaN.
pub record Limits (L : Type 0) : Type 0 where
  pub new_limiter : ℕ → ℕ → L
  pub limiter_allow : L → ℕ → Bool × L
  pub unset : ℕ → Bool
  pub positive : ℕ → Bool
  pub float_eq : ℕ → ℕ → Bool

-- `limiters`, `params` and `lastSeen`.
pub record Store (L : Type 0) : Type 0 where
  pub limiters : List (Bytes × L)
  pub params : List (Bytes × (ℕ × ℕ))
  pub last_seen : List (Bytes × ℕ)

abbrev pub new_store : {L : Type 0} → Store L
new_store = record { limiters = []; params = []; last_seen = [] }

-- When a call reads the clock: for `lastSeen`, in the limiter and for the sweep, in nanoseconds.
pub record Clock : Type 0 where
  pub seen : ℕ
  pub asked : ℕ
  pub checked : ℕ

-- Five minutes.
abbrev pub ttl : ℕ
ttl = 300000000000

-- The bits of 100.
abbrev pub default_rps : ℕ
default_rps = 4636737291354636288

abbrev pub rates : {L : Type 0} → Limits L → ℕ → ℕ → ℕ × ℕ
rates lim rps burst =
    (if lim.unset rps then default_rps else rps, if burst == 0 then 200 else burst)

abbrev pub same_rates : {L : Type 0} → Limits L → ℕ × ℕ → ℕ × ℕ → Bool
same_rates lim p q = lim.float_eq p.0 q.0 && p.1 == q.1

abbrev pub or_zero : Option (ℕ × ℕ) → ℕ × ℕ
or_zero none = (0, 0)
or_zero (some p) = p

abbrev pub new_bucket : {L : Type 0} → Limits L → Bytes → ℕ × ℕ → Store L → L × Store L
new_bucket lim key p s =
    let l = lim.new_limiter p.0 p.1 in
    (l, record s { limiters = assign key l s.limiters; params = assign key p s.params })

-- The limiter of a call, and the store that has it.
unfoldable pub limiter_for : {L : Type 0} → Limits L → Bytes → ℕ × ℕ → Store L → L × Store L
limiter_for lim key p s = elim (lookup key s.limiters) [
  | none ↦ new_bucket lim key p s
  | some l ↦
      if same_rates lim (or_zero (lookup key s.params)) p then (l, s) else new_bucket lim key p s
]

abbrev pub forget : {L : Type 0} → Bytes → Store L → Store L
forget k s = record {
  limiters = delete k s.limiters;
  params = delete k s.params;
  last_seen = delete k s.last_seen;
}

-- The loop over `lastSeen`, with the entries that it visits.
unfoldable pub sweep : {L : Type 0} → ℕ → List (Bytes × ℕ) → Store L → Store L
sweep now [] s = s
sweep now ((k, t) ∷ seen) s = sweep now seen (if ltb ttl (now - t) then forget k s else s)

-- The limiter is shared, so that the map has its new state.
unfoldable pub touched : {L : Type 0} → Limits L → Clock → Bytes → ℕ × ℕ → Store L → Bool × Store L
touched lim clock key p s =
    let found = limiter_for lim key p s in
    let answer = lim.limiter_allow found.0 clock.asked in
    (
      answer.0,
      record found.1 {
        limiters = assign key answer.1 found.1.limiters;
        last_seen = assign key clock.seen found.1.last_seen;
      },
    )

-- The method `Allow`. A burst of 0, or below, is 200.
unfoldable pub allow : {L : Type 0} → Limits L → Clock → Bytes → ℕ → ℕ → Store L → Bool × Store L
allow lim clock key rps burst s =
    let r = touched lim clock key (rates lim rps burst) s in
    (r.0, if length r.1.limiters % 1024 == 0 then sweep clock.checked r.1.last_seen r.1 else r.1)

-- `RateLimitPlugin` of plugins/ratelimit/ratelimit.go: the rates that every request gets.
pub record RateLimitPlugin : Type 0 where
  pub enabled : Bool
  pub rps : ℕ
  pub burst : ℕ

-- The entries of the configuration, `none` for a missing one or one of another type; of the two
-- numbers of `burst` at most one is there.
pub record RateLimitConfig : Type 0 where
  pub enabled : Bool
  pub rps : Option ℕ
  pub requests_per_second : Option ℕ
  pub burst : Option (Bool × ℕ)

abbrev pub new_rate_limit_plugin : RateLimitPlugin
new_rate_limit_plugin = record { enabled = false; rps = default_rps; burst = 200 }

abbrev pub positive_rate : {L : Type 0} → Limits L → Option ℕ → ℕ → ℕ
positive_rate lim none rps = rps
positive_rate lim (some v) rps = if lim.positive v then v else rps

-- Whether it is above 0, and its whole part.
abbrev pub positive_burst : Option (Bool × ℕ) → ℕ → ℕ
positive_burst none burst = burst
positive_burst (some (above, v)) burst = if above then v else burst

unfoldable pub init : {L : Type 0} → Limits L → RateLimitConfig → RateLimitPlugin → RateLimitPlugin
init lim config p = record {
  enabled = config.enabled;
  rps = positive_rate lim config.requests_per_second (positive_rate lim config.rps p.rps);
  burst = positive_burst config.burst p.burst;
}

-- The target and the host of the remote address, or that address if `net.SplitHostPort` fails. 124
-- is "|".
abbrev pub host_of : Option Bytes → Bytes → Bytes
host_of none remote_addr = remote_addr
host_of (some host) remote_addr = host

unfoldable pub request_key : Bytes → Option Bytes → Bytes → Bytes
request_key target split remote_addr = target ++ (124 ∷ host_of split remote_addr)

-- `BeforeProxy`: false is the answer 429, with `Retry-After`.
unfoldable pub before_proxy :
    {L : Type 0}
    → Limits L
    → Clock
    → RateLimitPlugin
    → Bytes
    → Option Bytes
    → Bytes
    → Store L
    → Bool × Store L
before_proxy lim clock p target split remote_addr s =
    if p.enabled
    then allow lim clock (request_key target split remote_addr) p.rps p.burst s
    else (true, s)
