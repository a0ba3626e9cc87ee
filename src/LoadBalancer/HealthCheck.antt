-- ===== src/LoadBalancer/HealthCheck.antt =====
-- internal/loadbalancer/healthcheck.go: one round of active probes. The ticker that starts a round
-- is outside the model, and so is the HTTP client: `fetch` gives the status code of a GET request
-- for a URL with headers, or none for an error of `NewRequest` or `Do`.
pub mod Recovery
use peretum.LoadBalancer.Balancer.{Balancer, get_upstreams, mark}
use peretum.LoadBalancer.{Upstream}
use peretum.Prelude.Bytes.{Bytes, codes, cut}
use peretum.Prelude.{
  ℕ, zero, suc, Bool, true, false, Option, none, some, List, [], ◌∷◌, ◌++◌, ◌==◌, if◌then◌else◌,
  length, get_elem?,
}

pub record HealthCheckConfig : Type 0 where
  pub path : Bytes
  pub interval : ℕ
  pub timeout : ℕ
  pub expected_status : ℕ
  pub headers : List (Bytes × Bytes)

-- Durations in nanoseconds.
abbrev pub default_health_check_config : HealthCheckConfig
default_health_check_config = record {
  path = codes "/healthz";
  interval = 10_000_000_000;
  timeout = 3_000_000_000;
  expected_status = 200;
  headers = [];
}

abbrev pub Fetch : Type 0
Fetch = Bytes → List (Bytes × Bytes) → Option ℕ

abbrev expected : HealthCheckConfig → ℕ
expected c = if c.expected_status == 0 then 200 else c.expected_status

abbrev is_status : ℕ → Option ℕ → Bool
is_status code none = false
is_status code (some status) = status == code

unfoldable pub probe : Fetch → HealthCheckConfig → Bytes → Bool
probe fetch config url = elim (cut url (codes "://")) [
  | none ↦ false
  | some (scheme, host) ↦
      is_status (expected config)
        (fetch (scheme ++ codes "://" ++ host ++ config.path) config.headers)
]

-- One upstream of the loop of `probeUnhealthy`, read when the loop comes to it.
unfoldable pub probe_one : Fetch → HealthCheckConfig → ℕ → Balancer → Option Upstream → Balancer
probe_one fetch config now b none = b
probe_one fetch config now b (some u) =
    if u.healthy then b else mark b u.url (probe fetch config u.url) now

-- The loop, from position `i` with `k` upstreams left; `clock i` is the time of its mark.
unfoldable pub probe_loop : Fetch → HealthCheckConfig → (ℕ → ℕ) → ℕ → ℕ → Balancer → Balancer
unfolding probe_one
probe_loop fetch config clock zero i b = b
probe_loop fetch config clock (suc k) i b =
    probe_loop fetch config clock k (suc i)
      (probe_one fetch config (clock i) b (get_elem? (get_upstreams b) i))

unfoldable pub probe_unhealthy : Fetch → HealthCheckConfig → (ℕ → ℕ) → Balancer → Balancer
unfolding probe_loop
probe_unhealthy fetch config clock b = probe_loop fetch config clock (length (get_upstreams b)) 0 b
