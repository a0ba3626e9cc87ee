-- ===== src/LoadBalancer/RoundRobin.antt =====
-- `roundRobin` of internal/loadbalancer/loadbalancer.go. The counter is a uint64.
pub mod Rotation
use peretum.LoadBalancer.{Upstream, probe_candidate, all_healthy, mark_healthy, is_healthy}
use peretum.Prelude.{
  ℕ, zero, suc, ◌+◌, ◌%◌, ◌^◌, Bool, Option, none, List, ◌==◌, if◌then◌else◌, length, some,
}
use peretum.Prelude.Bytes.{Bytes}

pub record RoundRobin : Type 0 where
  pub upstreams : List Upstream
  pub idx : ℕ

unfoldable pub new_round_robin : List Upstream → RoundRobin
unfolding all_healthy
new_round_robin us = record { upstreams = all_healthy us; idx = 0 }

-- `rr.idx.Add(1)`, which wraps around.
abbrev pub bump : RoundRobin → RoundRobin
bump rr = record rr { idx = (rr.idx + 1) % 2 ^ 64 }

-- The loop of `Next`, by the rounds left; `n` is `len(rr.upstreams)`.
unfoldable pub next_loop : ℕ → ℕ → RoundRobin → RoundRobin × Option ℕ
next_loop n zero rr = (rr, probe_candidate rr.upstreams)
next_loop n (suc k) rr =
    let rest = next_loop n k (bump rr) in
    if is_healthy rr.upstreams (rr.idx % n) then (bump rr, some (rr.idx % n)) else rest

unfoldable pub next : RoundRobin → RoundRobin × Option ℕ
unfolding next_loop
next rr =
    if length rr.upstreams == 0
    then (rr, none)
    else next_loop (length rr.upstreams) (length rr.upstreams) rr

unfoldable pub mark : RoundRobin → Bytes → Bool → ℕ → RoundRobin
unfolding mark_healthy
mark rr url healthy now = record rr { upstreams = mark_healthy rr.upstreams url healthy now }
