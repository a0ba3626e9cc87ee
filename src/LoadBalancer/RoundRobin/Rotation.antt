-- ===== src/LoadBalancer/RoundRobin/Rotation.antt =====
-- `Next` of the round-robin balancer goes through the slice cyclically from its counter.
use native.Mathlib.Nat.{mod-lt, mod-add-mod, mod-eq_of_lt, add-zero, add-mod-mod, add-mod_right}
use peretum.LoadBalancer.RoundRobin.{RoundRobin, bump, next_loop, next}
use peretum.LoadBalancer.{Upstream, probe_candidate, is_healthy}
use peretum.Prelude.{
  ℕ, zero, suc, ◌+◌, ◌-◌, ◌%◌, ◌^◌, ◌≤◌, ◌<◌, ◌≡◌, refl, true, false, some, List, arith, length,
  Bool-cases, inl, inr, lt-get_elem?, Option-cases, get_elem?,
}

-- The loop skips `j` unhealthy upstreams and takes the healthy one behind them.
loop_first_healthy :
    (n k j : ℕ) (us : List Upstream) (i : ℕ)
    → j < k
    → i + k < 2 ^ 64 + 1
    → ((m : ℕ) → m < j → is_healthy us ((i + m) % n) ≡ false)
    → is_healthy us ((i + j) % n) ≡ true
    → next_loop n k (record { upstreams = us; idx = i })
      ≡ (record { upstreams = us; idx = (i + j + 1) % 2 ^ 64 }, some ((i + j) % n))
unfolding next_loop
loop_first_healthy n zero j us i lt fits skipped found = absurd (omega arith)
loop_first_healthy n (suc k) zero us i lt fits skipped found =
    let e : i + 0 ≡ i = omega arith in
    let here : is_healthy us (i % n) ≡ true = rw e at found in rw (e, here)
loop_first_healthy n (suc k) (suc j) us i lt fits skipped found =
    let e : i + 0 ≡ i = omega arith in
    let here : is_healthy us (i % n) ≡ false = rw e at (skipped 0 (omega arith)) in
    let b : (i + 1) % 2 ^ 64 ≡ i + 1 = omega arith in
    let shift : i + 1 + j ≡ i + suc j = omega arith in
    rw (here, b)
      (rw (← shift) (
        loop_first_healthy n k j us (i + 1) (omega arith) (omega arith)
          (λ m h.
            let s : i + 1 + m ≡ i + suc m = omega arith in rw s (skipped (suc m) (omega arith)))
          (rw shift found)))

loop_none_healthy :
    (n k : ℕ) (us : List Upstream) (i : ℕ)
    → i < 2 ^ 64
    → ((m : ℕ) → is_healthy us m ≡ false)
    → next_loop n k (record { upstreams = us; idx = i })
      ≡ (record { upstreams = us; idx = (i + k) % 2 ^ 64 }, probe_candidate us)
unfolding next_loop
loop_none_healthy n zero us i b dead = let e : (i + 0) % 2 ^ 64 ≡ i = omega arith in rw e
loop_none_healthy n (suc k) us i b dead =
    let e : ((i + 1) % 2 ^ 64 + k) % 2 ^ 64 ≡ (i + suc k) % 2 ^ 64 = omega arith in
    rw (dead (i % n), ← e) (loop_none_healthy n k us ((i + 1) % 2 ^ 64) (omega arith) dead)

-- The least offset behind `i` at which an upstream is healthy.
least_offset :
    (n j : ℕ) (us : List Upstream) (i : ℕ)
    → is_healthy us ((i + j) % n) ≡ true
    → (d : ℕ) × (d ≤ j)
      × (is_healthy us ((i + d) % n) ≡ true)
      × ((m : ℕ) → m < d → is_healthy us ((i + m) % n) ≡ false)
least_offset n zero us i found = (0, omega arith, found, λ m h. absurd (omega arith))
least_offset n (suc j) us i found = elim (Bool-cases (is_healthy us (i % n))) [
  | inl here ↦ (0, omega arith, rw add-zero here, λ m h. absurd (omega arith))
  | inr gone ↦
      let shift : i + 1 + j ≡ i + suc j = omega arith in
      let (d, le, at, before) = least_offset n j us (i + 1) (rw shift found) in
      let shift' : i + 1 + d ≡ i + suc d = omega arith in
      (suc d, omega arith, rw shift' at at, λ m h. skipped d gone before m h)
]
  where
    skipped :
        (d : ℕ)
        → is_healthy us (i % n) ≡ false
        → ((m : ℕ) → m < d → is_healthy us ((i + 1 + m) % n) ≡ false)
        → (m : ℕ) → m < suc d
        → is_healthy us ((i + m) % n) ≡ false
    skipped d gone before zero h = rw add-zero gone
    skipped d gone before (suc m) h =
        let s : i + 1 + m ≡ i + suc m = omega arith in rw (← s) (before m (omega arith))

-- Some offset below `n` reaches every position.
pub offset_to : (n i p : ℕ) → p < n → (i + (p + n - i % n) % n) % n ≡ p
offset_to n i p h =
    let e : i % n + (p + n - i % n) ≡ p + n = omega (arith, mod-lt i {m = n} (omega arith)) in
    rw (add-mod-mod, ← mod-add-mod i n (p + n - i % n), e, add-mod_right) (mod-eq_of_lt h)

-- A healthy position lies within the slice.
lt_of_is_healthy : (us : List Upstream) (p : ℕ) → is_healthy us p ≡ true → p < length us
lt_of_is_healthy us p h = elim (Option-cases (get_elem? us p)) [
  | inl out ↦ absurd (ground arith)
  | inr (u, e) ↦ lt-get_elem? us p u e
]

next-loop :
    (rr : RoundRobin)
    → 0 < length rr.upstreams
    → next rr ≡ next_loop (length rr.upstreams) (length rr.upstreams) rr
unfolding next
next-loop rr h = ground arith

pub next-first_healthy :
    (rr : RoundRobin) (p : ℕ)
    → is_healthy rr.upstreams p ≡ true
    → rr.idx + length rr.upstreams ≤ 2 ^ 64
    → (d : ℕ) × (d < length rr.upstreams)
      × (next rr ≡ (
        record rr { idx = (rr.idx + d + 1) % 2 ^ 64 },
        some ((rr.idx + d) % length rr.upstreams),
      ))
      × (is_healthy rr.upstreams ((rr.idx + d) % length rr.upstreams) ≡ true)
      × ((m : ℕ) → m < d → is_healthy rr.upstreams ((rr.idx + m) % length rr.upstreams) ≡ false)
next-first_healthy rr p healthy fits =
    let n = length rr.upstreams in
    let lt = lt_of_is_healthy rr.upstreams p healthy in
    let j = (p + n - rr.idx % n) % n in
    let j_lt : j < n = mod-lt _ (omega arith) in
    let (d, le, at, before) =
      least_offset n j rr.upstreams rr.idx (rw (offset_to n rr.idx p lt) healthy) in
    let d_lt : d < n = omega arith in
    (
      d,
      d_lt,
      rw (next-loop rr (omega arith))
          (loop_first_healthy n n d rr.upstreams rr.idx d_lt (omega arith) before at),
      at,
      before,
    )

-- With every upstream unhealthy `Next` returns the probe candidate, whatever the counter is, and
-- moves the counter by one full round.
pub next-probe :
    (rr : RoundRobin)
    → 0 < length rr.upstreams
    → rr.idx < 2 ^ 64
    → ((m : ℕ) → is_healthy rr.upstreams m ≡ false)
    → next rr
      ≡ (record rr { idx = (rr.idx + length rr.upstreams) % 2 ^ 64 }, probe_candidate rr.upstreams)
next-probe rr some_left fits dead =
    rw (next-loop rr some_left)
      (loop_none_healthy (length rr.upstreams) (length rr.upstreams) rr.upstreams rr.idx fits dead)

loop-upstreams : (n k : ℕ) (rr : RoundRobin) → (next_loop n k rr).0.upstreams ≡ rr.upstreams
unfolding next_loop
loop-upstreams n zero rr = refl
loop-upstreams n (suc k) rr = ground (arith, loop-upstreams n k (bump rr))

pub next-upstreams : (rr : RoundRobin) → (next rr).0.upstreams ≡ rr.upstreams
unfolding next
next-upstreams rr = ground (arith, loop-upstreams (length rr.upstreams) (length rr.upstreams) rr)
