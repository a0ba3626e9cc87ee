-- ===== src/LoadBalancer/Balancer/Contract.antt =====
-- The contract that the four balancers share.
use native.Mathlib.Nat.{mod-lt, mod-add-mod, add-zero}
use peretum.LoadBalancer.Balancer.{
  Balancer, round_robin, weighted, maglev, least, get_upstreams, next,
}
use peretum.LoadBalancer.LeastConnections
use peretum.LoadBalancer.LeastConnections.Least.{NoneHealthy, next-IsLeast}
use peretum.LoadBalancer.LeastConnections.{LeastConnections}
use peretum.LoadBalancer.Maglev.Selection
use peretum.LoadBalancer.Maglev.Selection.{next_lem}
use peretum.LoadBalancer.Maglev.{has_healthy}
use peretum.LoadBalancer.RoundRobin
use peretum.LoadBalancer.RoundRobin.Rotation.{
  next-first_healthy, next-probe, offset_to, next-upstreams as round_robin_upstreams,
}
use peretum.LoadBalancer.RoundRobin.{RoundRobin}
use peretum.LoadBalancer.Weighted
use peretum.LoadBalancer.Weighted.Blind.{rotate, rotation, next-rotation, next-upstreams}
use peretum.LoadBalancer.Weighted.Valid
use peretum.LoadBalancer.Weighted.{Weighted}
use peretum.LoadBalancer.{Upstream, is_healthy, probe_candidate}
use peretum.Prelude.Bytes.{Bytes}
use peretum.Prelude.Int.{pos}
use peretum.Prelude.{
  ℕ, zero, suc, ◌+◌, ◌-◌, ◌%◌, ◌^◌, ◌<◌, ◌≡◌, ◌∙◌, sym, refl, ap, ◌⊎◌, inl, inr, true, false,
  Option, none, some, List, [], ◌∷◌, map, arith, length, Bool-cases, ◌==◌,
}

-- A healthy upstream if there is one; else the probe candidate, which is nil only for no upstreams.
abbrev pub Selects : List Upstream → Option ℕ → Type 0
Selects us picked =
    ((i : ℕ) × (picked ≡ some i) × (is_healthy us i ≡ true))
    ⊎ ((has_healthy us ≡ false) × (picked ≡ probe_candidate us))

position_of_has_healthy :
    (us : List Upstream) → has_healthy us ≡ true → (p : ℕ) × (is_healthy us p ≡ true)
unfolding has_healthy
position_of_has_healthy [] h = absurd (cc)
position_of_has_healthy (u ∷ us) h = elim (Bool-cases u.healthy) [
  | inl up ↦ (0, up)
  | inr down ↦ let (p, found) = position_of_has_healthy us (ground arith) in (suc p, found)
]

all_down : (us : List Upstream) → has_healthy us ≡ false → (p : ℕ) → is_healthy us p ≡ false
unfolding has_healthy
all_down [] h p = refl
all_down (u ∷ us) h zero = ground arith
all_down (u ∷ us) h (suc p) = all_down us (ground arith) p

probe-nil : probe_candidate [] ≡ none
unfolding probe_candidate
probe-nil = refl

-- The rotation finds a healthy upstream within its rounds.
rotate_healthy :
    (n k j : ℕ) (us : List Upstream) (cur : ℕ)
    → j < k
    → is_healthy us ((cur + 1 + j) % n) ≡ true
    → Selects us (rotate n k us cur).1
unfolding rotate
rotate_healthy n zero j us cur h found = absurd (omega arith)
rotate_healthy n (suc k) zero us cur h found =
    let up : is_healthy us ((cur + 1) % n) ≡ true = rw add-zero at found in
    rw up (inl ((cur + 1) % n, refl, up))
rotate_healthy n (suc k) (suc j) us cur h found =
    elim (Bool-cases (is_healthy us ((cur + 1) % n))) [
      | inl up ↦ rw up (inl ((cur + 1) % n, refl, up))
      | inr down ↦
          let e : ((cur + 1) % n + 1 + j) % n ≡ (cur + 1 + suc j) % n =
            ap (λ (t : ℕ). t % n) (omega arith)
            ∙ mod-add-mod (cur + 1) n (1 + j)
            ∙ ap (λ (t : ℕ). t % n) (omega arith) in
          rw down (rotate_healthy n k j us ((cur + 1) % n) (omega arith) (rw e found))
    ]

rotate_down :
    (n k : ℕ) (us : List Upstream) (cur : ℕ)
    → has_healthy us ≡ false
    → (rotate n k us cur).1 ≡ probe_candidate us
unfolding rotate
rotate_down n zero us cur down = refl
rotate_down n (suc k) us cur down =
    rw (all_down us down ((cur + 1) % n)) (rotate_down n k us ((cur + 1) % n) down)

in_range : (us : List Upstream) (p : ℕ) → is_healthy us p ≡ true → p < length us
in_range = Selection.healthy_position

down_nil : has_healthy [] ≡ false
unfolding has_healthy
down_nil = refl

rotation-nil : (cur : ℕ) → rotation [] cur ≡ (cur, none)
unfolding rotation
rotation-nil cur = refl

rotation-cons :
    (u : Upstream) (us : List Upstream) (cur : ℕ)
    → rotation (u ∷ us) cur ≡ rotate (length (u ∷ us)) (length (u ∷ us)) (u ∷ us) cur
unfolding rotation
rotation-cons u us cur = ground arith

rotation-Selects : (us : List Upstream) (cur : ℕ) → Selects us (rotation us cur).1
rotation-Selects [] cur = rw (rotation-nil cur) (inr (down_nil, sym probe-nil))
rotation-Selects (u ∷ us) cur =
    rw (rotation-cons u us cur) (elim (Bool-cases (has_healthy (u ∷ us))) [
      | inl up ↦
          let (p, found) = position_of_has_healthy (u ∷ us) up in
          let n = length (u ∷ us) in
          let lt = in_range (u ∷ us) p found in
          rotate_healthy n n ((p + n - (cur + 1) % n) % n) (u ∷ us) cur (mod-lt _ (omega arith))
            (rw (offset_to n (cur + 1) p lt) found)
      | inr down ↦ inr (down, rotate_down (length (u ∷ us)) (length (u ∷ us)) (u ∷ us) cur down)
    ])

-- What each balancer needs: a counter that does not wrap around in the call, the invariants of the
-- weighted and the Maglev balancer, and connection counters that are not negative.
abbrev pub IsReady : ℕ → Balancer → Type 0
IsReady size (round_robin rr) = rr.idx + length rr.upstreams < 2 ^ 64
IsReady size (weighted w) = Valid.IsValid w
IsReady size (maglev m) = Selection.IsValid size m
IsReady size (least lc) =
    (loads : List ℕ) × (lc.active ≡ map pos loads) × (length loads ≡ length lc.upstreams)

next_empty :
    (rr : RoundRobin)
    → length rr.upstreams ≡ 0
    → (RoundRobin.next rr).1 ≡ probe_candidate rr.upstreams
unfolding RoundRobin.next probe_candidate
next_empty rr h = let e : rr.upstreams ≡ [] = ground arith in rw (h, e)

round_robin-Selects :
    (rr : RoundRobin)
    → rr.idx + length rr.upstreams < 2 ^ 64
    → Selects rr.upstreams (RoundRobin.next rr).1
round_robin-Selects rr fits = elim (Bool-cases (has_healthy rr.upstreams)) [
  | inl up ↦
      let (p, found) = position_of_has_healthy rr.upstreams up in
      let (d, lt, picked, healthy, before) = next-first_healthy rr p found (omega arith) in
      inl ((rr.idx + d) % length rr.upstreams, ap (λ r. r.1) picked, healthy)
  | inr down ↦ inr (down, probes down)
]
  where
    probes :
        has_healthy rr.upstreams ≡ false → (RoundRobin.next rr).1 ≡ probe_candidate rr.upstreams
    probes down = elim (Bool-cases (length rr.upstreams == 0)) [
      | inl empty ↦ next_empty rr (ground arith)
      | inr full ↦
          ap (λ r. r.1) (next-probe rr (ground arith) (omega arith) (all_down rr.upstreams down))
    ]

NoneHealthy-down :
    (us : List Upstream) (loads : List ℕ)
    → length loads ≡ length us
    → NoneHealthy us loads
    → has_healthy us ≡ false
unfolding has_healthy
NoneHealthy-down [] loads e h = refl
NoneHealthy-down (u ∷ us) [] e h = absurd (omega arith)
NoneHealthy-down (u ∷ us) (a ∷ loads) e (p, h) = elim (Bool-cases u.healthy) [
  | inl up ↦ absurd (p up)
  | inr down ↦ ground (arith, NoneHealthy-down us loads (omega arith) h)
]

least-Selects :
    (us : List Upstream) (loads : List ℕ)
    → length loads ≡ length us
    → Selects us (LeastConnections.next (record { upstreams = us; active = map pos loads }))
least-Selects us loads e = elim (next-IsLeast us loads) [
  | inl (j, o, picked) ↦ inl (j, picked, ground (arith, o.here, o.healthy))
  | inr (dead, picked) ↦ inr (NoneHealthy-down us loads e dead, picked)
]

-- Every balancer meets the contract in a ready state: `Next` ends without a panic, leaves the
-- upstreams as they are, and returns a healthy upstream if there is one, and else the probe
-- candidate. Ready means that the round-robin counter does not wrap around in the call, that the
-- state of the weighted and of the Maglev balancer is valid, and that no connection counter is
-- negative.
pub next-Selects :
    (size : ℕ) (b : Balancer) (path raw_query : Bytes)
    → IsReady size b
    → (b' : Balancer) × (picked : Option ℕ) × (next size b path raw_query ≡ some (b', picked))
      × (get_upstreams b' ≡ get_upstreams b)
      × Selects (get_upstreams b) picked
unfolding next get_upstreams
next-Selects size (round_robin rr) path raw_query fits = (
  round_robin (RoundRobin.next rr).0,
  (RoundRobin.next rr).1,
  refl,
  round_robin_upstreams rr,
  round_robin-Selects rr fits,
)
next-Selects size (weighted w) path raw_query v = (
  weighted (Weighted.next w).0,
  (Weighted.next w).1,
  refl,
  next-upstreams w,
  rw (ap (λ s. s.1) (next-rotation w v)) (rotation-Selects w.upstreams w.current),
)
next-Selects size (maglev m) path raw_query v =
    let (m', picked, done, v', kept, selects) = next_lem size m path raw_query v in
    (maglev m', picked, rw done, kept, selects)
next-Selects size (least lc) path raw_query (loads, e, sized) =
    (least lc, LeastConnections.next lc, refl, refl, selects)
  where
    same : record { upstreams = lc.upstreams; active = map pos loads } ≡ lc
    same = ap (λ active. record lc { active = active }) (sym e)

    selects : Selects lc.upstreams (LeastConnections.next lc)
    selects = rw same at (least-Selects lc.upstreams loads sized)
