-- ===== src/LoadBalancer/HealthCheck/Recovery.antt =====
-- What a round of probes does to the health of the upstreams.
use peretum.LoadBalancer.Balancer.{
  Balancer, round_robin, weighted, maglev, least, get_upstreams, mark,
}
use peretum.LoadBalancer.HealthCheck.{
  Fetch, HealthCheckConfig, probe, probe_one, probe_loop, probe_unhealthy,
}
use peretum.LoadBalancer.LeastConnections
use peretum.LoadBalancer.Maglev
use peretum.LoadBalancer.Maglev.{same, keep_first, set_health}
use peretum.LoadBalancer.RoundRobin
use peretum.LoadBalancer.Weighted
use peretum.LoadBalancer.{Upstream, is_healthy, mark_healthy}
use peretum.Prelude.Bytes.{Bytes, equal, equal_iff}
use peretum.Prelude.{
  ℕ, zero, suc, ◌+◌, ◌≡◌, ◌≢◌, ◌∙◌, refl, Bool, false, ◌||◌, Option, none, some, List, [], ◌∷◌, map,
  arith, length, get_elem?, All, Bool-cases, Option-cases, inl, inr, ◌==◌, ltb, leb, ◌&&◌,
  lt-get_elem?, if◌then◌else◌,
}

abbrev pub urls : List Upstream → List Bytes
urls us = map (λ u. u.url) us

abbrev pub AreDistinct : List Bytes → Type 0
AreDistinct [] = Unit
AreDistinct (x ∷ xs) = All (λ y. x ≢ y) xs × AreDistinct xs

abbrev updated : List Upstream → Option (List Upstream) → List Upstream
updated us none = us
updated us (some us') = us'

-- `setHealth`, as the new list of upstreams.
abbrev set_all : List Upstream → Bytes → Bool → ℕ → List Upstream
set_all us url healthy now = updated us (set_health us url healthy now)

module _ (healthy : Bool) (now : ℕ) where
  set_all-cons :
      (u : Upstream) (us : List Upstream) (url : Bytes)
      → equal u.url url ≡ false
      → set_all (u ∷ us) url healthy now ≡ u ∷ set_all us url healthy now
  unfolding set_health keep_first
  set_all-cons u us url other = ground arith

  urls-mark_healthy :
      (us : List Upstream) (url : Bytes) → urls (mark_healthy us url healthy now) ≡ urls us
  unfolding mark_healthy
  urls-mark_healthy [] url = refl
  urls-mark_healthy (u ∷ us) url = ground (arith, urls-mark_healthy us url)

  urls-set_all : (us : List Upstream) (url : Bytes) → urls (set_all us url healthy now) ≡ urls us
  unfolding set_health keep_first
  urls-set_all [] url = refl
  urls-set_all (u ∷ us) url = ground (arith, urls-set_all us url)

  other_url :
      (u v : Upstream) (us : List Upstream) (j : ℕ)
      → get_elem? us j ≡ some v
      → All (λ y. u.url ≢ y) (urls us)
      → equal u.url v.url ≡ false
  other_url u v [] j at a = absurd (cc)
  other_url u v (w ∷ us) zero at (ne, a) = ground (arith, equal_iff u.url v.url)
  other_url u v (w ∷ us) (suc j) at (ne, a) = other_url u v us j at a

  mark_healthy_at :
      (us : List Upstream) (j : ℕ) (v : Upstream) (i : ℕ)
      → get_elem? us j ≡ some v
      → AreDistinct (urls us)
      → is_healthy (mark_healthy us v.url healthy now) i
        ≡ (if i == j then healthy else is_healthy us i)
  unfolding mark_healthy
  mark_healthy_at [] j v i at d = absurd (cc)
  mark_healthy_at (u ∷ us) zero v zero at d = ground (arith, equal_iff u.url v.url)
  mark_healthy_at (u ∷ us) zero v (suc i) at d = ground (arith, equal_iff u.url v.url)
  mark_healthy_at (u ∷ us) (suc j) v zero at d = ground (arith, other_url u v us j at d.0)
  mark_healthy_at (u ∷ us) (suc j) v (suc i) at d =
      ground (arith, other_url u v us j at d.0, mark_healthy_at us j v i at d.1)

  set_all_at :
      (us : List Upstream) (j : ℕ) (v : Upstream) (i : ℕ)
      → get_elem? us j ≡ some v
      → AreDistinct (urls us)
      → is_healthy (set_all us v.url healthy now) i ≡ (if i == j then healthy else is_healthy us i)
  unfolding set_health
  set_all_at [] j v i at d = absurd (cc)
  set_all_at (u ∷ us) zero v zero at d = ground (arith, equal_iff u.url v.url)
  set_all_at (u ∷ us) zero v (suc i) at d = ground (arith, equal_iff u.url v.url)
  set_all_at (u ∷ us) (suc j) v zero at d =
      rw (set_all-cons u us v.url (other_url u v us j at d.0)) (ground arith)
  set_all_at (u ∷ us) (suc j) v (suc i) at d =
      rw (set_all-cons u us v.url (other_url u v us j at d.0))
        (ground (arith, set_all_at us j v i at d.1))

-- `MarkHealthy` of every balancer, for the URL of position `j` among distinct URLs.
urls-mark :
    (b : Balancer) (url : Bytes) (healthy : Bool) (now : ℕ)
    → urls (get_upstreams (mark b url healthy now)) ≡ urls (get_upstreams b)
unfolding mark get_upstreams RoundRobin.mark Weighted.mark Maglev.mark LeastConnections.mark
urls-mark (round_robin rr) url healthy now = urls-mark_healthy healthy now rr.upstreams url
urls-mark (weighted w) url healthy now = urls-mark_healthy healthy now w.upstreams url
urls-mark (maglev m) url healthy now = ground (arith, urls-set_all healthy now m.upstreams url)
urls-mark (least lc) url healthy now = urls-mark_healthy healthy now lc.upstreams url

mark_at :
    (b : Balancer) (j : ℕ) (v : Upstream) (healthy : Bool) (now i : ℕ)
    → get_elem? (get_upstreams b) j ≡ some v
    → AreDistinct (urls (get_upstreams b))
    → is_healthy (get_upstreams (mark b v.url healthy now)) i
      ≡ (if i == j then healthy else is_healthy (get_upstreams b) i)
unfolding mark get_upstreams RoundRobin.mark Weighted.mark Maglev.mark LeastConnections.mark
mark_at (round_robin rr) j v healthy now i at d =
    mark_healthy_at healthy now rr.upstreams j v i at d
mark_at (weighted w) j v healthy now i at d = mark_healthy_at healthy now w.upstreams j v i at d
mark_at (maglev m) j v healthy now i at d =
    ground (arith, set_all_at healthy now m.upstreams j v i at d)
mark_at (least lc) j v healthy now i at d = mark_healthy_at healthy now lc.upstreams j v i at d

module _ (fetch : Fetch) (config : HealthCheckConfig) where
  -- The answer of the probe for the upstream at a position.
  abbrev pub answers : List Bytes → ℕ → Bool
  answers [] i = false
  answers (url ∷ us) zero = probe fetch config url
  answers (url ∷ us) (suc i) = answers us i

  answers-urls :
      (us : List Upstream) (i : ℕ) (u : Upstream)
      → get_elem? us i ≡ some u
      → answers (urls us) i ≡ probe fetch config u.url
  answers-urls [] i u at = absurd (cc)
  answers-urls (v ∷ us) zero u at = ground arith
  answers-urls (v ∷ us) (suc i) u at = answers-urls us i u at

  answers_past : (us : List Upstream) (i : ℕ) → get_elem? us i ≡ none → answers (urls us) i ≡ false
  answers_past [] i out = refl
  answers_past (v ∷ us) zero out = absurd (cc)
  answers_past (v ∷ us) (suc i) out = answers_past us i out

  -- Healthy before the round, or answering the probe.
  abbrev pub probed : Balancer → ℕ → Bool
  probed b i = is_healthy (get_upstreams b) i || answers (urls (get_upstreams b)) i

  abbrev one : ℕ → ℕ → Balancer → Balancer
  one now j b = probe_one fetch config now b (get_elem? (get_upstreams b) j)

  -- One step of the loop at position `j`.
  one_lem :
      (now j : ℕ) (b : Balancer)
      → AreDistinct (urls (get_upstreams b))
      → (urls (get_upstreams (one now j b)) ≡ urls (get_upstreams b))
        × ((i : ℕ)
            → is_healthy (get_upstreams (one now j b)) i
              ≡ (if i == j then probed b i else is_healthy (get_upstreams b) i))
  unfolding probe_one
  one_lem now j b d = elim (Option-cases (get_elem? (get_upstreams b) j)) [
    | inl out ↦ rw out (refl, λ i. ground (arith, answers_past (get_upstreams b) j out))
    | inr (u, at) ↦ elim (Bool-cases u.healthy) [
      | inl up ↦ (ground arith, λ i. ground arith)
      | inr down ↦
          let answer = probe fetch config u.url in
          (
            ground (arith, urls-mark b u.url answer now),
            λ i.
                ground
                  (arith, mark_at b j u answer now i at d, answers-urls (get_upstreams b) j u at),
          )
    ]
  ]

  loop_lem :
      (clock : ℕ → ℕ) (k j : ℕ) (b : Balancer)
      → AreDistinct (urls (get_upstreams b))
      → (i : ℕ)
      → is_healthy (get_upstreams (probe_loop fetch config clock k j b)) i
        ≡ (if leb j i && ltb i (j + k) then probed b i else is_healthy (get_upstreams b) i)
  unfolding probe_loop
  loop_lem clock zero j b d i = ground arith
  loop_lem clock (suc k) j b d i =
      let (kept, health) = one_lem (clock j) j b d in
      let d' : AreDistinct (urls (get_upstreams (one (clock j) j b))) = rw kept d in
      loop_lem clock k (suc j) (one (clock j) j b) d' i ∙ rw (health i, kept) (ground arith)

  -- With distinct URLs a round of probes makes exactly those upstreams healthy that were healthy
  -- or whose probe is answered with the expected status, for every kind of balancer.
  pub probe_unhealthy_lem :
      (clock : ℕ → ℕ) (b : Balancer)
      → AreDistinct (urls (get_upstreams b))
      → (i : ℕ) → is_healthy (get_upstreams (probe_unhealthy fetch config clock b)) i ≡ probed b i
  unfolding probe_unhealthy
  probe_unhealthy_lem clock b d i =
      loop_lem clock (length (get_upstreams b)) 0 b d i ∙ whole (get_upstreams b) i
    where
      whole :
          (us : List Upstream) (i : ℕ)
          → (if leb 0 i && ltb i (0 + length us)
              then is_healthy us i || answers (urls us) i
              else is_healthy us i)
            ≡ is_healthy us i || answers (urls us) i
      whole us i = elim (Option-cases (get_elem? us i)) [
        | inl out ↦ rw (out, answers_past us i out) (ground arith)
        | inr (u, at) ↦ ground (arith, lt-get_elem? us i u at)
      ]
