-- ===== src/LoadBalancer/LeastConnections/Counts.antt =====
-- The connection counters under `Increment` and `Decrement`.
use peretum.LoadBalancer.LeastConnections.{LeastConnections, add_active, increment, decrement}
use peretum.LoadBalancer.{Upstream}
use peretum.Prelude.Bytes.{Bytes, equal}
use peretum.Prelude.Int.{ℤ, pos, negsuc, ◌+ℤ◌, int_laws}
use peretum.Prelude.{◌≡◌, refl, List, [], ◌∷◌, Bool-cases, inl, inr, ap}

add_active_cancel :
    (d e : ℤ) (url : Bytes) (us : List Upstream) (active : List ℤ)
    → ((a : ℤ) → a +ℤ d +ℤ e ≡ a)
    → add_active e url us (add_active d url us active) ≡ active
unfolding add_active
add_active_cancel d e url [] active undo = refl
add_active_cancel d e url (u ∷ us) [] undo = refl
add_active_cancel d e url (u ∷ us) (a ∷ active) undo = elim (Bool-cases (equal u.url url)) [
  | inl here ↦ rw (here) (rw here (ap (λ b. b ∷ active) (undo a)))
  | inr other ↦ rw other (rw other (ap (◌∷◌ a) (add_active_cancel d e url us active undo)))
]

-- `Decrement` undoes `Increment`, and `Increment` undoes `Decrement`, whether or not the URL is
-- known.
pub decrement-increment :
    (url : Bytes) (lc : LeastConnections)
    → (decrement url (increment url lc) ≡ lc) × (increment url (decrement url lc) ≡ lc)
unfolding increment decrement
decrement-increment url lc = (
  ap (λ active. record lc { active = active })
      (add_active_cancel (pos 1) (negsuc 0) url lc.upstreams lc.active (λ a. omega int_laws)),
  ap (λ active. record lc { active = active })
      (add_active_cancel (negsuc 0) (pos 1) url lc.upstreams lc.active (λ a. omega int_laws)),
)
