-- ===== src/RateLimit/Tests.antt =====
-- Calls on a small store, and the theorems at concrete inputs.
use peretum.Prelude.Bytes.{codes, equal}
use peretum.Prelude.{ℕ, zero, suc, ◌≡◌, refl, true, false, [], ◌∷◌, ◌==◌, arith, none}
use peretum.RateLimit.Buckets.{Call, answers, bucket_answers, answers-bucket_answers}
use peretum.RateLimit.Maps.{HaveSameKeys, allow-HaveSameKeys}
use peretum.RateLimit.{Limits, Clock, new_store, allow, touched, limiter_for}

-- A limiter that grants its burst and no more.
abbrev limits : Limits ℕ
limits = record {
  new_limiter = λ rps burst. burst;
  limiter_allow = λ l now. elim l [ zero ↦ (false, 0) | suc n ↦ (true, n) ];
  unset = λ rps. rps == 0;
  positive = λ rps. true;
  float_eq = λ p q. p == q;
}

abbrev clock : Clock
clock = record { seen = 1; asked = 2; checked = 3 }

abbrev call : ℕ → Call
call burst = record { clock = clock; key = codes "a"; rps = 1; burst = burst }

-- Three calls with one rate use up a burst of two; calls whose rates differ start again each time.
third_is_refused :
    answers limits (codes "a") new_store (call 2 ∷ call 2 ∷ call 2 ∷ []) ≡ true ∷ true ∷ false ∷ []
unfolding answers allow touched limiter_for equal
third_is_refused = refl

other_rates_start_again :
    answers limits (codes "a") new_store (call 1 ∷ call 2 ∷ call 1 ∷ call 2 ∷ [])
    ≡ true ∷ true ∷ true ∷ true ∷ []
unfolding answers allow touched limiter_for equal
other_rates_start_again = refl

answers-bucket_answers_example :
    answers limits (codes "a") new_store (call 2 ∷ call 1 ∷ [])
    ≡ bucket_answers limits (codes "a") none (call 2 ∷ call 1 ∷ [])
answers-bucket_answers_example =
    answers-bucket_answers limits (codes "a") new_store (call 2 ∷ call 1 ∷ []) (omega arith)

allow-HaveSameKeys_example : HaveSameKeys (allow limits clock (codes "a") 1 1 new_store).1
allow-HaveSameKeys_example = allow-HaveSameKeys limits clock (codes "a") 1 1 new_store (refl, refl)
