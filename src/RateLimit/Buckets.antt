-- ===== src/RateLimit/Buckets.antt =====
-- One bucket by itself, and the store as many of them.
use peretum.Prelude.Bytes.{Bytes, equal, equal_iff, equal_refl}
use peretum.Prelude.Dict.{lookup, assign, lookup-assign, is_some}
use peretum.Prelude.{
  ℕ, ◌+◌, ◌%◌, ◌≡◌, ◌≤◌, ◌<◌, refl, ap, ◌∙◌, sym, Bool, true, false, Option, none, some, List, [],
  ◌∷◌, ◌==◌, length, arith, if◌then◌else◌, Bool-cases, Option-cases, inl, inr,
}
use peretum.RateLimit.Maps.{limiter_for-new, limiter_for-kept, limiter_for-changed}
use peretum.RateLimit.{
  Limits, Store, Clock, rates, same_rates, or_zero, new_bucket, limiter_for, touched, allow,
}

-- A limiter with its rates.
abbrev pub Bucket : Type 0 → Type 0
Bucket L = Option (L × (ℕ × ℕ))

pub record Call : Type 0 where
  pub clock : Clock
  pub key : Bytes
  pub rps : ℕ
  pub burst : ℕ

length-assign :
    {V : Type 0} (k : Bytes) (v : V) (m : List (Bytes × V))
    → length (assign k v m) ≡ (if is_some (lookup k m) then length m else length m + 1)
length-assign k v [] = refl
length-assign k v ((j, w) ∷ m) = ground (arith, length-assign k v m)

not_full : (n m : ℕ) → 1 ≤ n → n ≤ m → m < 1024 → (n % 1024 == 0) ≡ false
not_full n m a b c = ground arith

module _ {L : Type 0} where
  abbrev pub asked : Limits L → ℕ → L → ℕ × ℕ → Bool × Bucket L
  asked lim now l p = ((lim.limiter_allow l now).0, some ((lim.limiter_allow l now).1, p))

  abbrev pub asked_new : Limits L → ℕ → ℕ × ℕ → Bool × Bucket L
  asked_new lim now p = asked lim now (lim.new_limiter p.0 p.1) p

  -- A bucket with other rates starts again.
  unfoldable pub bucket_step : Limits L → ℕ → ℕ × ℕ → Bucket L → Bool × Bucket L
  bucket_step lim now p none = asked_new lim now p
  bucket_step lim now p (some (l, q)) =
      if same_rates lim q p then asked lim now l q else asked_new lim now p

  abbrev pub with_rates : Option L → Option (ℕ × ℕ) → Bucket L
  with_rates none p = none
  with_rates (some l) p = some (l, or_zero p)

  abbrev pub bucket_of : Store L → Bytes → Bucket L
  bucket_of s key = with_rates (lookup key s.limiters) (lookup key s.params)

  -- The answers to the calls with a key.
  unfoldable pub answers : Limits L → Bytes → Store L → List Call → List Bool
  answers lim k s [] = []
  answers lim k s (c ∷ calls) =
      let r = allow lim c.clock c.key c.rps c.burst s in
      let rest = answers lim k r.1 calls in if equal c.key k then r.0 ∷ rest else rest

  unfoldable pub bucket_answers : Limits L → Bytes → Bucket L → List Call → List Bool
  bucket_answers lim k b [] = []
  bucket_answers lim k b (c ∷ calls) =
      let r = bucket_step lim c.clock.asked (rates lim c.rps c.burst) b in
      let here = bucket_answers lim k r.1 calls in
      let other = bucket_answers lim k b calls in if equal c.key k then r.0 ∷ here else other

  touched_found :
      (lim : Limits L) (clock : Clock) (key : Bytes) (p : ℕ × ℕ) (s : Store L) (f : L × Store L)
      → limiter_for lim key p s ≡ f
      → touched lim clock key p s ≡ (
        (lim.limiter_allow f.0 clock.asked).0,
        record f.1 {
          limiters = assign key (lim.limiter_allow f.0 clock.asked).1 f.1.limiters;
          last_seen = assign key clock.seen f.1.last_seen;
        },
      )
  unfolding touched
  touched_found lim clock key p s f e =
      ap
        (λ (x : L × Store L). (
          (lim.limiter_allow x.0 clock.asked).0,
          record x.1 {
            limiters = assign key (lim.limiter_allow x.0 clock.asked).1 x.1.limiters;
            last_seen = assign key clock.seen x.1.last_seen;
          },
        ))
        e

  -- The bucket of each key after a step of the bucket of one key.
  abbrev pub StepsTo : Limits L → ℕ → Bytes → ℕ × ℕ → Store L → Bool × Store L → Type 0
  StepsTo lim now key p s r =
      (r.0 ≡ (bucket_step lim now p (bucket_of s key)).0)
      × ((k : Bytes)
          → bucket_of r.1 k
            ≡ (if equal key k then (bucket_step lim now p (bucket_of s key)).1 else bucket_of s k))
      × (1 ≤ length r.1.limiters)
      × (length r.1.limiters ≤ length s.limiters + 1)

  length-assign-le :
      (k : Bytes) (v : L) (m : List (Bytes × L)) → length (assign k v m) ≤ length m + 1
  length-assign-le k v [] = omega arith
  length-assign-le k v ((j, w) ∷ m) = ground (arith, length-assign-le k v m)

  length-assign-pos : (k : Bytes) (v : L) (m : List (Bytes × L)) → 1 ≤ length (assign k v m)
  length-assign-pos k v [] = omega arith
  length-assign-pos k v ((j, w) ∷ m) = ground arith

  bucket_kept :
      (key k : Bytes) (l l' : L) (s : Store L)
      → lookup key s.limiters ≡ some l
      → with_rates (lookup k (assign key l' s.limiters)) (lookup k s.params)
        ≡ (if equal key k then some (l', or_zero (lookup key s.params)) else bucket_of s k)
  bucket_kept key k l l' s h = elim (Bool-cases (equal key k)) [
    | inl same ↦
        rw (same, lookup-assign key k l' s.limiters, same)
          (ap (λ (x : Bytes). some (l', or_zero (lookup x s.params)))
            (sym ((equal_iff key k).0 same)))
    | inr other ↦ rw (lookup-assign key k l' s.limiters, other) refl
  ]

  bucket_new :
      (key k : Bytes) (l l' : L) (p : ℕ × ℕ) (s : Store L)
      → with_rates
          (lookup k (assign key l' (assign key l s.limiters)))
          (lookup k (assign key p s.params))
        ≡ (if equal key k then some (l', p) else bucket_of s k)
  bucket_new key k l l' p s = elim (Bool-cases (equal key k)) [
    | inl same ↦
        rw (lookup-assign key k l' (assign key l s.limiters), lookup-assign key k p s.params, same)
          refl
    | inr other ↦
        rw
          (
            lookup-assign key k l' (assign key l s.limiters),
            lookup-assign key k p s.params,
            lookup-assign key k l s.limiters,
            other,
          )
          refl
  ]

  length-assign_twice :
      (k : Bytes) (v w : L) (m : List (Bytes × L))
      → length (assign k v (assign k w m)) ≤ length m + 1
  length-assign_twice k v w [] = ground (arith, equal_refl k)
  length-assign_twice k v w ((j, x) ∷ m) =
      ground (arith, length-assign_twice k v w m, equal_refl k, length-assign-le k v m)

  touched_kept :
      (lim : Limits L) (clock : Clock) (key : Bytes) (p : ℕ × ℕ) (s : Store L) (l : L)
      → lookup key s.limiters ≡ some l
      → same_rates lim (or_zero (lookup key s.params)) p ≡ true
      → StepsTo lim clock.asked key p s (touched lim clock key p s)
  unfolding bucket_step
  touched_kept lim clock key p s l h t =
      rw (touched_found lim clock key p s (l, s) (limiter_for-kept lim key p s l h t), h, t)
        (
          refl,
          (λ k. bucket_kept key k l (lim.limiter_allow l clock.asked).1 s h),
          length-assign-pos key (lim.limiter_allow l clock.asked).1 s.limiters,
          length-assign-le key (lim.limiter_allow l clock.asked).1 s.limiters,
        )

  touched_new :
      (lim : Limits L) (clock : Clock) (key : Bytes) (p : ℕ × ℕ) (s : Store L)
      → limiter_for lim key p s ≡ new_bucket lim key p s
      → bucket_step lim clock.asked p (bucket_of s key) ≡ asked_new lim clock.asked p
      → StepsTo lim clock.asked key p s (touched lim clock key p s)
  touched_new lim clock key p s e b =
      let l = lim.new_limiter p.0 p.1 in
      rw (touched_found lim clock key p s (new_bucket lim key p s) e, b)
        (
          refl,
          (λ k. bucket_new key k l (lim.limiter_allow l clock.asked).1 p s),
          length-assign-pos key (lim.limiter_allow l clock.asked).1 (assign key l s.limiters),
          length-assign_twice key (lim.limiter_allow l clock.asked).1 l s.limiters,
        )

  touched_lem :
      (lim : Limits L) (clock : Clock) (key : Bytes) (p : ℕ × ℕ) (s : Store L)
      → StepsTo lim clock.asked key p s (touched lim clock key p s)
  unfolding bucket_step
  touched_lem lim clock key p s = elim (Option-cases (lookup key s.limiters)) [
    | inl new ↦ touched_new lim clock key p s (limiter_for-new lim key p s new) (rw new refl)
    | inr (l, found) ↦ elim (Bool-cases (same_rates lim (or_zero (lookup key s.params)) p)) [
      | inl same ↦ touched_kept lim clock key p s l found same
      | inr other ↦
          touched_new lim clock key p s (limiter_for-changed lim key p s l found other)
            (rw (found, other) refl)
    ]
  ]

  -- Below 1024 limiters there is no sweep.
  allow_lem :
      (lim : Limits L) (clock : Clock) (key : Bytes) (rps burst : ℕ) (s : Store L)
      → length s.limiters + 1 < 1024
      → StepsTo lim clock.asked key (rates lim rps burst) s (allow lim clock key rps burst s)
  unfolding allow
  allow_lem lim clock key rps burst s h =
      let p = rates lim rps burst in
      let steps = touched_lem lim clock key p s in
      let no_sweep =
        not_full (length (touched lim clock key p s).1.limiters) (length s.limiters + 1) steps.2
          steps.3 h in
      rw no_sweep steps

  -- Up to 1023 keys and calls, the answers to a key are those of its bucket alone, fed with its calls.
  pub answers-bucket_answers :
      (lim : Limits L) (k : Bytes) (s : Store L) (calls : List Call)
      → length s.limiters + length calls < 1024
      → answers lim k s calls ≡ bucket_answers lim k (bucket_of s k) calls
  unfolding answers bucket_answers
  answers-bucket_answers lim k s [] h = refl
  answers-bucket_answers lim k s (c ∷ calls) h =
      let p = rates lim c.rps c.burst in
      let (e, buckets, pos, grown) = allow_lem lim c.clock c.key c.rps c.burst s (omega arith) in
      let later =
        answers-bucket_answers lim k (allow lim c.clock c.key c.rps c.burst s).1 calls
          (omega (arith, grown)) in
      elim (Bool-cases (equal c.key k)) [
        | inl same ↦
            let key : c.key ≡ k = (equal_iff c.key k).0 same in
            let step = λ (x : Bytes). bucket_step lim c.clock.asked p (bucket_of s x) in
            let after : bucket_of (allow lim c.clock c.key c.rps c.burst s).1 k ≡ (step k).1 =
              buckets k ∙ rw same (ap (λ (x : Bytes). (step x).1) key) in
            rw same (
              ap (λ (b : Bool). b ∷ answers lim k (allow lim c.clock c.key c.rps c.burst s).1 calls)
                (e ∙ ap (λ (x : Bytes). (step x).0) key)
              ∙ ap (λ (bs : List Bool). (step k).0 ∷ bs)
                  (later ∙ ap (λ (b : Bucket L). bucket_answers lim k b calls) after))
        | inr other ↦ rw other (
            later ∙ ap (λ (b : Bucket L). bucket_answers lim k b calls) (buckets k ∙ rw other refl))
      ]
