-- ===== src/RateLimit/Maps.antt =====
-- The three maps of the store have the same keys, each once.
use peretum.Prelude.Bytes.{Bytes, equal, equal_iff, equal_refl}
use peretum.Prelude.Dict.{lookup, assign, delete, member, without}
use peretum.Prelude.{
  ℕ, ◌-◌, ◌%◌, ◌≡◌, refl, ap, ◌∙◌, sym, true, false, none, some, List, [], ◌∷◌, ◌==◌, ltb, length,
  arith, if◌then◌else◌, Bool-cases, Option-cases, inl, inr,
}
use peretum.RateLimit.{
  Limits, Store, Clock, ttl, rates, same_rates, or_zero, new_bucket, limiter_for, forget, sweep,
  touched, allow,
}

abbrev pub keys {ℓ} : {V : Type ℓ} → List (Bytes × V) → List Bytes
keys [] = []
keys ((k, v) ∷ m) = k ∷ keys m

-- A key at the end, if it is new.
abbrev pub with_key : Bytes → List Bytes → List Bytes
with_key k [] = k ∷ []
with_key k (j ∷ ks) = if equal j k then k ∷ ks else j ∷ with_key k ks

pub keys-assign {ℓ} :
    {V : Type ℓ} (k : Bytes) (v : V) (m : List (Bytes × V))
    → keys (assign k v m) ≡ with_key k (keys m)
keys-assign k v [] = refl
keys-assign k v ((j, w) ∷ m) = ground (arith, keys-assign k v m)

pub keys-delete {ℓ} :
    {V : Type ℓ} (k : Bytes) (m : List (Bytes × V)) → keys (delete k m) ≡ without k (keys m)
keys-delete k [] = refl
keys-delete k ((j, w) ∷ m) = ground (arith, keys-delete k m)

pub with_key-member : (k : Bytes) (ks : List Bytes) → member ks k ≡ true → with_key k ks ≡ ks
with_key-member k [] h = ground arith
with_key-member k (j ∷ ks) h = ground (arith, with_key-member k ks, equal_iff j k)

pub member-keys {ℓ} :
    {V : Type ℓ} (k : Bytes) (m : List (Bytes × V)) (v : V)
    → lookup k m ≡ some v
    → member (keys m) k ≡ true
member-keys k [] v h = cc
member-keys k ((j, w) ∷ m) v h = ground (arith, member-keys k m v)

with_key_twice : (k : Bytes) (ks : List Bytes) → with_key k (with_key k ks) ≡ with_key k ks
with_key_twice k [] = ground (arith, equal_refl k)
with_key_twice k (j ∷ ks) = ground (arith, with_key_twice k ks, equal_refl k)

module _ {L : Type 0} where
  abbrev pub HaveSameKeys : Store L → Type 0
  HaveSameKeys s = (keys s.params ≡ keys s.limiters) × (keys s.last_seen ≡ keys s.limiters)

  forget-HaveSameKeys : (k : Bytes) (s : Store L) → HaveSameKeys s → HaveSameKeys (forget k s)
  forget-HaveSameKeys k s (p, q) = (
    keys-delete k s.params ∙ ap (without k) p ∙ sym (keys-delete k s.limiters),
    keys-delete k s.last_seen ∙ ap (without k) q ∙ sym (keys-delete k s.limiters),
  )

  sweep-HaveSameKeys :
      (now : ℕ) (seen : List (Bytes × ℕ)) (s : Store L)
      → HaveSameKeys s
      → HaveSameKeys (sweep now seen s)
  unfolding sweep
  sweep-HaveSameKeys now [] s h = h
  sweep-HaveSameKeys now ((k, t) ∷ seen) s h = elim (Bool-cases (ltb ttl (now - t))) [
    | inl old ↦
        rw (old, sweep) (sweep-HaveSameKeys now seen (forget k s) (forget-HaveSameKeys k s h))
    | inr young ↦ rw (young, sweep) (sweep-HaveSameKeys now seen s h)
  ]

  -- The keys when a bucket has been found.
  abbrev pub HasKey : Bytes → Store L → Store L → Type 0
  HasKey key s s' =
      (with_key key (keys s'.limiters) ≡ with_key key (keys s.limiters))
      × (keys s'.params ≡ with_key key (keys s.limiters))
      × (s'.last_seen ≡ s.last_seen)

  new_bucket-HasKey :
      (lim : Limits L) (key : Bytes) (p : ℕ × ℕ) (s : Store L)
      → HaveSameKeys s
      → HasKey key s (new_bucket lim key p s).1
  new_bucket-HasKey lim key p s h = (
    ap (with_key key) (keys-assign key (lim.new_limiter p.0 p.1) s.limiters)
        ∙ with_key_twice key (keys s.limiters),
    keys-assign key p s.params ∙ ap (with_key key) h.0,
    refl,
  )

  pub limiter_for-new :
      (lim : Limits L) (key : Bytes) (p : ℕ × ℕ) (s : Store L)
      → lookup key s.limiters ≡ none
      → limiter_for lim key p s ≡ new_bucket lim key p s
  unfolding limiter_for
  limiter_for-new lim key p s h = ground arith

  pub limiter_for-kept :
      (lim : Limits L) (key : Bytes) (p : ℕ × ℕ) (s : Store L) (l : L)
      → lookup key s.limiters ≡ some l
      → same_rates lim (or_zero (lookup key s.params)) p ≡ true
      → limiter_for lim key p s ≡ (l, s)
  unfolding limiter_for
  limiter_for-kept lim key p s l h e = ground arith

  pub limiter_for-changed :
      (lim : Limits L) (key : Bytes) (p : ℕ × ℕ) (s : Store L) (l : L)
      → lookup key s.limiters ≡ some l
      → same_rates lim (or_zero (lookup key s.params)) p ≡ false
      → limiter_for lim key p s ≡ new_bucket lim key p s
  unfolding limiter_for
  limiter_for-changed lim key p s l h e = ground arith

  limiter_for-HasKey :
      (lim : Limits L) (key : Bytes) (p : ℕ × ℕ) (s : Store L)
      → HaveSameKeys s
      → HasKey key s (limiter_for lim key p s).1
  limiter_for-HasKey lim key p s h = elim (Option-cases (lookup key s.limiters)) [
    | inl new ↦ rw (limiter_for-new lim key p s new) (new_bucket-HasKey lim key p s h)
    | inr (l, found) ↦ elim (Bool-cases (same_rates lim (or_zero (lookup key s.params)) p)) [
      | inl same ↦ rw (limiter_for-kept lim key p s l found same) (
        refl,
        h.0 ∙ sym (with_key-member key (keys s.limiters) (member-keys key s.limiters l found)),
        refl,
      )
      | inr other ↦
          rw (limiter_for-changed lim key p s l found other) (new_bucket-HasKey lim key p s h)
    ]
  ]

  touched-HaveSameKeys :
      (lim : Limits L) (clock : Clock) (key : Bytes) (p : ℕ × ℕ) (s : Store L)
      → HaveSameKeys s
      → HaveSameKeys (touched lim clock key p s).1
  unfolding touched
  touched-HaveSameKeys lim clock key p s h =
      let (a, b, c) = limiter_for-HasKey lim key p s h in
      let found = limiter_for lim key p s in
      let answer = lim.limiter_allow found.0 clock.asked in
      let all : keys (assign key answer.1 found.1.limiters) ≡ with_key key (keys s.limiters) =
        keys-assign key answer.1 found.1.limiters ∙ a in
      (
        b ∙ sym all,
        keys-assign key clock.seen found.1.last_seen
            ∙ ap (λ (x : List (Bytes × ℕ)). with_key key (keys x)) c
            ∙ ap (with_key key) h.1
            ∙ sym all,
      )

  -- After each call of `Allow` the three maps have the same keys, in one order, if they had before.
  pub allow-HaveSameKeys :
      (lim : Limits L) (clock : Clock) (key : Bytes) (rps burst : ℕ) (s : Store L)
      → HaveSameKeys s
      → HaveSameKeys (allow lim clock key rps burst s).1
  unfolding allow
  allow-HaveSameKeys lim clock key rps burst s h =
      let r = touched lim clock key (rates lim rps burst) s in
      let k = touched-HaveSameKeys lim clock key (rates lim rps burst) s h in
      elim (Bool-cases (length r.1.limiters % 1024 == 0)) [
        | inl full ↦ rw full (sweep-HaveSameKeys clock.checked r.1.last_seen r.1 k)
        | inr rest ↦ rw rest k
      ]
