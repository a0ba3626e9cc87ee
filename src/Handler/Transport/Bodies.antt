-- ===== src/Handler/Transport/Bodies.antt =====
-- The body of an answer: all of it, or an error.
use peretum.Handler.Transport.{read_body}
use peretum.Prelude.Bytes.{Bytes}
use peretum.Prelude.Streams.{
  Stream, max_int64, one_more, length-take, read_all_full, read_all_cut, read_all_whole,
}
use peretum.Prelude.{
  ℕ, ◌+◌, ◌<◌, ◌≤◌, ◌≡◌, ◌≢◌, ltb, ◌==◌, take, Bool-cases, if◌then◌else◌, refl, ap, true, false,
  Option, none, some, length, arith, ◌⊎◌, inl, inr,
}

-- Within the limit, if there is one, and over it.
abbrev pub IsWithin : Option ℕ → Bytes → Type 0
IsWithin none b = Unit {0}
IsWithin (some limit) b = length b ≤ limit

abbrev pub Exceeds : Option ℕ → Bytes → Type 0
Exceeds none b = ⊥
Exceeds (some limit) b = limit < length b

-- A body is read as a whole, if its connection does not fail and it is within the limit, and else not
-- at all, but for the largest limit, whose successor overflows.
pub read_body_lem :
    (limit : Option ℕ) (s : Stream)
    → limit ≢ some max_int64
    → ((read_body limit s ≡ none) × ((s.fails ≡ true) ⊎ Exceeds limit s.unread))
      ⊎ ((read_body limit s ≡ some s.unread) × (s.fails ≡ false) × IsWithin limit s.unread)
unfolding read_body
read_body_lem none s h = elim (Bool-cases s.fails) [
  | inl e ↦ inl (rw e refl, inl e)
  | inr e ↦ inr (rw e refl, e, tt)
]
read_body_lem (some limit) s h =
    let next : one_more limit ≡ limit + 1 = elim (Bool-cases (limit == max_int64)) [
      | inl e ↦ absurd (h (ap some (ground arith)))
      | inr e ↦ rw e refl
    ] in
    elim (Bool-cases (ltb limit (length s.unread))) [
      | inl long ↦ inl (
        rw (next, read_all_full (limit + 1) s (ground arith))
            (over_limit limit (take (limit + 1) s.unread)
              (ground (arith, length-take (limit + 1) s.unread (ground arith)))),
        inr (ground arith),
      )
      | inr short ↦ elim (Bool-cases s.fails) [
        | inl e ↦ inl (rw (next, read_all_cut (limit + 1) s (ground arith) e) refl, inl e)
        | inr e ↦ inr (
          rw (next, read_all_whole (limit + 1) s (ground arith) e)
              (within_limit limit s.unread (ground arith)),
          e,
          ground arith,
        )
      ]
    ]
  where
    over_limit :
        (limit : ℕ) (b : Bytes)
        → limit < length b
        → ◌≡◌ {A = Option Bytes} (if ltb limit (length b) then none else some b) none
    over_limit limit b h = ground arith

    within_limit :
        (limit : ℕ) (b : Bytes)
        → length b ≤ limit
        → ◌≡◌ {A = Option Bytes} (if ltb limit (length b) then none else some b) (some b)
    within_limit limit b h = ground arith
