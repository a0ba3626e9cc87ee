-- ===== src/LoadBalancer/Maglev/Seek.antt =====
-- The innermost loop finds a free slot before it reads behind the end of its permutation.
use native.Mathlib.Nat.{mod-eq_of_lt}
use peretum.LoadBalancer.Maglev.Slots.{
  nonzero, missing, missing-nil, missing-read, missing-read_taken, missing-set, nonzero-set,
  set-zero,
}
use peretum.LoadBalancer.Maglev.{seek}
use peretum.Prelude.{
  ℕ, zero, suc, ◌+◌, ◌%◌, ◌≤◌, ◌<◌, ◌≡◌, ◌∙◌, ap, inl, inr, false, some, List, [], ◌∷◌, arith,
  length, get_elem?, set, ◌==◌, All, Bool-cases, length-set, get_elem?-lt, get_elem?-set_self,
}

-- A cursor that can still reach enough slots: the free slots that it has lost and the taken slots
-- are no more than the slots counted as filled.
abbrev pub Covers : List ℕ → ℕ → List ℕ → Type 0
Covers table filled unread =
    (missing 0 table unread + nonzero table ≤ filled) × All (λ x. x < length table) unread

-- From one table to the next every cursor keeps its reach.
pub record Grows (table : List ℕ) (filled : ℕ) (table' : List ℕ) (filled' : ℕ) : Type 0 where
  pub sized : length table' ≡ length table
  pub more : filled ≤ filled'
  pub covers : (unread : List ℕ) → Covers table filled unread → Covers table' filled' unread

pub All-lt : (m n : ℕ) (xs : List ℕ) → m ≡ n → All (λ x. x < m) xs → All (λ x. x < n) xs
All-lt m n [] e h = tt
All-lt m n (x ∷ xs) e (p, h) = (omega arith, All-lt m n xs e h)

-- Slot `idx` is free, and is given to upstream `i`.
pub Grows-set :
    (i : ℕ) (table : List ℕ) (idx filled : ℕ)
    → get_elem? table idx ≡ some 0
    → Grows table filled (set table idx i) (filled + 1)
Grows-set zero table idx filled free = record {
  sized = length-set table idx 0;
  more = omega arith;
  covers = λ unread c. rw (set-zero table idx free) (omega arith, c.1);
}
Grows-set (suc i) table idx filled free = record {
  sized = length-set table idx (suc i);
  more = omega arith;
  covers = λ unread c. (
    omega (
      arith,
      missing-set 0 idx table (suc i) unread (omega arith),
      nonzero-set table idx (suc i) free (omega arith),
      c.0,
    ),
    All-lt _ _ unread (omega (arith, length-set table idx (suc i))) c.1,
  );
}

-- The cursor that reads slot `idx` and takes it.
take-Covers :
    (i : ℕ) (table : List ℕ) (idx filled : ℕ) (unread : List ℕ)
    → get_elem? table idx ≡ some 0
    → Covers table filled (idx ∷ unread)
    → Covers (set table idx i) (filled + 1) unread
take-Covers zero table idx filled unread free (c, below) =
    rw (set-zero table idx free) (omega (arith, missing-read 0 table idx unread), below.1)
take-Covers (suc i) table idx filled unread free (c, below) = (
  omega (
    arith,
    missing-read_taken 0 idx (set table idx (suc i)) idx (suc i) unread (omega arith)
        (get_elem?-set_self table idx (suc i) below.0) (omega arith),
    missing-set 0 idx table (suc i) (idx ∷ unread) (omega arith),
    nonzero-set table idx (suc i) free (omega arith),
  ),
  All-lt _ _ unread (omega (arith, length-set table idx (suc i))) below.1,
)

-- What `seek` gives: a free slot, taken for upstream `i`.
pub record Sought (size i : ℕ) (table : List ℕ) (filled : ℕ) (cursor : List ℕ) : Type 0 where
  pub idx : ℕ
  pub unread : List ℕ
  pub returned : seek size i table cursor ≡ some (set table idx i, unread)
  pub free : get_elem? table idx ≡ some 0
  pub covers : Covers (set table idx i) (filled + 1) unread

seek_taken :
    (size i : ℕ) (table : List ℕ) (x v : ℕ) (unread : List ℕ)
    → x % size ≡ x
    → get_elem? table x ≡ some v
    → (v == 0) ≡ false
    → seek size i table (x ∷ unread) ≡ seek size i table unread
unfolding seek
seek_taken size i table x v unread e at taken = rw (e, at, taken)

-- While fewer slots are filled than there are, a cursor with enough reach finds a free one.
pub seek_lem :
    (size i : ℕ) (table : List ℕ) (filled : ℕ) (cursor : List ℕ)
    → length table ≡ size
    → filled < size
    → Covers table filled cursor
    → Sought size i table filled cursor
unfolding seek
seek_lem size i table filled [] sized room c = absurd (omega (arith, missing-nil 0 table, c.0))
seek_lem size i table filled (x ∷ unread) sized room c =
    let (v, at) = get_elem?-lt table x c.1.0 in
    let e : x % size ≡ x = mod-eq_of_lt (omega (arith, c.1.0)) in
    elim (Bool-cases (v == 0)) [
      | inl free ↦
          let z : v ≡ 0 = ground arith in
          record {
            idx = x;
            unread = unread;
            returned = rw (e, at, free);
            free = rw at (ap (λ (k : ℕ). some k) z);
            covers = take-Covers i table x filled unread (rw at (ap (λ (k : ℕ). some k) z)) c;
          }
      | inr taken ↦
          let kept : Covers table filled unread = (
            omega (
              arith,
              missing-read_taken 0 x table x v unread (omega arith) at (ground arith),
              c.0,
            ),
            c.1.1,
          ) in
          let s = seek_lem size i table filled unread sized room kept in
          record {
            idx = s.idx;
            unread = s.unread;
            returned = seek_taken size i table x v unread e at taken ∙ s.returned;
            free = s.free;
            covers = s.covers;
          }
    ]
