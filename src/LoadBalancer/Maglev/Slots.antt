-- ===== src/LoadBalancer/Maglev/Slots.antt =====
-- Counting slots: how many are taken by an upstream other than the first, and how many free ones
-- a cursor can no longer reach.
use peretum.Prelude.{
  ℕ, zero, suc, ◌+◌, ◌≤◌, ◌<◌, ◌≡◌, ◌≢◌, refl, ap, Bool, false, not, ◌&&◌, ◌||◌, some, List, [],
  ◌∷◌, arith, length, get_elem?, set, ◌==◌, if◌then◌else◌, All, Bool-cases, inl, inr,
}

-- The number of slots that do not hold 0.
abbrev pub nonzero : List ℕ → ℕ
nonzero [] = 0
nonzero (t ∷ ts) = (if t == 0 then 0 else 1) + nonzero ts

abbrev pub contains : List ℕ → ℕ → Bool
contains [] k = false
contains (x ∷ xs) k = x == k || contains xs k

-- The number of slots that hold 0 and do not stand in `unread`; the table begins at slot `k`.
abbrev pub missing : ℕ → List ℕ → List ℕ → ℕ
missing k [] unread = 0
missing k (t ∷ ts) unread =
    (if t == 0 && not (contains unread k) then 1 else 0) + missing (suc k) ts unread

pub nonzero-le : (ts : List ℕ) → nonzero ts ≤ length ts
nonzero-le [] = omega arith
nonzero-le (t ∷ ts) = ground (arith, nonzero-le ts)

pub missing-nil : (k : ℕ) (ts : List ℕ) → missing k ts [] + nonzero ts ≡ length ts
missing-nil k [] = refl
missing-nil k (t ∷ ts) = ground (arith, missing-nil (suc k) ts)

missing-cons_below :
    (k : ℕ) (ts : List ℕ) (x : ℕ) (unread : List ℕ)
    → x < k
    → missing k ts (x ∷ unread) ≡ missing k ts unread
missing-cons_below k [] x unread h = refl
missing-cons_below k (t ∷ ts) x unread h = ground (arith, missing-cons_below (suc k) ts x unread)

-- To read one more entry loses one slot at most.
pub missing-read :
    (k : ℕ) (ts : List ℕ) (x : ℕ) (unread : List ℕ)
    → missing k ts unread ≤ missing k ts (x ∷ unread) + 1
missing-read k [] x unread = omega arith
missing-read k (t ∷ ts) x unread = elim (Bool-cases (x == k)) [
  | inl here ↦ ground (arith, missing-cons_below (suc k) ts x unread)
  | inr other ↦ ground (arith, missing-read (suc k) ts x unread)
]

-- It loses none if the slot is taken.
pub missing-read_taken :
    (k j : ℕ) (ts : List ℕ) (x v : ℕ) (unread : List ℕ)
    → x ≡ k + j
    → get_elem? ts j ≡ some v
    → v ≢ 0
    → missing k ts unread ≤ missing k ts (x ∷ unread)
missing-read_taken k j [] x v unread e at h = omega arith
missing-read_taken k zero (t ∷ ts) x v unread e at h =
    ground (arith, missing-cons_below (suc k) ts x unread)
missing-read_taken k (suc j) (t ∷ ts) x v unread e at h =
    ground (arith, missing-read_taken (suc k) j ts x v unread (omega arith) at h)

-- To take a free slot loses none for any cursor.
pub missing-set :
    (k j : ℕ) (ts : List ℕ) (v : ℕ) (unread : List ℕ)
    → v ≢ 0
    → missing k (set ts j v) unread ≤ missing k ts unread
missing-set k j [] v unread h = omega arith
missing-set k zero (t ∷ ts) v unread h = ground arith
missing-set k (suc j) (t ∷ ts) v unread h = ground (arith, missing-set (suc k) j ts v unread h)

pub nonzero-set :
    (ts : List ℕ) (j v : ℕ)
    → get_elem? ts j ≡ some 0
    → v ≢ 0
    → nonzero (set ts j v) ≡ suc (nonzero ts)
nonzero-set [] j v at h = cc
nonzero-set (t ∷ ts) zero v at h = ground arith
nonzero-set (t ∷ ts) (suc j) v at h = ground (arith, nonzero-set ts j v at h)

pub set-zero : (ts : List ℕ) (j : ℕ) → get_elem? ts j ≡ some 0 → set ts j 0 ≡ ts
set-zero [] j at = refl
set-zero (t ∷ ts) zero at = ground arith
set-zero (t ∷ ts) (suc j) at = ap (◌∷◌ t) (set-zero ts j at)

-- A table with as many taken slots as slots holds no 0.
pub All-nonzero : (ts : List ℕ) → length ts ≤ nonzero ts → All (λ t. t ≢ 0) ts
All-nonzero [] h = tt
All-nonzero (t ∷ ts) h = elim (Bool-cases (t == 0)) [
  | inl free ↦ absurd (ground (arith, nonzero-le ts))
  | inr taken ↦ (ground arith, All-nonzero ts (ground arith))
]
