-- ===== src/LoadBalancer/Maglev/Permutation.antt =====
-- When the permutation of a URL reaches every slot of the table.
use native.Mathlib.Nat.{
  mod-lt, mod-eq_of_lt, mod-add-mod, add-mod-mod, add-mod_right, mul_assoc, mul-le-mul,
  add-mul-mod_self_left, add-mul-mod_self_right, div-add-mod,
}
use peretum.LoadBalancer.Maglev.Slots.{contains}
use peretum.LoadBalancer.Maglev.{permutation_loop, permutation}
use peretum.Prelude.Bytes.{Bytes, codes}
use peretum.Prelude.Crc.{crc32, crc32-lt}
use peretum.Prelude.{
  ℕ, zero, suc, ◌+◌, ◌-◌, ◌*◌, ◌/◌, ◌%◌, ◌^◌, ◌≤◌, ◌<◌, ◌≡◌, ◌∙◌, sym, ap, inl, inr, true, ◌++◌,
  arith, ◌==◌, Bool-cases,
}

-- Every slot stands in the permutation of the URL.
abbrev pub Reaches : ℕ → Bytes → Type 0
Reaches size url = (z : ℕ) → z < size → contains (permutation size url) z ≡ true

-- Entry `j` of the permutation.
contains-permutation :
    (size h1 h2 n i j : ℕ)
    → i ≤ j
    → j < i + n
    → contains (permutation_loop size h1 h2 n i) ((h1 + j * h2) % 2 ^ 64 % size) ≡ true
unfolding permutation_loop
contains-permutation size h1 h2 zero i j le lt = absurd (omega arith)
contains-permutation size h1 h2 (suc n) i j le lt = elim (Bool-cases (i == j)) [
  | inl here ↦ let e : i ≡ j = ground arith in rw e (ground arith)
  | inr later ↦
      ground (arith, contains-permutation size h1 h2 n (suc i) j (ground arith) (omega arith))
]

-- The offset at which slot `z` stands, for a step `h2` with the inverse `k`.
abbrev offset_of : ℕ → ℕ → ℕ → ℕ → ℕ
offset_of size h1 k z = (z + size - h1 % size) * k % size

mul_mod_left : (size a b : ℕ) → a % size * b % size ≡ a * b % size
mul_mod_left size a b =
    let e : a % size * b + size * (a / size * b) ≡ a * b =
      grind (arith, ap (λ (t : ℕ). t * b) (div-add-mod a size)) in
    sym (add-mul-mod_self_left (a % size * b) size (a / size * b)) ∙ ap (λ (t : ℕ). t % size) e

inverse_cancels : (size a k h2 : ℕ) → k * h2 % size ≡ 1 → a * k * h2 % size ≡ a % size
inverse_cancels size a k h2 e =
    let q = k * h2 / size in
    let d : k * h2 ≡ 1 + q * size = omega (arith, div-add-mod (k * h2) size) in
    let f : a * k * h2 ≡ a + a * q * size =
      mul_assoc a k h2 ∙ ap (λ (t : ℕ). a * t) d ∙ grind arith in
    ap (λ (t : ℕ). t % size) f ∙ add-mul-mod_self_right a (a * q) size

offset-reaches :
    (size h1 h2 k z : ℕ)
    → k * h2 % size ≡ 1
    → z < size
    → (h1 + offset_of size h1 k z * h2) % size ≡ z
offset-reaches size h1 h2 k z e lt =
    let a = z + size - h1 % size in
    let f : offset_of size h1 k z * h2 % size ≡ a % size =
      mul_mod_left size (a * k) h2 ∙ inverse_cancels size a k h2 e in
    let g : h1 % size + a ≡ z + size = omega (arith, mod-lt h1 {m = size} (omega arith)) in
    rw
      (
        ← add-mod-mod h1 (offset_of size h1 k z * h2) size,
        f,
        add-mod-mod h1 a size,
        ← mod-add-mod h1 size a,
        g,
        add-mod_right z size,
      )
      (mod-eq_of_lt lt)

no_overflow : (h1 h2 j : ℕ) → h1 < 2 ^ 32 → h2 < 2 ^ 32 → j < 2 ^ 17 → h1 + j * h2 < 2 ^ 64
no_overflow h1 h2 j a b c =
    let m : j * h2 ≤ 2 ^ 17 * 2 ^ 32 =
      mul-le-mul {n₂ = 2 ^ 17} {m₂ = 2 ^ 32} (omega arith) (omega arith) in
    omega arith

-- A permutation reaches every slot if its step, the second hash, has an inverse modulo the size.
-- For the size 65537, a prime, every step but the multiples of 65537 has one.
pub Reaches-of_inverse :
    (size : ℕ) (url : Bytes) (k : ℕ)
    → size ≤ 2 ^ 17
    → k * crc32 (url ++ codes "2") % size ≡ 1
    → Reaches size url
unfolding permutation
Reaches-of_inverse size url k small e z lt =
    let h1 = crc32 (url ++ codes "1") in
    let h2 = crc32 (url ++ codes "2") in
    let j = offset_of size h1 k z in
    let j_lt : j < size = mod-lt _ (omega arith) in
    let fits : (h1 + j * h2) % 2 ^ 64 ≡ h1 + j * h2 =
      mod-eq_of_lt (no_overflow h1 h2 j (crc32-lt _) (crc32-lt _) (omega arith)) in
    let found : (h1 + j * h2) % 2 ^ 64 % size ≡ z = rw fits (offset-reaches size h1 h2 k z e lt) in
    rw found at (contains-permutation size h1 h2 size 0 j (omega arith) (omega arith))
