-- ===== src/Prelude/Streams.antt =====
-- `io.Reader`, `io.LimitReader` and `io.ReadAll` on bodies.
use peretum.Prelude.Bytes.{Bytes}
use peretum.Prelude.{
  ℕ, zero, suc, ◌+◌, ◌≤◌, ◌<◌, ◌≡◌, refl, ap, true, false, Bool, Option, none, some, [], ◌∷◌, ◌&&◌,
  arith, length, take, drop, ltb, if◌then◌else◌, ◌==◌,
}

-- A body: the bytes that are not read yet, and whether the connection fails after them.
pub record Stream : Type 0 where
  pub unread : Bytes
  pub fails : Bool

-- The largest int64, at which the `limit+1` of a reader is negative, and nothing is read.
abbrev pub max_int64 : ℕ
max_int64 = 9223372036854775807

abbrev pub one_more : ℕ → ℕ
one_more limit = if limit == max_int64 then 0 else limit + 1

-- `io.ReadAll(io.LimitReader(body, n))`, `none` for an error, and what is left of the body.
unfoldable pub read_all : ℕ → Stream → Option Bytes
read_all n s = if ltb (length s.unread) n && s.fails then none else some (take n s.unread)

abbrev pub rest_of : ℕ → Stream → Stream
rest_of n s = record s { unread = drop n s.unread }

pub length-take : (n : ℕ) (xs : Bytes) → n ≤ length xs → length (take n xs) ≡ n
length-take zero xs h = refl
length-take (suc n) [] h = omega arith
length-take (suc n) (x ∷ xs) h = omega (arith, length-take n xs (omega arith))

pub length-take-le : (n : ℕ) (xs : Bytes) → length (take n xs) ≤ n
length-take-le zero xs = omega arith
length-take-le (suc n) [] = omega arith
length-take-le (suc n) (x ∷ xs) = omega (arith, length-take-le n xs)

pub read_all_full :
    (n : ℕ) (s : Stream) → n ≤ length s.unread → read_all n s ≡ some (take n s.unread)
unfolding read_all
read_all_full n s h = ground arith

pub read_all_cut : (n : ℕ) (s : Stream) → length s.unread < n → s.fails ≡ true → read_all n s ≡ none
unfolding read_all
read_all_cut n s short h = ground arith

take_all : (n : ℕ) (xs : Bytes) → length xs ≤ n → take n xs ≡ xs
take_all zero [] h = refl
take_all (suc n) [] h = refl
take_all zero (x ∷ xs) h = absurd (omega arith)
take_all (suc n) (x ∷ xs) h = ap (◌∷◌ x) (take_all n xs (omega arith))

pub read_all_whole :
    (n : ℕ) (s : Stream) → length s.unread ≤ n → s.fails ≡ false → read_all n s ≡ some s.unread
unfolding read_all
read_all_whole n s short h = ground (arith, take_all n s.unread short)
