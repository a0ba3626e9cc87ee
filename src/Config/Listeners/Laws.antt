-- ===== src/Config/Listeners/Laws.antt =====
-- The flags of a listener.
use peretum.Config.Listeners.{
  ListenError, duplicate_flag, unknown_flag, Flags, is_quic_flag, is_h2_flag, set_flag, parse_flags,
}
use peretum.Prelude.Bytes.{Bytes, codes, equal, equal_iff}
use peretum.Prelude.Dict.{member}
use peretum.Prelude.{
  ◌≡◌, refl, ap, ◌∙◌, Bool, false, ◌&&◌, ◌||◌, Option, none, some, List, [], ◌∷◌, ◌⊎◌, inl, inr,
  arith, if◌then◌else◌, Bool-cases,
}

abbrev pub is_known : Bytes → Bool
is_known f = equal f (codes "ssl") || (is_quic_flag f || (equal f (codes "h2c") || is_h2_flag f))

-- The first flag that is a repeated or an unknown one.
abbrev pub first_fault : List Bytes → List Bytes → Option ListenError
first_fault seen [] = none
first_fault seen (f ∷ fs) =
    let rest = first_fault (f ∷ seen) fs in
    if member seen f
    then some (duplicate_flag f)
    else if is_known f
    then rest
    else some (unknown_flag f)

abbrev pub any_flag : (Bytes → Bool) → List Bytes → Bool
any_flag p [] = false
any_flag p (f ∷ fs) = p f || any_flag p fs

-- The flags that a list of them sets.
abbrev pub flags_of : Flags → List Bytes → Flags
flags_of flags fs = record {
  ssl = flags.ssl || any_flag (λ f. equal f (codes "ssl")) fs;
  quic = flags.quic || any_flag is_quic_flag fs;
  h2c = flags.h2c || any_flag (λ f. equal f (codes "h2c")) fs;
}

abbrev MarksFlag : Flags → Bytes → Type 0
MarksFlag flags f = set_flag f flags ≡ (if is_known f then some (flags_of flags (f ∷ [])) else none)

marked :
    (f : Bytes) (flags : Flags)
    → (equal f (codes "ssl") && equal f (codes "h3")) ≡ false
    → (equal f (codes "ssl") && equal f (codes "http3")) ≡ false
    → (equal f (codes "ssl") && equal f (codes "quic")) ≡ false
    → (equal f (codes "ssl") && equal f (codes "h2c")) ≡ false
    → (equal f (codes "h3") && equal f (codes "h2c")) ≡ false
    → (equal f (codes "http3") && equal f (codes "h2c")) ≡ false
    → (equal f (codes "quic") && equal f (codes "h2c")) ≡ false
    → MarksFlag flags f
unfolding set_flag
marked f flags a b c d e g h = ground arith

-- A flag is one word only.
is_one_word : (f a b : Bytes) → equal a b ≡ false → (equal f a && equal f b) ≡ false
is_one_word f a b apart = ground (arith, equal_iff f a, equal_iff f b, equal_iff a b)

set_flag-MarksFlag : (f : Bytes) (flags : Flags) → MarksFlag flags f
unfolding set_flag equal
set_flag-MarksFlag f flags =
    let one = λ (a b : Bytes) (e : equal a b ≡ false). is_one_word f a b e in
    marked f flags (one (codes "ssl") (codes "h3") refl) (one (codes "ssl") (codes "http3") refl)
      (one (codes "ssl") (codes "quic") refl) (one (codes "ssl") (codes "h2c") refl)
      (one (codes "h3") (codes "h2c") refl) (one (codes "http3") (codes "h2c") refl)
      (one (codes "quic") (codes "h2c") refl)

flags_of-cons :
    (flags : Flags) (f : Bytes) (fs : List Bytes)
    → flags_of (flags_of flags (f ∷ [])) fs ≡ flags_of flags (f ∷ fs)
flags_of-cons flags f fs = ground arith

abbrev pub finished : Option ListenError → Flags → ListenError ⊎ Flags
finished none flags = inr flags
finished (some e) flags = inl e

-- The loop over the flags ends with the first repeated or unknown one as its error; without one it
-- has the flags that some word sets, in whatever order they stand.
pub parse_flags_lem :
    (seen fs : List Bytes) (flags : Flags)
    → parse_flags seen flags fs ≡ finished (first_fault seen fs) (flags_of flags fs)
unfolding parse_flags
parse_flags_lem seen [] flags = ground arith
parse_flags_lem seen (f ∷ fs) flags = elim (Bool-cases (member seen f)) [
  | inl twice ↦ rw twice refl
  | inr new ↦ elim (Bool-cases (is_known f)) [
    | inl known ↦
        let here : set_flag f flags ≡ some (flags_of flags (f ∷ [])) =
          set_flag-MarksFlag f flags ∙ rw known refl in
        rw (new, known, here)
          (parse_flags_lem (f ∷ seen) fs (flags_of flags (f ∷ []))
            ∙ ap (finished (first_fault (f ∷ seen) fs)) (flags_of-cons flags f fs))
    | inr strange ↦
        let here : set_flag f flags ≡ none = set_flag-MarksFlag f flags ∙ rw strange refl in
        rw (new, strange, here) refl
  ]
]
