-- ===== src/Router/Locations.antt =====
-- `TargetConfigHandler`: the location of a request, with `LocationConfig.Matches` of
-- internal/config/config.go. The regular expressions of the standard library are a parameter; a
-- pattern that does not compile, where the source panics, is left out.
use peretum.Prelude.Bytes.{Bytes, codes, equal, has_prefix}
use peretum.Prelude.Text.{trim_suffix}
use peretum.Prelude.{
  ℕ, ◌≤◌, ◌<◌, ◌≡◌, ◌∙◌, refl, ap, ◌⊎◌, inl, inr, Bool, true, false, not, ◌&&◌, ◌||◌, Option, none,
  some, List, [], ◌∷◌, ◌++◌, ltb, arith, length, if◌then◌else◌, All, Bool-cases,
}

-- `other` is any further value of the string.
pub data MatchType : Type 0 where
  match_exact : MatchType
  match_regex : MatchType
  match_prefix : MatchType
  other : MatchType

-- A handler, named by its location.
pub record Location : Type 0 where
  pub match_type : MatchType
  pub path : Bytes

abbrev matches_prefix : Bytes → Bytes → Bool
matches_prefix prefix path =
    equal prefix (codes "/") || has_prefix path (trim_suffix prefix (codes "/"))

module _ (regex_match : Bytes → Bytes → Bool) where
  unfoldable pub matches : Location → Bytes → Bool
  matches l path = elim l.match_type [
    | match_exact ↦ equal l.path path
    | match_regex ↦ not (equal l.path []) && regex_match l.path path
    | match_prefix ↦ matches_prefix l.path path
    | other ↦ matches_prefix l.path path
  ]

  unfoldable pub priority : Location → ℕ
  priority l = elim l.match_type [
    | match_exact ↦ 1000
    | match_regex ↦ 500
    | match_prefix ↦ length (trim_suffix l.path (codes "/"))
    | other ↦ 0
  ]

  -- The loop over the handlers, with `best` and `bestPriority`.
  unfoldable pub best_loop : Bytes → List Location → Option Location → ℕ → Option Location
  unfolding matches priority
  best_loop path [] best best_priority = best
  best_loop path (h ∷ hs) best best_priority =
      let better = matches h path && ltb best_priority (priority h) in
      best_loop path hs (if better then some h else best)
        (if better then priority h else best_priority)

  -- The location that serves a path; `none` is the answer 404.
  unfoldable pub serve_location : List Location → Option Location → Bytes → Option Location
  unfolding best_loop
  serve_location hs default_loc path = elim (best_loop path hs none 0) [
    | none ↦ default_loc
    | some h ↦ some h
  ]

  -- Every location of a list that matches has at most, or less than, a priority.
  abbrev pub AtMost : Bytes → ℕ → List Location → Type 0
  AtMost path n hs = All (λ g. matches g path ≡ true → priority g ≤ n) hs

  abbrev pub Below : Bytes → ℕ → List Location → Type 0
  Below path n hs = All (λ g. matches g path ≡ true → priority g < n) hs

  -- A location matches, has a priority above 0, and is the first among those that match with the
  -- highest priority.
  pub record IsBest (path : Bytes) (hs : List Location) (h : Location) : Type 0 where
    pub earlier : List Location
    pub later : List Location
    pub split : hs ≡ earlier ++ h ∷ later
    pub matching : matches h path ≡ true
    pub positive : 0 < priority h
    pub first : Below path (priority h) earlier
    pub highest : AtMost path (priority h) later

  best_loop_better :
      (path : Bytes) (h : Location) (hs : List Location) (best : Option Location) (n : ℕ)
      → matches h path ≡ true
      → n < priority h
      → best_loop path (h ∷ hs) best n ≡ best_loop path hs (some h) (priority h)
  unfolding best_loop
  best_loop_better path h hs best n m p =
      let e : ltb n (priority h) ≡ true = ground arith in rw (m, e) refl

  best_loop_skip :
      (path : Bytes) (h : Location) (hs : List Location) (best : Option Location) (n : ℕ)
      → matches h path && ltb n (priority h) ≡ false
      → best_loop path (h ∷ hs) best n ≡ best_loop path hs best n
  unfolding best_loop
  best_loop_skip path h hs best n e = rw e refl

  best_loop_lem :
      (path : Bytes) (hs : List Location) (best : Option Location) (n : ℕ)
      → ((best_loop path hs best n ≡ best) × AtMost path n hs)
        ⊎ ((h : Location) × (best_loop path hs best n ≡ some h)
            × (n < priority h)
            × IsBest path hs h)
  unfolding best_loop
  best_loop_lem path [] best n = inl (refl, tt)
  best_loop_lem path (g ∷ hs) best n = elim (Bool-cases (matches g path && ltb n (priority g))) [
    | inr worse ↦
        let step = best_loop_skip path g hs best n worse in
        elim (best_loop_lem path hs best n) [
          | inl (e, rest) ↦ inl (step ∙ e, (λ m. ground arith, rest))
          | inr (h, e, above, b) ↦ inr (
            h,
            step ∙ e,
            above,
            record {
              earlier = g ∷ b.earlier;
              later = b.later;
              split = ap (◌∷◌ g) b.split;
              matching = b.matching;
              positive = b.positive;
              first = (λ m. ground arith, b.first);
              highest = b.highest;
            },
          )
        ]
    | inl better ↦
        let m : matches g path ≡ true = ground arith in
        let p : n < priority g = ground arith in
        let step = best_loop_better path g hs best n m p in
        elim (best_loop_lem path hs (some g) (priority g)) [
          | inl (e, rest) ↦ inr (
            g,
            step ∙ e,
            p,
            record {
              earlier = [];
              later = hs;
              split = refl;
              matching = m;
              positive = omega arith;
              first = tt;
              highest = rest;
            },
          )
          | inr (h, e, above, b) ↦ inr (
            h,
            step ∙ e,
            omega arith,
            record {
              earlier = g ∷ b.earlier;
              later = b.later;
              split = ap (◌∷◌ g) b.split;
              matching = b.matching;
              positive = b.positive;
              first = (λ m. above, b.first);
              highest = b.highest;
            },
          )
        ]
  ]

  serve_location_found :
      (hs : List Location) (default_loc : Option Location) (path : Bytes) (h : Location)
      → best_loop path hs none 0 ≡ some h
      → serve_location hs default_loc path ≡ some h
  unfolding serve_location
  serve_location_found hs default_loc path h e = ground arith

  serve_location-none :
      (hs : List Location) (default_loc : Option Location) (path : Bytes)
      → best_loop path hs none 0 ≡ none
      → serve_location hs default_loc path ≡ default_loc
  unfolding serve_location
  serve_location-none hs default_loc path e = ground arith

  -- A request is served by the first location among those that match its path with the highest
  -- priority, or, if no location with a priority above 0 matches, by the default location.
  pub serve_location-IsBest :
      (hs : List Location) (default_loc : Option Location) (path : Bytes)
      → ((h : Location) × (serve_location hs default_loc path ≡ some h) × IsBest path hs h)
        ⊎ ((serve_location hs default_loc path ≡ default_loc) × AtMost path 0 hs)
  serve_location-IsBest hs default_loc path = elim (best_loop_lem path hs none 0) [
    | inl (e, rest) ↦ inr (serve_location-none hs default_loc path e, rest)
    | inr (h, e, _, b) ↦ inl (h, serve_location_found hs default_loc path h e, b)
  ]
