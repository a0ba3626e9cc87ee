-- ===== src/LoadBalancer/Maglev/Filling.antt =====
-- One pass over the upstreams never fails, and what it does to the table.
use native.Mathlib.Nat.{add-zero}
use peretum.LoadBalancer.Maglev.Seek.{Covers, Grows, Grows-set, seek_lem}
use peretum.LoadBalancer.Maglev.Slots.{nonzero, nonzero-set}
use peretum.LoadBalancer.Maglev.{FillState, has_healthy, seek, keep_cursor, fill_row}
use peretum.LoadBalancer.{Upstream, is_healthy}
use peretum.Prelude.{
  ℕ, zero, suc, ◌+◌, ◌≤◌, ◌<◌, ◌≡◌, ◌∙◌, sym, refl, ap, ◌⊎◌, inl, inr, true, false, Option, some,
  List, [], ◌∷◌, arith, length, get_elem?, set, leb, All, All-set, All-mono, Bool-cases,
}

-- The condition under which slots are handed out: each holds a healthy upstream or 0, and with the
-- first upstream unhealthy every filled slot holds another.
pub record Granted (all : List Upstream) (table : List ℕ) (filled : ℕ) : Type 0 where
  pub slots : All (λ t. (t ≡ 0) ⊎ (is_healthy all t ≡ true)) table
  pub counted : is_healthy all 0 ≡ false → filled ≤ nonzero table

Granted-set :
    (all : List Upstream) (i : ℕ) (table : List ℕ) (idx filled : ℕ)
    → get_elem? table idx ≡ some 0
    → is_healthy all i ≡ true
    → Granted all table filled
    → Granted all (set table idx i) (filled + 1)
Granted-set all zero table idx filled free healthy g = record {
  slots = All-set _ table idx 0 g.slots (inl refl);
  counted = λ sick. absurd (cc);
}
Granted-set all (suc i) table idx filled free healthy g = record {
  slots = All-set _ table idx (suc i) g.slots (inr healthy);
  counted = λ sick. omega (arith, nonzero-set table idx (suc i) free (omega arith), g.counted sick);
}

-- Position `j` of the rest `us` of the slice is position `i + j` of the whole.
abbrev pub IsRest : List Upstream → ℕ → List Upstream → Type 0
IsRest all i us = (j : ℕ) → is_healthy us j ≡ is_healthy all (i + j)

IsRest-tail :
    (all : List Upstream) (i : ℕ) (u : Upstream) (us : List Upstream)
    → IsRest all i (u ∷ us)
    → IsRest all (suc i) us
IsRest-tail all i u us r j = let e : i + suc j ≡ suc i + j = omega arith in rw (← e) (r (suc j))

-- What one pass over the upstreams gives.
pub record Passed (size i : ℕ) (all us : List Upstream) (cursors : List (List ℕ)) (table : List ℕ)
    (filled : ℕ) : Type 0 where
  pub after : FillState
  pub returned : fill_row size i us cursors table filled ≡ some after
  pub grows : Grows table filled after.table after.filled
  pub bounded : after.filled ≤ size
  pub covers : All (Covers after.table after.filled) after.cursors
  pub parallel : length after.cursors ≡ length cursors
  pub granted : Granted all after.table after.filled
  pub progress : has_healthy us ≡ true → filled < size → filled < after.filled

Grows-trans :
    (t : List ℕ) (f : ℕ) (t' : List ℕ) (f' : ℕ) (t'' : List ℕ) (f'' : ℕ)
    → Grows t f t' f'
    → Grows t' f' t'' f''
    → Grows t f t'' f''
Grows-trans t f t' f' t'' f'' g h = record {
  sized = h.sized ∙ g.sized;
  more = omega (arith, g.more, h.more);
  covers = λ unread c. h.covers unread (g.covers unread c);
}

Grows-refl : (t : List ℕ) (f : ℕ) → Grows t f t f
Grows-refl t f = record { sized = refl; more = omega arith; covers = λ unread c. c }

module _ (size i : ℕ) (u : Upstream) (us : List Upstream) (cursor : List ℕ)
    (cursors : List (List ℕ)) (table : List ℕ) (filled : ℕ) where
  row_full :
      leb size filled ≡ true
      → fill_row size i (u ∷ us) (cursor ∷ cursors) table filled
        ≡ some (record { cursors = cursor ∷ cursors; table = table; filled = filled })
  unfolding fill_row
  row_full full = rw full

  row_sick :
      leb size filled ≡ false
      → u.healthy ≡ false
      → fill_row size i (u ∷ us) (cursor ∷ cursors) table filled
        ≡ keep_cursor cursor (fill_row size (suc i) us cursors table filled)
  unfolding fill_row
  row_sick room sick = rw (room, sick)

  row_healthy :
      (table' unread : List ℕ)
      → leb size filled ≡ false
      → u.healthy ≡ true
      → seek size i table cursor ≡ some (table', unread)
      → fill_row size i (u ∷ us) (cursor ∷ cursors) table filled
        ≡ keep_cursor unread (fill_row size (suc i) us cursors table' (filled + 1))
  unfolding fill_row
  row_healthy table' unread room healthy found = rw (room, healthy, found)

keep_cursor-some :
    (cursor : List ℕ) (m : Option FillState) (s : FillState)
    → m ≡ some s
    → keep_cursor cursor m ≡ some (record s { cursors = cursor ∷ s.cursors })
unfolding keep_cursor
keep_cursor-some cursor m s e = rw e

row_nil :
    (size i : ℕ) (cursors : List (List ℕ)) (table : List ℕ) (filled : ℕ)
    → fill_row size i [] cursors table filled
      ≡ some (record { cursors = cursors; table = table; filled = filled })
unfolding fill_row
row_nil size i cursors table filled = refl

row_start :
    (size i : ℕ) (all us : List Upstream) (cursors : List (List ℕ)) (table : List ℕ) (filled : ℕ)
    → fill_row size i us cursors table filled
      ≡ some (record { cursors = cursors; table = table; filled = filled })
    → filled ≤ size
    → All (Covers table filled) cursors
    → Granted all table filled
    → (has_healthy us ≡ true → size ≤ filled)
    → Passed size i all us cursors table filled
row_start size i all us cursors table filled e bounded covers granted full = record {
  after = record { cursors = cursors; table = table; filled = filled };
  returned = e;
  grows = Grows-refl table filled;
  bounded = bounded;
  covers = covers;
  parallel = refl;
  granted = granted;
  progress = λ h lt. absurd (omega (arith, full h));
}

-- One pass over the upstreams never fails, and fills a slot if one is healthy and one is free.
pub fill_row_lem :
    (size i : ℕ) (all us : List Upstream) (cursors : List (List ℕ)) (table : List ℕ) (filled : ℕ)
    → length table ≡ size
    → filled ≤ size
    → length cursors ≡ length us
    → All (Covers table filled) cursors
    → IsRest all i us
    → Granted all table filled
    → Passed size i all us cursors table filled
unfolding has_healthy
fill_row_lem size i all [] cursors table filled sized bounded parallel covers rest granted =
    row_start size i all [] cursors table filled (row_nil size i cursors table filled) bounded
      covers granted (λ h. absurd (cc))
fill_row_lem size i all (u ∷ us) [] table filled sized bounded parallel covers rest granted =
    absurd (omega arith)
fill_row_lem size i all (u ∷ us) (cursor ∷ cursors) table filled sized bounded parallel covers rest
      granted =
    elim (Bool-cases (leb size filled)) [
      | inl full ↦
          row_start size i all (u ∷ us) (cursor ∷ cursors) table filled
            (row_full size i u us cursor cursors table filled full) bounded covers granted
            (λ h. ground arith)
      | inr room ↦ elim (Bool-cases u.healthy) [
        | inl healthy ↦
            let s = seek_lem size i table filled cursor sized (ground arith) covers.0 in
            let g = Grows-set i table s.idx filled s.free in
            let at : is_healthy all i ≡ true = rw add-zero at (sym (rest 0) ∙ healthy) in
            let ih =
              fill_row_lem size (suc i) all us cursors (set table s.idx i) (filled + 1)
                (g.sized ∙ sized) (ground arith) (omega arith)
                (All-mono (Covers table filled) (Covers (set table s.idx i) (filled + 1)) g.covers
                  cursors covers.1)
                (IsRest-tail all i u us rest)
                (Granted-set all i table s.idx filled s.free at granted) in
            record {
              after = record (ih.after) { cursors = s.unread ∷ ih.after.cursors };
              returned =
                  row_healthy size i u us cursor cursors table filled (set table s.idx i) s.unread
                    room healthy s.returned
                  ∙ keep_cursor-some s.unread _ ih.after ih.returned;
              grows = Grows-trans _ _ _ _ _ _ g ih.grows;
              bounded = ih.bounded;
              covers = (ih.grows.covers s.unread s.covers, ih.covers);
              parallel = ap suc ih.parallel;
              granted = ih.granted;
              progress = λ h lt. omega (arith, ih.grows.more);
            }
        | inr sick ↦
            let ih =
              fill_row_lem size (suc i) all us cursors table filled sized bounded (omega arith)
                covers.1 (IsRest-tail all i u us rest) granted in
            record {
              after = record (ih.after) { cursors = cursor ∷ ih.after.cursors };
              returned =
                  row_sick size i u us cursor cursors table filled room sick
                  ∙ keep_cursor-some cursor _ ih.after ih.returned;
              grows = ih.grows;
              bounded = ih.bounded;
              covers = (ih.grows.covers cursor covers.0, ih.covers);
              parallel = ap suc ih.parallel;
              granted = ih.granted;
              progress = λ h lt. ih.progress (rw sick at h) lt;
            }
      ]
    ]
