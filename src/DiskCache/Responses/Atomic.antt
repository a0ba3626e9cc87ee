-- ===== src/DiskCache/Responses/Atomic.antt =====
-- `writeAtomic`: all of the file or nothing.
use peretum.DiskCache.Cache.{File, Disk}
use peretum.DiskCache.Responses.{Attempt, write_atomic}
use peretum.Prelude.Bytes.{Bytes, equal, equal_iff}
use peretum.Prelude.Dict.{lookup, assign, delete, lookup-assign, lookup-delete}
use peretum.Prelude.{
  ℕ, ◌≡◌, ◌⊎◌, Bool, true, false, ◌&&◌, ◌↔◌, Option, none, some, arith, if◌then◌else◌,
}

abbrev pub file_of : Bytes → ℕ → File
file_of content now = record { content = content; mod_time = now }

module _ (a : Attempt) (path content : Bytes) (now : ℕ) (disk : Disk) where
  abbrev outcome : Disk × Bool
  outcome = write_atomic a path content now disk

  -- What it leaves, read at any path: with success the new file at its path, nothing at the
  -- temporary one, and elsewhere what was there; with an error, elsewhere what was there.
  abbrev pub read_after : Bool → Bytes → Option File
  read_after ok q =
      if ok && equal path q
      then some (file_of content now)
      else if ok && equal a.tmp q
      then none
      else lookup q disk

  -- `writeAtomic` is all or nothing, whatever fails: it reports success exactly if every call
  -- succeeds. Then the path holds the new file, the temporary file is gone, and every other path
  -- holds what it held. After an error every path but the temporary one holds what it held.
  pub write_atomic-AllOrNothing :
      ((outcome.1 ≡ true) ↔ (a.creates && a.writes && a.syncs && a.closes && a.renames ≡ true))
      × ((q : Bytes)
          → (outcome.1 ≡ true) ⊎ (equal a.tmp q ≡ false)
          → lookup q outcome.0 ≡ read_after outcome.1 q)
  unfolding write_atomic
  write_atomic-AllOrNothing = (
    ground arith,
    λ q h. ground (
      arith,
      lookup-assign path q (file_of content now)
          (delete a.tmp (assign a.tmp (file_of content now) disk)),
      lookup-delete a.tmp q (assign a.tmp (file_of content now) disk),
      lookup-assign a.tmp q (file_of content now) disk,
      equal_iff path q,
      equal_iff a.tmp q,
    ),
  )
