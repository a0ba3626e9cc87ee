-- ===== src/DiskCache/Responses.antt =====
-- Storing and serving responses, in internal/cache/disk/operations.go. The outcome of each call of
-- the operating system is an argument. The response writer is left out: a served response is a
-- value.
pub mod Atomic
pub mod Hits
use peretum.DiskCache.Cache.{
  File, Disk, Cache, meta_ext, body_ext, cache_path, touch, untrack, remove_files, ensure_space,
}
use peretum.DiskCache.Metadata.{Header, Metadata, write_metadata, read_metadata}
use peretum.Prelude.Bytes.{Bytes}
use peretum.Prelude.Dict.{lookup, assign, delete}
use peretum.Prelude.{
  ℕ, ◌+◌, ◌-◌, Bool, true, false, not, ◌&&◌, ◌||◌, Option, none, some, ◌>>=◌, List, ◌==◌, ltb, leb,
  if◌then◌else◌, length,
}

-- Which calls of `writeAtomic` succeed, and the name that `os.CreateTemp` chooses.
pub record Attempt : Type 0 where
  pub tmp : Bytes
  pub creates : Bool
  pub writes : Bool
  pub syncs : Bool
  pub closes : Bool
  pub renames : Bool

unfoldable pub write_atomic : Attempt → Bytes → Bytes → ℕ → Disk → Disk × Bool
write_atomic a path content now disk =
    let file : File = record { content = content; mod_time = now } in
    let written = assign a.tmp file disk in
    if not a.creates
    then (disk, false)
    else if not a.writes
    then (delete a.tmp written, false)
    else if not a.syncs
    then (delete a.tmp written, false)
    else if not a.closes
    then (delete a.tmp written, false)
    else if not a.renames
    then (written, false)
    else (assign path file (delete a.tmp written), true)

abbrev pub is_cacheable : ℕ → Bytes → Bool
is_cacheable status_code body = not (ltb status_code 200 || leb 300 status_code || length body == 0)

-- The part of `SetResponseToCache` behind `ensureSpace`. The flag is false for an error.
unfoldable pub store_files : Attempt → Attempt → Bytes → Bytes → Bytes → ℕ → Cache → Cache × Bool
store_files a b key meta body now d =
    let meta_path = cache_path d.cache_dir key meta_ext in
    let body_path = cache_path d.cache_dir key body_ext in
    let first = write_atomic a meta_path meta now d.disk in
    let second = write_atomic b body_path body now first.0 in
    if not first.1
    then (record d { disk = first.0 }, false)
    else if not second.1
    then (record d { disk = delete meta_path second.0 }, false)
    else (touch key (length meta + length body) now (record d { disk = second.0 }), true)

unfoldable pub set_response_to_cache :
    Attempt
    → Attempt
    → Bytes
    → Bytes
    → Bytes
    → ℕ
    → Header
    → Bytes
    → ℕ
    → Cache
    → Option (Cache × Bool)
set_response_to_cache a b key host path status_code headers body now d =
    let meta = write_metadata status_code host path headers in
    if not (is_cacheable status_code body) then some (d, true) else (do
      (d', ok) ← ensure_space (length meta + length body) d
      if ok then some (store_files a b key meta body now d') else some (d', false))

-- The age limit that a caller's TTL overrides, and the test of `time.Since`.
abbrev pub age_limit : ℕ → Cache → ℕ
age_limit ttl d = if ltb 0 ttl then ttl else d.max_age

abbrev pub is_stale : ℕ → ℕ → File → Cache → Bool
is_stale ttl now info d = ltb 0 (age_limit ttl d) && ltb (age_limit ttl d) (now - info.mod_time)

unfoldable pub peek : Bytes → ℕ → ℕ → Cache → Bool
peek key ttl now d = elim (lookup (cache_path d.cache_dir key meta_ext) d.disk) [
  | none ↦ false
  | some info ↦ not (is_stale ttl now info d)
]

-- An error before anything is sent; an error behind the status and the headers; a hit with the age
-- of the entry and its body.
pub data Served : Type 0 where
  not_served : Served
  cut_off : Metadata → Served
  hit : Metadata → ℕ → Bytes → Served

-- The flag says whether the client takes the whole body.
unfoldable pub stream_body : Bytes → File → Metadata → ℕ → Bool → Cache → Cache × Served
stream_body key info m now copied d = elim (lookup (cache_path d.cache_dir key body_ext) d.disk) [
  | none ↦ (d, cut_off m)
  | some body ↦
      if copied
      then (touch key (length info.content) now d, hit m (now - info.mod_time) body.content)
      else (d, cut_off m)
]

unfoldable pub stream_cached_response : Bytes → ℕ → ℕ → Bool → Cache → Cache × Served
stream_cached_response key ttl now copied d =
    elim (lookup (cache_path d.cache_dir key meta_ext) d.disk) [
      | none ↦ (d, not_served)
      | some info ↦
          if is_stale ttl now info d
          then (untrack key (record d { disk = remove_files d.cache_dir key d.disk }), not_served)
          else (elim (read_metadata info.content) [
            | none ↦ (d, not_served)
            | some m ↦ stream_body key info m.0 now copied d
          ])
    ]
