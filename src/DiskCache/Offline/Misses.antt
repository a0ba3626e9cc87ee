-- ===== src/DiskCache/Offline/Misses.antt =====
-- Behind an offline purge the entries that match are misses.
use peretum.DiskCache.Cache.{File, Disk, Cache, meta_ext, cache_path}
use peretum.DiskCache.Metadata.{Metadata, read_metadata}
use peretum.DiskCache.Responses.{not_served, stream_cached_response}
use peretum.Prelude.Bytes.{Bytes, equal, equal_iff, equal_refl}
use peretum.Prelude.Dict.{lookup, lookup-delete}
use peretum.Prelude.{
  ℕ, ◌+◌, ◌≡◌, refl, ap, ◌∙◌, Bool, true, false, Option, none, some, [], ◌∷◌, arith, Bool-cases,
  inl, inr,
}
use peretum.DiskCache.Offline.{
  FileSystem, shard_name, is_meta_file, purge_probe, Match, is_purged, body_of, remove, purge_loop,
  purge_files,
}

lookup-remove-none :
    (fs : FileSystem) (q p : Bytes) (disk : Disk)
    → lookup p disk ≡ none
    → lookup p (remove fs q disk) ≡ none
lookup-remove-none fs q p disk h = ground (arith, lookup-delete q p disk)

-- What is gone stays gone.
purge_loop-gone :
    (dir : Bytes) (matches : Match) (fs : FileSystem) (entries disk : Disk) (n : ℕ) (p : Bytes)
    → lookup p disk ≡ none
    → lookup p (purge_loop dir matches fs entries disk n).0 ≡ none
unfolding purge_loop
purge_loop-gone dir matches fs [] disk n p h = h
purge_loop-gone dir matches fs (entry ∷ entries) disk n p h =
    let h1 = lookup-remove-none fs entry.0 p disk h in
    let h2 = lookup-remove-none fs (body_of entry.0) p (remove fs entry.0 disk) h1 in
    elim (Bool-cases (is_purged fs dir matches entry)) [
      | inl hit ↦ rw hit (purge_loop-gone dir matches fs entries _ (n + 1) p h2)
      | inr miss ↦ rw miss (purge_loop-gone dir matches fs entries disk n p h)
    ]

removed :
    (fs : FileSystem) (q p : Bytes) (disk : Disk)
    → q ≡ p
    → fs.removes p ≡ true
    → lookup p (remove fs q disk) ≡ none
removed fs q p disk e can = ground (arith, lookup-delete q p disk, equal_refl p)

purge_loop-removes :
    (dir : Bytes) (matches : Match) (fs : FileSystem) (entries disk : Disk) (n : ℕ) (p : Bytes)
    (f : File)
    → fs.removes p ≡ true
    → lookup p entries ≡ some f
    → is_purged fs dir matches (p, f) ≡ true
    → lookup p (purge_loop dir matches fs entries disk n).0 ≡ none
unfolding purge_loop
purge_loop-removes dir matches fs [] disk n p f can found purged = absurd (cc)
purge_loop-removes dir matches fs ((q, g) ∷ entries) disk n p f can found purged =
    elim (Bool-cases (equal q p)) [
      | inl same ↦
          let path : q ≡ p = (equal_iff q p).0 same in
          let first : some g ≡ some f = ground arith in
          let hit : is_purged fs dir matches (q, g) ≡ true =
            ap (λ (x : Bytes). is_purged fs dir matches (x, g)) path
            ∙ ap (λ (o : Option File). purged_as o) first
            ∙ purged in
          rw hit (
            purge_loop-gone dir matches fs entries _ (n + 1) p (
              lookup-remove-none fs (body_of q) p (remove fs q disk)
                (removed fs q p disk path can)))
      | inr other ↦
          let later : lookup p entries ≡ some f = ground arith in
          elim (Bool-cases (is_purged fs dir matches (q, g))) [
            | inl hit ↦
                rw hit (purge_loop-removes dir matches fs entries _ (n + 1) p f can later purged)
            | inr miss ↦
                rw miss (purge_loop-removes dir matches fs entries disk n p f can later purged)
          ]
    ]
  where
    purged_as : Option File → Bool
    purged_as none = false
    purged_as (some x) = is_purged fs dir matches (p, x)

stream_missing :
    (key : Bytes) (ttl now : ℕ) (copied : Bool) (d : Cache)
    → lookup (cache_path d.cache_dir key meta_ext) d.disk ≡ none
    → (stream_cached_response key ttl now copied d).1 ≡ not_served
unfolding stream_cached_response
stream_missing key ttl now copied d gone = ground arith

purge_probe_lem :
    (fs : FileSystem) (path : Bytes) (f : File) (m : Metadata) (rest : Bytes)
    → fs.opens path ≡ true
    → read_metadata f.content ≡ some (m, rest)
    → purge_probe fs path f ≡ some (m.host, m.path)
unfolding purge_probe
purge_probe_lem fs path f m rest opened parsed = ground arith

is_purged_lem :
    (fs : FileSystem) (dir : Bytes) (matches : Match) (path : Bytes) (f : File) (m : Metadata)
    (rest : Bytes)
    → fs.lists (shard_name dir path) ≡ true
    → fs.opens path ≡ true
    → is_meta_file dir path ≡ true
    → read_metadata f.content ≡ some (m, rest)
    → matches m.host m.path ≡ true
    → is_purged fs dir matches (path, f) ≡ true
unfolding is_purged
is_purged_lem fs dir matches path f m rest listed opened named parsed hit =
    rw (listed, named, purge_probe_lem fs path f m rest opened parsed, hit) refl

purge_files_read :
    (dir : Bytes) (matches : Match) (fs : FileSystem) (disk : Disk)
    → fs.readable ≡ true
    → purge_files dir matches fs disk ≡ some (purge_loop dir matches fs disk disk 0)
unfolding purge_files
purge_files_read dir matches fs disk e = rw e refl

-- A purged entry is a miss at once: if the purge can read the cache's directory, and list the shard of
-- a key, open its metadata file and remove it, and the file holds metadata whose host and path match,
-- then the response of that key is not served behind the purge. The path of the file is of the form
-- of a metadata file in a shard's directory.
pub stream-purge_files :
    (matches : Match) (fs : FileSystem) (key : Bytes) (ttl now : ℕ) (copied : Bool) (d : Cache)
    (f : File) (m : Metadata) (rest : Bytes)
    → fs.readable ≡ true
    → fs.lists (shard_name d.cache_dir (cache_path d.cache_dir key meta_ext)) ≡ true
    → fs.opens (cache_path d.cache_dir key meta_ext) ≡ true
    → fs.removes (cache_path d.cache_dir key meta_ext) ≡ true
    → is_meta_file d.cache_dir (cache_path d.cache_dir key meta_ext) ≡ true
    → lookup (cache_path d.cache_dir key meta_ext) d.disk ≡ some f
    → read_metadata f.content ≡ some (m, rest)
    → matches m.host m.path ≡ true
    → (disk : Disk) × (purged : ℕ) × (purge_files d.cache_dir matches fs d.disk
        ≡ some (disk, purged))
      × ((stream_cached_response key ttl now copied (record d { disk = disk })).1 ≡ not_served)
stream-purge_files matches fs key ttl now copied d f m rest dir listed opened can named found parsed
      hit =
    let path = cache_path d.cache_dir key meta_ext in
    let r = purge_loop d.cache_dir matches fs d.disk d.disk 0 in
    let gone =
      purge_loop-removes d.cache_dir matches fs d.disk d.disk 0 path f can found
        (is_purged_lem fs d.cache_dir matches path f m rest listed opened named parsed hit) in
    (
      r.0,
      r.1,
      purge_files_read d.cache_dir matches fs d.disk dir,
      stream_missing key ttl now copied (record d { disk = r.0 }) gone,
    )
