-- ===== src/DiskCache/Responses/Hits.antt =====
-- What is stored is served.
use mathlib.Core.List.{append-nil}
use peretum.DiskCache.Cache.{
  Disk, Cache, meta_ext, body_ext, shard_count, cache_path, shard_index, shard, touch, ensure_space,
}
use peretum.DiskCache.Cache.Accounting.{IsAccounted}
use peretum.DiskCache.Metadata.RoundTrip.{joined, IsStorable, read_metadata-write_metadata}
use peretum.DiskCache.Metadata.{Header, Metadata, write_metadata, read_metadata}
use peretum.DiskCache.Responses.Atomic.{file_of, read_after, write_atomic-AllOrNothing}
use peretum.DiskCache.Responses.{
  Attempt, write_atomic, is_cacheable, store_files, set_response_to_cache, is_stale, Served, hit,
  stream_body, stream_cached_response,
}
use peretum.DiskCache.Shard.{Shard, EntryMeta, new_lru_shard, put}
use peretum.Prelude.Bytes.{Bytes, codes, equal, equal_iff, equal_refl}
use peretum.Prelude.Dict.{lookup, lookup-assign}
use peretum.Prelude.{
  ℕ, zero, suc, ◌+◌, ◌-◌, ◌<◌, ◌≡◌, ◌∙◌, sym, refl, ap, inl, Bool, true, false, ◌&&◌, Option, none,
  some, List, [], ◌∷◌, ◌++◌, arith, length, ltb, if◌then◌else◌, take, drop, get_or, set, length-set,
}

-- An attempt in which nothing fails.
abbrev pub Succeeds : Attempt → Type 0
Succeeds a = a.creates && a.writes && a.syncs && a.closes && a.renames ≡ true

-- A temporary name that is not the path of a file of the key.
abbrev pub IsTemporary : Attempt → Bytes → Cache → Type 0
IsTemporary a key d =
    (equal a.tmp (cache_path d.cache_dir key meta_ext) ≡ false)
    × (equal a.tmp (cache_path d.cache_dir key body_ext) ≡ false)

equal-append : (p s t : Bytes) → equal (p ++ s) (p ++ t) ≡ equal s t
unfolding equal
equal-append [] s t = refl
equal-append (c ∷ p) s t = ground (arith, equal-append p s t)

exts_differ : equal meta_ext body_ext ≡ false
unfolding equal
exts_differ = refl

-- The two files of a key have different paths.
paths_differ :
    (dir key : Bytes) → equal (cache_path dir key meta_ext) (cache_path dir key body_ext) ≡ false
unfolding cache_path
paths_differ dir key =
    equal-append (dir ++ codes "/" ++ take 2 key ++ codes "/" ++ drop 2 key) meta_ext body_ext
    ∙ exts_differ

-- Both files are there.
record Holds (key meta body : Bytes) (now : ℕ) (d : Cache) : Type 0 where
  in_meta : lookup (cache_path d.cache_dir key meta_ext) d.disk ≡ some (file_of meta now)
  in_body : lookup (cache_path d.cache_dir key body_ext) d.disk ≡ some (file_of body now)

store_files_ok :
    (a b : Attempt) (key meta body : Bytes) (now : ℕ) (d : Cache) (first second : Disk)
    → write_atomic a (cache_path d.cache_dir key meta_ext) meta now d.disk ≡ (first, true)
    → write_atomic b (cache_path d.cache_dir key body_ext) body now first ≡ (second, true)
    → store_files a b key meta body now d
      ≡ (touch key (length meta + length body) now (record d { disk = second }), true)
unfolding store_files
store_files_ok a b key meta body now d first second e f = rw (e, f)

touch-disk :
    (key : Bytes) (size now : ℕ) (d : Cache)
    → ((touch key size now d).disk ≡ d.disk)
      × ((touch key size now d).cache_dir ≡ d.cache_dir)
      × ((touch key size now d).max_age ≡ d.max_age)
      × (length (touch key size now d).shards ≡ length d.shards)
unfolding touch shard
touch-disk key size now d = (refl, refl, refl, length-set d.shards (shard_index key) _)

stores :
    (a : Attempt) (path content : Bytes) (now : ℕ) (disk : Disk)
    → Succeeds a
    → (disk' : Disk) × (write_atomic a path content now disk ≡ (disk', true))
      × ((q : Bytes)
          → lookup q disk' ≡ (
              if equal path q
              then some (file_of content now)
              else if equal a.tmp q
              then none
              else lookup q disk))
stores a path content now disk ok =
    let (when, reads) = write_atomic-AllOrNothing a path content now disk in
    let done = when.1 ok in
    let r = write_atomic a path content now disk in
    (
      r.0,
      ap (λ (b : Bool). (r.0, b)) done,
      λ q. reads q (inl done) ∙ ap (λ b. read_after a path content now disk b q) done,
    )

store_files-Holds :
    (a b : Attempt) (key meta body : Bytes) (now : ℕ) (d : Cache)
    → Succeeds a
    → Succeeds b
    → IsTemporary b key d
    → (d' : Cache) × (store_files a b key meta body now d ≡ (d', true))
      × Holds key meta body now d'
      × (d'.cache_dir ≡ d.cache_dir)
      × (d'.max_age ≡ d.max_age)
      × (length d'.shards ≡ length d.shards)
store_files-Holds a b key meta body now d sa sb apart =
    let meta_path = cache_path d.cache_dir key meta_ext in
    let body_path = cache_path d.cache_dir key body_ext in
    let (first, e, reads) = stores a meta_path meta now d.disk sa in
    let (second, f, reads') = stores b body_path body now first sb in
    let size = length meta + length body in
    let t = touch-disk key size now (record d { disk = second }) in
    (
      touch key size now (record d { disk = second }),
      store_files_ok a b key meta body now d first second e f,
      record {
        in_meta =
            rw (t.0, t.1)
              (reads' meta_path
                ∙ ground (
                  arith,
                  reads meta_path,
                  paths_differ d.cache_dir key,
                  equal_iff body_path meta_path,
                  equal_iff meta_path body_path,
                  equal_refl meta_path,
                  apart,
                ));
        in_body = rw (t.0, t.1) (reads' body_path ∙ ground (arith, equal_refl body_path));
      },
      t.1,
      t.2,
      t.3,
    )

set_response_stored :
    (a b : Attempt) (key host path : Bytes) (status_code : ℕ) (headers : Header) (body : Bytes)
    (now : ℕ) (d d' : Cache)
    → is_cacheable status_code body ≡ true
    → ensure_space (length (write_metadata status_code host path headers) + length body) d
      ≡ some (d', true)
    → set_response_to_cache a b key host path status_code headers body now d
      ≡ some (store_files a b key (write_metadata status_code host path headers) body now d')
unfolding set_response_to_cache
set_response_stored a b key host path status_code headers body now d d' h e = rw (h, e)

get_or-set :
    (shards : List Shard) (i : ℕ) (s : Shard)
    → i < length shards
    → get_or (set shards i s) i new_lru_shard ≡ s
get_or-set [] i s h = elim h [ ]
get_or-set (t ∷ shards) zero s h = refl
get_or-set (t ∷ shards) (suc i) s h = get_or-set shards i s (omega arith)

abbrev size_of : Option EntryMeta → Option ℕ
size_of none = none
size_of (some e) = some e.size

-- The size that the index holds for a key.
abbrev pub tracked_size : Bytes → Cache → Option ℕ
tracked_size key d = size_of (lookup key (shard key d).lru)

lookup-put :
    (key : Bytes) (size expires_at now : ℕ) (s : Shard)
    → lookup key (put key size expires_at now s).0.lru
      ≡ some (record { size = size; last_used = now; expires_at = expires_at })
unfolding put
lookup-put key size expires_at now s = ground (
  arith,
  equal_refl key,
  lookup-assign key key (record { size = size; last_used = now; expires_at = expires_at }) s.lru,
)

expires_at : ℕ → Cache → ℕ
expires_at now d = if ltb 0 d.max_age then now + d.max_age else 0

shard_index-lt : (key : Bytes) → shard_index key < shard_count
unfolding shard_index
shard_index-lt key = omega arith

shard-touch :
    (key : Bytes) (size now : ℕ) (d : Cache)
    → length d.shards ≡ shard_count
    → shard key (touch key size now d) ≡ (put key size (expires_at now d) now (shard key d)).0
unfolding touch shard expires_at
shard-touch key size now d count =
    get_or-set d.shards (shard_index key) (put key size (expires_at now d) now (shard key d)).0
      (omega (arith, count, shard_index-lt key))

tracked_size-touch :
    (key : Bytes) (size now : ℕ) (d : Cache)
    → length d.shards ≡ shard_count
    → tracked_size key (touch key size now d) ≡ some size
tracked_size-touch key size now d count =
    ap (λ (s : Shard). size_of (lookup key s.lru)) (shard-touch key size now d count)
    ∙ ap size_of (lookup-put key size (expires_at now d) now (shard key d))

-- The path from the files of a key to a hit.
stream_hit :
    (key meta body : Bytes) (ttl stored now : ℕ) (d : Cache) (m : Metadata) (rest : Bytes)
    → Holds key meta body stored d
    → is_stale ttl now (file_of meta stored) d ≡ false
    → read_metadata meta ≡ some (m, rest)
    → stream_cached_response key ttl now true d
      ≡ (touch key (length meta) now d, hit m (now - stored) body)
unfolding stream_cached_response stream_body
stream_hit key meta body ttl stored now d m rest h fresh parsed =
    ground (arith, h.in_meta, h.in_body, fresh, parsed)

-- A response that is stored without a fault is served as it was stored, as long as it is fresh: the
-- status, the host, the path and the body are those stored, and the headers have their values
-- joined. The hit leaves the index with the size of the metadata file for the key, without that of
-- the body. The cache is accounted for, the response is a success with a body, its metadata is
-- within the limits of the format, the space is granted, and the temporary name of the body's file
-- is not a path of the key.
pub stream-set_response :
    (a b : Attempt) (key host path : Bytes) (status_code : ℕ) (headers : Header) (body : Bytes)
    (stored ttl now : ℕ) (d d' : Cache)
    → Succeeds a
    → Succeeds b
    → IsTemporary b key d'
    → IsStorable status_code host path headers
    → is_cacheable status_code body ≡ true
    → ensure_space (length (write_metadata status_code host path headers) + length body) d
      ≡ some (d', true)
    → is_stale ttl now (file_of (write_metadata status_code host path headers) stored) d' ≡ false
    → IsAccounted d'
    → (d1 : Cache) × (set_response_to_cache a b key host path status_code headers body stored d
        ≡ some (d1, true))
      × ((stream_cached_response key ttl now true d1).1
          ≡ hit
              (record {
                status_code = status_code;
                host = host;
                path = path;
                headers = joined headers;
              })
              (now - stored)
              body)
      × (tracked_size key (stream_cached_response key ttl now true d1).0
          ≡ some (length (write_metadata status_code host path headers)))
stream-set_response a b key host path status_code headers body stored ttl now d d' sa sb apart s c
      room fresh acc =
    let meta = write_metadata status_code host path headers in
    let (d1, e, holds, dir, age, count) =
      store_files-Holds a b key meta body stored d' sa sb apart in
    let parsed =
      ap read_metadata (sym (append-nil meta))
      ∙ read_metadata-write_metadata status_code host path headers [] s in
    let run =
      stream_hit key meta body ttl stored now d1 _ [] holds (ground (arith, age, fresh)) parsed in
    (
      d1,
      set_response_stored a b key host path status_code headers body stored d d' c room ∙ ap some e,
      ap (λ (r : Cache × Served). r.1) run,
      ap (λ (r : Cache × Served). tracked_size key r.0) run
          ∙ tracked_size-touch key (length meta) now d1 (count ∙ acc.count),
    )
