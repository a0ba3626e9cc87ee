-- ===== src/DiskCache/Tests.antt =====
-- Runs of the disk cache, and the theorems at concrete inputs.
use peretum.DiskCache.Cache.Accounting.Purges.{
  Drops, Purges, count_in, purge_where-Purges, sweep-IsAccounted,
}
use peretum.DiskCache.Cache.Accounting.{IsAccounted, new-IsAccounted, touch-IsAccounted}
use peretum.DiskCache.Cache.Space.{Ensures, ensure_space-Ensures}
use peretum.DiskCache.Cache.{
  File, Disk, Cache, meta_ext, new, cache_path, body_ext, shard_sum, shard_index, touch,
  ensure_space, sweep, sweep_files, host_match, purge_where,
}
use peretum.DiskCache.Metadata.RoundTrip.{joined, IsStorable, read_metadata-write_metadata}
use peretum.DiskCache.Metadata.{Header, Metadata, join, write_metadata, read_metadata}
use peretum.DiskCache.Responses.Atomic.{read_after, write_atomic-AllOrNothing}
use peretum.DiskCache.Responses.Hits.{tracked_size, stream-set_response}
use peretum.DiskCache.Responses.{
  Attempt, write_atomic, hit, not_served, set_response_to_cache, stream_cached_response,
}
use peretum.DiskCache.Shard.Selective.{kept, find_expired_lem}
use peretum.DiskCache.Shard.Valid.{IsValid, new_lru_shard-IsValid, put-IsValid}
use peretum.DiskCache.Shard.{
  Shard, new_lru_shard, put, keys_where, size_where, expired, find_expired,
}
use peretum.Prelude.Bytes.{Bytes, codes, equal, has_prefix}
use peretum.Prelude.Dict.{lookup}
use peretum.Prelude.Int.{pos, ◌-ℤ◌}
use peretum.DiskCache.Offline.{FileSystem, purge_files, is_meta_file}
use peretum.DiskCache.Offline.Misses.{stream-purge_files}
use peretum.Prelude.{
  ℕ, ap, sym, ◌∙◌, none, Option, ◌≡◌, ◌⊎◌, ◌↔◌, refl, Bool, true, false, ◌&&◌, some, [], ◌∷◌, ◌++◌,
  arith, length,
}

abbrev key : Bytes
key = codes "ab12"

abbrev host : Bytes
host = codes "h"

abbrev page : Header
page = (codes "Vary", codes "a" ∷ codes "b" ∷ []) ∷ []

abbrev one_file : Disk
one_file =
    (
      cache_path (codes "/c") key meta_ext,
      record { content = write_metadata 200 host (codes "/") page; mod_time = 1 },
    )
    ∷ []

abbrev empty_cache : Cache
empty_cache = new (codes "/c") 100 0 []

abbrev one_entry : Cache
one_entry = touch key 40 5 (new (codes "/c") 100 10 one_file)

one_entry-IsAccounted : IsAccounted one_entry
one_entry-IsAccounted = touch-IsAccounted key 40 5 _ (new-IsAccounted (codes "/c") 100 10 one_file)

index_of_key : shard_index key ≡ 1
unfolding shard_index shard_sum
index_of_key = refl

touch-IsAccounted_example : IsAccounted (touch key 40 6 empty_cache)
touch-IsAccounted_example =
    touch-IsAccounted key 40 6 empty_cache (new-IsAccounted (codes "/c") 100 0 [])

ensure_space-Ensures_example :
    (d' : Cache) × (ok : Bool) × (ensure_space 90 one_entry ≡ some (d', ok))
    × Ensures 90 one_entry d' ok
unfolding touch new
ensure_space-Ensures_example = ensure_space-Ensures 90 one_entry one_entry-IsAccounted refl

purge_where-Purges_example :
    (d' : Cache) × (purge_where (host_match one_entry host) one_entry
      ≡ some (d', count_in (host_match one_entry host) one_entry.shards))
    × Purges (host_match one_entry host) one_entry d'
purge_where-Purges_example =
    purge_where-Purges (host_match one_entry host) one_entry one_entry-IsAccounted

sweep-IsAccounted_example :
    (d' : Cache) × (sweep 20 one_entry ≡ some d')
    × IsAccounted d'
    × Drops (expired 20) one_entry.shards d'.shards
sweep-IsAccounted_example = sweep-IsAccounted 20 one_entry one_entry-IsAccounted

abbrev first_try : Attempt
first_try = record {
  tmp = codes "/c/tmp";
  creates = true;
  writes = true;
  syncs = true;
  closes = true;
  renames = true;
}

abbrev failed_rename : Attempt
failed_rename = record first_try { renames = false }

abbrev failed : Disk × Bool
failed = write_atomic failed_rename (codes "/c/x") (codes "new") 2 []

-- The file that cannot be renamed is left behind.
left_behind :
    lookup (codes "/c/tmp") failed.0 ≡ some (record { content = codes "new"; mod_time = 2 })
unfolding write_atomic equal
left_behind = refl

write_atomic-AllOrNothing_example :
    ((failed.1 ≡ true) ↔ (true && true && true && true && false ≡ true))
    × ((q : Bytes)
        → (failed.1 ≡ true) ⊎ (equal (codes "/c/tmp") q ≡ false)
        → lookup q failed.0 ≡ read_after failed_rename (codes "/c/x") (codes "new") 2 [] failed.1 q)
write_atomic-AllOrNothing_example =
    write_atomic-AllOrNothing failed_rename (codes "/c/x") (codes "new") 2 []

page-IsStorable : IsStorable 200 host (codes "/") page
unfolding join
page-IsStorable = record {
  status_fits = omega arith;
  host_short = omega arith;
  path_short = omega arith;
  few = omega arith;
  short = ((omega arith, omega arith), tt);
  distinct = (refl, tt);
}

read_metadata-write_metadata_example :
    read_metadata (write_metadata 200 host (codes "/") page ++ codes "rest")
    ≡ some (
      record { status_code = 200; host = host; path = codes "/"; headers = joined page },
      codes "rest",
    )
read_metadata-write_metadata_example =
    read_metadata-write_metadata 200 host (codes "/") page (codes "rest") page-IsStorable

abbrev unlimited : Cache
unlimited = new (codes "/c") 0 0 []

stream-set_response_example :
    (d1 : Cache) × (set_response_to_cache first_try first_try key host
        (codes "/")
        200
        page
        (codes "hello")
        3
        unlimited
      ≡ some (d1, true))
    × ((stream_cached_response key 0 9 true d1).1
        ≡ hit
            (record { status_code = 200; host = host; path = codes "/"; headers = joined page })
            6
            (codes "hello"))
    × (tracked_size key (stream_cached_response key 0 9 true d1).0
        ≡ some (length (write_metadata 200 host (codes "/") page)))
unfolding ensure_space new equal cache_path
stream-set_response_example =
    stream-set_response first_try first_try key host (codes "/") 200 page (codes "hello") 3 0 9
      unlimited unlimited refl refl (refl, refl) page-IsStorable refl refl refl
      (new-IsAccounted (codes "/c") 0 0 [])

abbrev one_shard : Shard
one_shard = (put key 7 4 1 new_lru_shard).0

put-IsValid_example : IsValid one_shard
put-IsValid_example = put-IsValid key 7 4 1 new_lru_shard new_lru_shard-IsValid

find_expired_lem_example :
    (s' : Shard) × (find_expired 5 one_shard
      ≡ some (s', keys_where (expired 5) one_shard.lru, size_where (expired 5) one_shard.lru))
    × IsValid s'
    × (s'.lru ≡ kept (expired 5) one_shard.lru)
    × (s'.size ≡ one_shard.size -ℤ pos (size_where (expired 5) one_shard.lru))
find_expired_lem_example =
    find_expired_lem 5 one_shard (put-IsValid key 7 4 1 new_lru_shard new_lru_shard-IsValid)

abbrev body_file : File
body_file = record { content = codes "hello"; mod_time = 1 }

abbrev body_path : Bytes
body_path = cache_path (codes "/c") key body_ext

-- The sweep of an entry leaves the file of its body.
sweep_leaves_body :
    lookup body_path (sweep_files (codes "/c") (key ∷ []) ((body_path, body_file) ∷ []))
    ≡ some body_file
unfolding sweep_files cache_path equal
sweep_leaves_body = refl

abbrev stored_files : Cache
stored_files = record unlimited { disk = one_file }

abbrev all_succeed : FileSystem
all_succeed = record {
  readable = true;
  lists = λ name. true;
  opens = λ path. true;
  removes = λ path. true;
}

one_file_named : is_meta_file (codes "/c") (cache_path (codes "/c") key meta_ext) ≡ true
unfolding is_meta_file cache_path has_prefix equal peretum.Prelude.Text.count
    peretum.Prelude.Text.has_suffix
one_file_named = refl

one_file_parsed :
    read_metadata (write_metadata 200 host (codes "/") page)
    ≡ some (record { status_code = 200; host = host; path = codes "/"; headers = joined page }, [])
unfolding read_metadata write_metadata peretum.DiskCache.Metadata.read_metadata_v2
    peretum.DiskCache.Metadata.read_u16 peretum.DiskCache.Metadata.read_string
    peretum.DiskCache.Metadata.read_u32 peretum.DiskCache.Metadata.read_full
    peretum.DiskCache.Metadata.read_header_map peretum.DiskCache.Metadata.read_headers
one_file_parsed = refl

stream-purge_files_example :
    (disk : Disk) × (purged : ℕ) × (purge_files (codes "/c") (λ h p. true) all_succeed one_file
      ≡ some (disk, purged))
    × ((stream_cached_response key 0 9 true (record stored_files { disk = disk })).1 ≡ not_served)
unfolding new equal cache_path
stream-purge_files_example =
    stream-purge_files (λ h p. true) all_succeed key 0 9 true stored_files
      (record { content = write_metadata 200 host (codes "/") page; mod_time = 1 })
      (record { status_code = 200; host = host; path = codes "/"; headers = joined page }) [] refl
      refl refl refl one_file_named refl one_file_parsed refl
