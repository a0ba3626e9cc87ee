-- ===== src/DiskCache/Cache.antt =====
-- `DiskCache` of internal/cache/disk/diskcache.go and operations.go: the shards, the counters and the
-- files. The disk is a map from paths to files; directories are not modelled. Keys are SHA-256
-- digests in hexadecimal, so `key[:2]` is in range. Times are Unix nanoseconds and come with the
-- calls. `none` as the whole result of a call is a panic, or the end of the fuel of a loop.
pub mod Accounting
pub mod Space
use peretum.DiskCache.Metadata.{Header, Metadata, write_metadata, read_metadata}
use peretum.DiskCache.Shard.{
  Shard, EntryMeta, new_lru_shard, put, remove, evict, keys_where, drop_keys, find_expired, len,
}
use peretum.Prelude.Bytes.{Bytes, codes, equal, has_prefix}
use peretum.Prelude.Dict.{lookup, assign, delete}
use peretum.Prelude.Int.{ℤ, pos, ◌+ℤ◌, ◌-ℤ◌, ltb_ℤ}
use peretum.Prelude.{
  ℕ, zero, suc, ◌+◌, ◌-◌, ◌*◌, ◌%◌, ◌^◌, Bool, true, false, not, ◌&&◌, ◌||◌, Option, none, some,
  ◌>>=◌, List, [], ◌∷◌, ◌++◌, ◌==◌, ltb, leb, if◌then◌else◌, length, take, drop, replicate, set,
  get_or,
}

pub record File : Type 0 where
  pub content : Bytes
  pub mod_time : ℕ

abbrev pub Disk : Type 0
Disk = List (Bytes × File)

pub record Cache : Type 0 where
  pub cache_dir : Bytes
  pub max_size : ℕ
  pub max_age : ℕ
  pub current_size : ℤ
  pub shards : List Shard
  pub disk : Disk
  pub hits : ℕ
  pub misses : ℕ
  pub evictions : ℕ
  pub expirations : ℕ

abbrev pub shard_count : ℕ
shard_count = 32

abbrev pub meta_ext : Bytes
meta_ext = codes ".meta"

abbrev pub body_ext : Bytes
body_ext = codes ".body"

-- `New`, on the files that the directory holds already.
unfoldable pub new : Bytes → ℕ → ℕ → Disk → Cache
new dir max_size max_age disk = record {
  cache_dir = dir;
  max_size = max_size;
  max_age = max_age;
  current_size = pos 0;
  shards = replicate shard_count new_lru_shard;
  disk = disk;
  hits = 0;
  misses = 0;
  evictions = 0;
  expirations = 0;
}

-- `filepath.Join(cacheDir, key[:2], key[2:]+ext)`, for a clean directory.
unfoldable pub cache_path : Bytes → Bytes → Bytes → Bytes
cache_path dir key ext = dir ++ codes "/" ++ take 2 key ++ codes "/" ++ drop 2 key ++ ext

-- The loop over the first two bytes, on a uint32, and its lowest five bits.
unfoldable pub shard_sum : Bytes → ℕ → ℕ
shard_sum [] sum = sum
shard_sum (c ∷ h) sum = shard_sum h ((sum * 31 + c) % 2 ^ 32)

unfoldable pub shard_index : Bytes → ℕ
unfolding shard_sum
shard_index key = shard_sum (take 2 key) 0 % shard_count

unfoldable pub shard : Bytes → Cache → Shard
shard key d = get_or d.shards (shard_index key) new_lru_shard

unfoldable pub touch : Bytes → ℕ → ℕ → Cache → Cache
touch key size now d =
    let expires_at = if ltb 0 d.max_age then now + d.max_age else 0 in
    let r = put key size expires_at now (shard key d) in
    record d { shards = set d.shards (shard_index key) r.0; current_size = d.current_size +ℤ r.1 }

-- The method `remove`, which leaves the files.
unfoldable pub untrack : Bytes → Cache → Cache
untrack key d =
    let r = remove key (shard key d) in
    let shards = set d.shards (shard_index key) r.0 in
    elim r.1 [
      | none ↦ record d { shards = shards }
      | some size ↦ record d { shards = shards; current_size = d.current_size -ℤ pos size }
    ]

unfoldable pub remove_files : Bytes → Bytes → Disk → Disk
remove_files dir key disk =
    delete (cache_path dir key body_ext) (delete (cache_path dir key meta_ext) disk)

-- The loop of the method `evict`: the first shard that has an entry gives up its last one.
unfoldable pub evict_loop : List Shard → Option (List Shard × Option (Bytes × ℕ))
evict_loop [] = some ([], none)
evict_loop (s ∷ shards) = elim (evict s) [
  | none ↦ none
  | some r ↦ elim r.1 [
    | none ↦ do (shards', victim) ← evict_loop shards; some (r.0 ∷ shards', victim)
    | some victim ↦ some (r.0 ∷ shards, some victim)
  ]
]

unfoldable pub evict_oldest : Cache → Option (Cache × Bool)
unfolding remove_files
evict_oldest d = do
  (shards, victim) ← evict_loop d.shards
  elim victim [
    | none ↦ some (record d { shards = shards }, false)
    | some v ↦ some (
      record d {
        shards = shards;
        current_size = d.current_size -ℤ pos v.1;
        evictions = d.evictions + 1;
        disk = remove_files d.cache_dir v.0 d.disk;
      },
      true,
    )
  ]

abbrev pub is_over : ℕ → Cache → Bool
is_over size d = ltb_ℤ (pos d.max_size) (d.current_size +ℤ pos size)

-- The loop of `ensureSpace`, on fuel.
unfoldable pub ensure_loop : ℕ → ℕ → Cache → Option (Cache × Bool)
ensure_loop zero size d = none
ensure_loop (suc n) size d = elim (is_over size d) [
  | false ↦ some (d, true)
  | true ↦ elim (evict_oldest d) [
    | none ↦ none
    | some r ↦ elim r.1 [ false ↦ some (r.0, false) | true ↦ ensure_loop n size r.0 ]
  ]
]

unfoldable pub entries : List Shard → ℕ
unfolding len
entries [] = 0
entries (s ∷ shards) = len s + entries shards

-- Each round takes an entry out, so one round more than there are entries is enough.
unfoldable pub ensure_space : ℕ → Cache → Option (Cache × Bool)
ensure_space size d =
    if d.max_size == 0 then some (d, true) else ensure_loop (entries d.shards + 1) size d

-- The files of an expired entry: the path of the body is not the one that `cache_path` gives.
unfoldable pub sweep_files : Bytes → List Bytes → Disk → Disk
sweep_files dir [] disk = disk
sweep_files dir (k ∷ keys) disk =
    sweep_files dir keys
      (delete (dir ++ codes "/" ++ drop 2 k ++ body_ext) (delete (cache_path dir k meta_ext) disk))

unfoldable pub sweep_shard : ℕ → Shard → Cache → Option (Shard × Cache)
unfolding sweep_files
sweep_shard now s d = do
  (s', keys, size) ← find_expired now s
  some (
    s',
    record d {
      current_size = if ltb 0 size then d.current_size -ℤ pos size else d.current_size;
      expirations = d.expirations + length keys;
      disk = sweep_files d.cache_dir keys d.disk;
    },
  )

unfoldable pub sweep_loop : ℕ → List Shard → Cache → Option (List Shard × Cache)
sweep_loop now [] d = some ([], d)
sweep_loop now (s ∷ shards) d = do
  (s', d') ← sweep_shard now s d
  (shards', d'') ← sweep_loop now shards d'
  some (s' ∷ shards', d'')

unfoldable pub sweep : ℕ → Cache → Option Cache
sweep now d = do (shards, d') ← sweep_loop now d.shards d; some (record d' { shards = shards })

-- The test of a purge on the metadata file of a key. Other than an empty host, the host is exact.
unfoldable pub purge_match : Cache → Bytes → Bytes → Bool → Bytes → EntryMeta → Bool
purge_match d host path is_prefix k e = elim (lookup (cache_path d.cache_dir k meta_ext) d.disk) [
  | none ↦ false
  | some file ↦ elim (read_metadata file.content) [
    | none ↦ false
    | some m ↦
        (equal host [] || equal m.0.host host)
        && (if is_prefix then has_prefix m.0.path path else equal m.0.path path)
  ]
]

-- The test of `PurgeByHost`.
unfoldable pub host_match : Cache → Bytes → Bytes → EntryMeta → Bool
host_match d host k e = elim (lookup (cache_path d.cache_dir k meta_ext) d.disk) [
  | none ↦ false
  | some file ↦ elim (read_metadata file.content) [ none ↦ false | some m ↦ equal m.0.host host ]
]

-- The loop of the purges over the shards, with the number of entries taken out.
unfoldable pub purge_loop : (Bytes → EntryMeta → Bool) → List Shard → Option (List Shard × ℕ)
purge_loop p [] = some ([], 0)
purge_loop p (s ∷ shards) = do
  s' ← drop_keys (keys_where p s.lru) s
  (shards', purged) ← purge_loop p shards
  some (s' ∷ shards', length (keys_where p s.lru) + purged)

-- `CurrentSize` falls by the number of entries, and the files stay.
unfoldable pub purge_where : (Bytes → EntryMeta → Bool) → Cache → Option (Cache × ℕ)
purge_where p d = do
  (shards, purged) ← purge_loop p d.shards
  some (record d { shards = shards; current_size = d.current_size -ℤ pos purged }, purged)

unfoldable pub purge_by_host : Bytes → Cache → Option (Cache × ℕ)
purge_by_host host d = purge_where (host_match d host) d

unfoldable pub purge_by_host_path : Bytes → Bytes → Bool → Cache → Option (Cache × ℕ)
purge_by_host_path host path is_prefix d = purge_where (purge_match d host path is_prefix) d

unfoldable pub purge_files : Bytes → List (Bytes × EntryMeta) → Disk → Disk
unfolding remove_files
purge_files dir [] disk = disk
purge_files dir ((k, e) ∷ m) disk = purge_files dir m (remove_files dir k disk)

unfoldable pub purge_all_loop : Bytes → List Shard → Disk → Disk
unfolding purge_files
purge_all_loop dir [] disk = disk
purge_all_loop dir (s ∷ shards) disk = purge_all_loop dir shards (purge_files dir s.lru disk)

unfoldable pub clear : List Shard → List Shard
clear [] = []
clear (s ∷ shards) = new_lru_shard ∷ clear shards

unfoldable pub purge_all : Cache → Cache × ℕ
purge_all d = (
  record d {
    shards = clear d.shards;
    current_size = pos 0;
    disk = purge_all_loop d.cache_dir d.shards d.disk;
  },
  entries d.shards,
)
