-- ===== src/DiskCache/Offline.antt =====
-- internal/cache/disk/purge.go: a purge of the files by another process, without the index. The disk is
-- read and changed as it was listed at the start; which calls of the file system succeed is given.
pub mod Misses
use peretum.DiskCache.Cache.{File, Disk, Cache, meta_ext, body_ext, cache_path}
use peretum.DiskCache.Metadata.{Metadata, read_metadata}
use peretum.DiskCache.Responses.{not_served, stream_cached_response}
use peretum.Prelude.Bytes.{Bytes, equal, equal_iff, has_prefix, equal_refl}
use peretum.Prelude.Dict.{lookup, delete, lookup-delete}
use peretum.Prelude.Text.{is_empty, has_suffix, before, count}
use peretum.Prelude.{
  ℕ, ◌+◌, ◌-◌, ◌≡◌, refl, ap, ◌∙◌, Bool, true, false, ◌&&◌, ◌||◌, Option, none, some, [], ◌∷◌, ◌++◌,
  ◌==◌, arith, length, take, drop, if◌then◌else◌, Bool-cases, inl, inr,
}

-- The calls that succeed: `os.ReadDir` of the cache's directory and of a shard's, by its name, and
-- `os.Open` and `os.Remove` of a path.
pub record FileSystem : Type 0 where
  pub readable : Bool
  pub lists : Bytes → Bool
  pub opens : Bytes → Bool
  pub removes : Bytes → Bool

-- The name of the shard's directory of a file. 47 is "/".
abbrev pub shard_name : Bytes → Bytes → Bytes
shard_name dir path = before 47 (drop (length dir + 1) path)

-- A file of a directory of the cache's directory, with the extension of metadata.
unfoldable pub is_meta_file : Bytes → Bytes → Bool
is_meta_file dir path =
    (has_prefix path (dir ++ (47 ∷ [])) && count 47 (drop (length dir + 1) path) == 1)
    && has_suffix path meta_ext

-- `purgeProbe`: the host and the path of an entry, `none` if its file cannot be opened or parsed.
unfoldable pub purge_probe : FileSystem → Bytes → File → Option (Bytes × Bytes)
purge_probe fs path f = elim (if fs.opens path then read_metadata f.content else none) [
  | none ↦ none
  | some m ↦ some (m.0.host, m.0.path)
]

abbrev pub Match : Type 0
Match = Bytes → Bytes → Bool

abbrev pub probed : Match → Option (Bytes × Bytes) → Bool
probed matches none = false
probed matches (some (host, path)) = matches host path

-- A shard that cannot be listed is skipped with all its files.
unfoldable pub is_purged : FileSystem → Bytes → Match → Bytes × File → Bool
is_purged fs dir matches entry =
    (fs.lists (shard_name dir entry.0) && is_meta_file dir entry.0)
    && probed matches (purge_probe fs entry.0 entry.1)

abbrev pub body_of : Bytes → Bytes
body_of meta_path = take (length meta_path - length meta_ext) meta_path ++ body_ext

abbrev pub remove : FileSystem → Bytes → Disk → Disk
remove fs path disk = if fs.removes path then delete path disk else disk

-- The loops over the directories and their files.
unfoldable pub purge_loop : Bytes → Match → FileSystem → Disk → Disk → ℕ → Disk × ℕ
purge_loop dir matches fs [] disk purged = (disk, purged)
purge_loop dir matches fs (entry ∷ entries) disk purged =
    let kept = purge_loop dir matches fs entries disk purged in
    let gone =
      purge_loop dir matches fs entries (remove fs (body_of entry.0) (remove fs entry.0 disk))
        (purged + 1) in
    if is_purged fs dir matches entry then gone else kept

-- `none` if the directory cannot be read.
unfoldable pub purge_files : Bytes → Match → FileSystem → Disk → Option (Disk × ℕ)
purge_files dir matches fs disk =
    if fs.readable then some (purge_loop dir matches fs disk disk 0) else none

unfoldable pub purge_files_by_host : Bytes → Bytes → FileSystem → Disk → Option (Disk × ℕ)
unfolding purge_files
purge_files_by_host dir host = purge_files dir (λ h p. equal h host)

-- An empty host stands for every host.
abbrev pub for_host : Bytes → Bytes → Bool
for_host host h = is_empty host || equal h host

unfoldable pub purge_files_by_path : Bytes → Bytes → Bytes → FileSystem → Disk → Option (Disk × ℕ)
unfolding purge_files
purge_files_by_path dir host path = purge_files dir (λ h p. equal p path && for_host host h)

unfoldable pub purge_files_by_prefix : Bytes → Bytes → Bytes → FileSystem → Disk → Option (Disk × ℕ)
unfolding purge_files
purge_files_by_prefix dir host prefix =
    purge_files dir (λ h p. has_prefix p prefix && for_host host h)

unfoldable pub purge_files_all : Bytes → FileSystem → Disk → Option (Disk × ℕ)
unfolding purge_files
purge_files_all dir = purge_files dir (λ h p. true)
