-- ===== src/DiskCache/Cache/Accounting/Purges.antt =====
-- The sweep and the purges against the accounts.
use peretum.DiskCache.Cache.Accounting.{bytes_in, IsAccounted}
use peretum.DiskCache.Cache.{
  Cache, sweep_files, sweep_shard, sweep_loop, sweep, purge_loop, purge_where,
}
use peretum.DiskCache.Shard.{
  Shard, EntryMeta, keys_where, size_where, drop_keys, expired, find_expired,
}
use peretum.DiskCache.Shard.Selective.{kept, drop_keys-keys_where, find_expired_lem}
use peretum.DiskCache.Shard.Valid.{IsValid, bytes_of}
use peretum.Prelude.Bytes.{Bytes}
use peretum.Prelude.Int.{ℤ, pos, pos_part, neg_part, ◌+ℤ◌, ◌-ℤ◌, +ℤ_parts, -ℤ_parts, eq_of_parts}
use peretum.Prelude.{
  ℕ, suc, ◌+◌, ◌≡◌, ◌∙◌, refl, ap, Bool, some, List, [], ◌∷◌, arith, length, All, ltb,
  if◌then◌else◌,
}

-- The maps of the shards after, against those before: what passes the test is gone.
unfoldable pub Drops : (Bytes → EntryMeta → Bool) → List Shard → List Shard → Type 0
Drops p [] [] = Unit
Drops p (s ∷ shards) (s' ∷ shards') = (s'.lru ≡ kept p s.lru) × Drops p shards shards'
Drops p _ _ = ⊥

-- The number of the entries that pass the test, and the sum of their sizes.
unfoldable pub count_in : (Bytes → EntryMeta → Bool) → List Shard → ℕ
count_in p [] = 0
count_in p (s ∷ shards) = length (keys_where p s.lru) + count_in p shards

unfoldable pub dropped_in : (Bytes → EntryMeta → Bool) → List Shard → ℕ
dropped_in p [] = 0
dropped_in p (s ∷ shards) = size_where p s.lru + dropped_in p shards

smaller :
    (s s' : Shard) (n : ℕ)
    → IsValid s
    → IsValid s'
    → s'.size ≡ s.size -ℤ pos n
    → bytes_of s' + n ≡ bytes_of s
smaller s s' n v v' e = omega (
  arith,
  ap pos_part v.sized,
  ap neg_part v.sized,
  ap pos_part v'.sized,
  ap neg_part v'.sized,
  ap pos_part e,
  ap neg_part e,
  -ℤ_parts s.size (pos n),
)

purge_loop_step :
    (p : Bytes → EntryMeta → Bool) (s s' : Shard) (shards shards' : List Shard) (purged : ℕ)
    → drop_keys (keys_where p s.lru) s ≡ some s'
    → purge_loop p shards ≡ some (shards', purged)
    → purge_loop p (s ∷ shards) ≡ some (s' ∷ shards', length (keys_where p s.lru) + purged)
unfolding purge_loop
purge_loop_step p s s' shards shards' purged e f = rw (e, f)

purge_loop_lem :
    (p : Bytes → EntryMeta → Bool) (shards : List Shard)
    → All IsValid shards
    → (shards' : List Shard) × (purge_loop p shards ≡ some (shards', count_in p shards))
      × All IsValid shards'
      × Drops p shards shards'
      × (length shards' ≡ length shards)
      × (bytes_in shards' + dropped_in p shards ≡ bytes_in shards)
unfolding purge_loop count_in Drops dropped_in bytes_in
purge_loop_lem p [] v = ([], refl, tt, tt, refl, refl)
purge_loop_lem p (s ∷ shards) (v, vs) =
    let (s', done, v', lru, size) = drop_keys-keys_where p s v in
    let (shards', rest, vs', drops, len, bytes) = purge_loop_lem p shards vs in
    (
      s' ∷ shards',
      purge_loop_step p s s' shards shards' (count_in p shards) done rest,
      (v', vs'),
      (lru, drops),
      ap suc len,
      omega (arith, bytes, smaller s s' (size_where p s.lru) v v' size),
    )

purge_where-some :
    (p : Bytes → EntryMeta → Bool) (d : Cache) (shards : List Shard) (purged : ℕ)
    → purge_loop p d.shards ≡ some (shards, purged)
    → purge_where p d
      ≡ some (record d { shards = shards; current_size = d.current_size -ℤ pos purged }, purged)
unfolding purge_where
purge_where-some p d shards purged e = rw e

-- What a purge does to a cache: its shards stay valid, exactly the entries that pass the test are
-- gone, and `CurrentSize` stands too high by the sizes of the entries purged less their number.
pub record Purges (p : Bytes → EntryMeta → Bool) (d d' : Cache) : Type 0 where
  pub valid : All IsValid d'.shards
  pub drops : Drops p d.shards d'.shards
  pub same_disk : d'.disk ≡ d.disk
  pub drift :
      d'.current_size +ℤ pos (count_in p d.shards)
      ≡ pos (bytes_in d'.shards + dropped_in p d.shards)

-- On a cache that is accounted for, a purge succeeds with the number of the entries that pass its
-- test, and exactly those are gone from valid shards. No file is removed, and `CurrentSize` exceeds
-- the sum of the sizes that are left by the sizes of the purged entries less their number.
pub purge_where-Purges :
    (p : Bytes → EntryMeta → Bool) (d : Cache)
    → IsAccounted d
    → (d' : Cache) × (purge_where p d ≡ some (d', count_in p d.shards)) × Purges p d d'
purge_where-Purges p d a =
    let (shards, done, v, drops, len, bytes) = purge_loop_lem p d.shards a.valid in
    let n = count_in p d.shards in
    (
      record d { shards = shards; current_size = d.current_size -ℤ pos n },
      purge_where-some p d shards n done,
      record {
        valid = v;
        drops = drops;
        same_disk = refl;
        drift = eq_of_parts _ _ (
            omega (
              arith,
              +ℤ_parts (d.current_size -ℤ pos n) (pos n),
              -ℤ_parts d.current_size (pos n),
              ap pos_part a.sized,
              ap neg_part a.sized,
              bytes,
            ));
      },
    )

abbrev lower : ℤ → ℕ → ℤ
lower size n = if ltb 0 n then size -ℤ pos n else size

swept : ℕ → Shard → Cache → Cache
swept now s d = record d {
  current_size = lower d.current_size (size_where (expired now) s.lru);
  expirations = d.expirations + length (keys_where (expired now) s.lru);
  disk = sweep_files d.cache_dir (keys_where (expired now) s.lru) d.disk;
}

sweep_shard-some :
    (now : ℕ) (s s' : Shard) (d : Cache)
    → find_expired now s ≡ some (s', keys_where (expired now) s.lru, size_where (expired now) s.lru)
    → sweep_shard now s d ≡ some (s', swept now s d)
unfolding sweep_shard swept
sweep_shard-some now s s' d e = rw e

sweep_loop_step :
    (now : ℕ) (s s' : Shard) (shards shards' : List Shard) (d d' d'' : Cache)
    → sweep_shard now s d ≡ some (s', d')
    → sweep_loop now shards d' ≡ some (shards', d'')
    → sweep_loop now (s ∷ shards) d ≡ some (s' ∷ shards', d'')
unfolding sweep_loop
sweep_loop_step now s s' shards shards' d d' d'' e f = rw (e, f)

lower_lem :
    (size : ℤ) (n : ℕ)
    → pos_part (lower size n) + neg_part size + n ≡ neg_part (lower size n) + pos_part size
lower_lem size n = ground (arith, -ℤ_parts size (pos n))

swept-current_size :
    (now : ℕ) (s : Shard) (d : Cache)
    → (swept now s d).current_size ≡ lower d.current_size (size_where (expired now) s.lru)
unfolding swept
swept-current_size now s d = refl

sweep_loop_lem :
    (now : ℕ) (shards : List Shard) (d : Cache)
    → All IsValid shards
    → (shards' : List Shard) × (d' : Cache) × (sweep_loop now shards d ≡ some (shards', d'))
      × All IsValid shards'
      × Drops (expired now) shards shards'
      × (length shards' ≡ length shards)
      × (pos_part d'.current_size + neg_part d.current_size + bytes_in shards
          ≡ neg_part d'.current_size + pos_part d.current_size + bytes_in shards')
unfolding sweep_loop Drops bytes_in
sweep_loop_lem now [] d v = ([], d, refl, tt, tt, refl, omega arith)
sweep_loop_lem now (s ∷ shards) d (v, vs) =
    let (s', done, v', lru, size) = find_expired_lem now s v in
    let d1 = swept now s d in
    let (shards', d', rest, vs', drops, len, bytes) = sweep_loop_lem now shards d1 vs in
    (
      s' ∷ shards',
      d',
      sweep_loop_step now s s' shards shards' d d1 d' (sweep_shard-some now s s' d done) rest,
      (v', vs'),
      (lru, drops),
      ap suc len,
      omega (
        arith,
        bytes,
        smaller s s' (size_where (expired now) s.lru) v v' size,
        ap pos_part (swept-current_size now s d),
        ap neg_part (swept-current_size now s d),
        lower_lem d.current_size (size_where (expired now) s.lru),
      ),
    )

sweep-some :
    (now : ℕ) (d d' : Cache) (shards : List Shard)
    → sweep_loop now d.shards d ≡ some (shards, d')
    → sweep now d ≡ some (record d' { shards = shards })
unfolding sweep
sweep-some now d d' shards e = rw e

-- On a cache that is accounted for, the sweep succeeds, exactly the entries whose time has passed
-- are gone from its shards, and it stays accounted for.
pub sweep-IsAccounted :
    (now : ℕ) (d : Cache)
    → IsAccounted d
    → (d' : Cache) × (sweep now d ≡ some d')
      × IsAccounted d'
      × Drops (expired now) d.shards d'.shards
sweep-IsAccounted now d a =
    let (shards, d', done, v, drops, len, bytes) = sweep_loop_lem now d.shards d a.valid in
    (
      record d' { shards = shards },
      sweep-some now d d' shards done,
      record {
        count = len ∙ a.count;
        valid = v;
        sized = eq_of_parts _ _ (omega (arith, bytes, ap pos_part a.sized, ap neg_part a.sized));
      },
      drops,
    )
