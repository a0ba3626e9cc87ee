-- ===== src/DiskCache/Shard/Selective.antt =====
-- Taking out of a shard all entries that pass a test, as `findExpired` and the purges do.
use peretum.DiskCache.Shard.Removal.{ArePresent, delete_all, drop_keys_lem}
use peretum.DiskCache.Shard.Valid.{IsValid, entry_size, bytes_of}
use peretum.DiskCache.Shard.{
  EntryMeta, Shard, keys_where, size_where, drop_keys, expired, find_expired,
}
use peretum.Prelude.Bytes.{Bytes, equal, equal_iff, equal_refl}
use peretum.Prelude.Dict.{member, lookup, delete, is_some, HasDistinctKeys, delete_absent, total}
use peretum.Prelude.Int.{pos, ◌-ℤ◌, -ℤ_parts, eq_of_parts}
use peretum.Prelude.{
  ℕ, ◌+◌, ◌≡◌, ◌∙◌, refl, ap, inl, inr, Bool, false, none, some, List, [], ◌∷◌, arith, Bool-cases,
  if◌then◌else◌,
}

module _ (p : Bytes → EntryMeta → Bool) where
  -- The entries that do not pass the test.
  unfoldable pub kept : List (Bytes × EntryMeta) → List (Bytes × EntryMeta)
  kept [] = []
  kept ((k, e) ∷ m) = if p k e then kept m else (k, e) ∷ kept m

  -- What stays has the value that it had, and fails the test.
  pub lookup-kept :
      (k : Bytes) (m : List (Bytes × EntryMeta))
      → HasDistinctKeys m
      → lookup k (kept m)
        ≡ elim (lookup k m) [ none ↦ none | some e ↦ if p k e then none else some e ]
  unfolding kept
  lookup-kept k [] d = refl
  lookup-kept k ((j, e) ∷ m) d = ground (arith, equal_iff j k, lookup-kept k m d.1)

  member-keys_where :
      (k : Bytes) (m : List (Bytes × EntryMeta))
      → is_some (lookup k m) ≡ false
      → member (keys_where p m) k ≡ false
  unfolding keys_where
  member-keys_where k [] h = refl
  member-keys_where k ((j, e) ∷ m) h = ground (arith, equal_iff j k, member-keys_where k m)

  -- Keys that are not `k` are taken out behind the entry of `k`.
  delete_all-cons :
      (keys : List Bytes) (k : Bytes) (e : EntryMeta) (m : List (Bytes × EntryMeta))
      → member keys k ≡ false
      → delete_all keys ((k, e) ∷ m) ≡ (k, e) ∷ delete_all keys m
  unfolding delete_all
  delete_all-cons [] k e m h = refl
  delete_all-cons (j ∷ keys) k e m h =
      let other : equal k j ≡ false = ground (arith, equal_iff k j, equal_iff j k) in
      rw other (delete_all-cons keys k e (delete j m) (ground arith))

  ArePresent-cons :
      (keys : List Bytes) (k : Bytes) (e : EntryMeta) (m : List (Bytes × EntryMeta))
      → member keys k ≡ false
      → ArePresent keys m
      → ArePresent keys ((k, e) ∷ m)
  ArePresent-cons [] k e m h a = tt
  ArePresent-cons (j ∷ keys) k e m h a =
      let other : equal k j ≡ false = ground (arith, equal_iff k j, equal_iff j k) in
      rw other (a.0, ArePresent-cons keys k e (delete j m) (ground arith) a.1)

  delete_head :
      (k : Bytes) (e : EntryMeta) (m : List (Bytes × EntryMeta))
      → is_some (lookup k m) ≡ false
      → delete k ((k, e) ∷ m) ≡ m
  delete_head k e m h = ground (arith, equal_refl k, delete_absent k m)

  delete_all-keys_where :
      (m : List (Bytes × EntryMeta)) → HasDistinctKeys m → delete_all (keys_where p m) m ≡ kept m
  unfolding kept keys_where delete_all
  delete_all-keys_where [] d = refl
  delete_all-keys_where ((k, e) ∷ m) d = elim (Bool-cases (p k e)) [
    | inl out ↦
        rw out
          (ap (delete_all (keys_where p m)) (delete_head k e m d.0) ∙ delete_all-keys_where m d.1)
    | inr stays ↦ rw stays (
        delete_all-cons (keys_where p m) k e m (member-keys_where k m d.0)
        ∙ ap (◌∷◌ (k, e)) (delete_all-keys_where m d.1))
  ]

  keys_where-ArePresent :
      (m : List (Bytes × EntryMeta)) → HasDistinctKeys m → ArePresent (keys_where p m) m
  unfolding keys_where
  keys_where-ArePresent [] d = tt
  keys_where-ArePresent ((k, e) ∷ m) d = elim (Bool-cases (p k e)) [
    | inl out ↦
        rw (out, equal_refl k, delete_absent k m (ground arith)) (refl, keys_where-ArePresent m d.1)
    | inr stays ↦ rw stays (
        ArePresent-cons (keys_where p m) k e m (member-keys_where k m d.0)
          (keys_where-ArePresent m d.1))
  ]

  total-kept :
      (m : List (Bytes × EntryMeta))
      → total entry_size (kept m) + size_where p m ≡ total entry_size m
  unfolding kept size_where
  total-kept [] = refl
  total-kept ((k, e) ∷ m) = ground (arith, total-kept m)

  -- The loops succeed on a valid shard: exactly the entries that pass the test are gone, the shard
  -- stays valid, and its size falls by the sum of their sizes.
  pub drop_keys-keys_where :
      (s : Shard)
      → IsValid s
      → (s' : Shard) × (drop_keys (keys_where p s.lru) s ≡ some s')
        × IsValid s'
        × (s'.lru ≡ kept s.lru)
        × (s'.size ≡ s.size -ℤ pos (size_where p s.lru))
  drop_keys-keys_where s v =
      let (s', done, v', lru) =
        drop_keys_lem (keys_where p s.lru) s v (keys_where-ArePresent s.lru v.keys) in
      let lru' = lru ∙ delete_all-keys_where s.lru v.keys in
      (s', done, v', lru', smaller s s' v v' lru')
    where
      smaller :
          (s s' : Shard)
          → IsValid s
          → IsValid s'
          → s'.lru ≡ kept s.lru
          → s'.size ≡ s.size -ℤ pos (size_where p s.lru)
      smaller s s' v v' e =
          let b : bytes_of s' + size_where p s.lru ≡ bytes_of s =
            omega (arith, ap (total entry_size) e, total-kept s.lru) in
          rw (v.sized, v'.sized)
            (eq_of_parts _ _
              (omega (arith, b, -ℤ_parts (pos (bytes_of s)) (pos (size_where p s.lru)))))

find_expired-some :
    (now : ℕ) (s s' : Shard)
    → drop_keys (keys_where (expired now) s.lru) s ≡ some s'
    → find_expired now s ≡ some (s', keys_where (expired now) s.lru, size_where (expired now) s.lru)
unfolding find_expired
find_expired-some now s s' done = rw done

-- `findExpired` succeeds on a valid shard, keeps it valid, takes out exactly the entries whose time
-- has passed, and reports the sum of their sizes.
pub find_expired_lem :
    (now : ℕ) (s : Shard)
    → IsValid s
    → (s' : Shard) × (find_expired now s
        ≡ some (s', keys_where (expired now) s.lru, size_where (expired now) s.lru))
      × IsValid s'
      × (s'.lru ≡ kept (expired now) s.lru)
      × (s'.size ≡ s.size -ℤ pos (size_where (expired now) s.lru))
find_expired_lem now s v =
    let (s', done, v', lru, size) = drop_keys-keys_where (expired now) s v in
    (s', find_expired-some now s s' done, v', lru, size)
