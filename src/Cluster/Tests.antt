-- ===== src/Cluster/Tests.antt =====
-- Runs of the cluster's cache, and the theorems at concrete inputs.
use peretum.Cluster.Lru.Insert.{put_lem}
use peretum.Cluster.Lru.History.{Call, getting, putting, after}
use peretum.Cluster.Lru.Recent.{Puts, put-after}
use peretum.Cluster.Lru.Valid.{IsValid, new_lru_cache-IsValid, delete_key_lem}
use peretum.Cluster.Lru.{LruCache, new_lru_cache, get, evict, put, delete_key}
use peretum.Prelude.Bytes.{Bytes, codes, equal}
use peretum.Prelude.Dict.{lookup, is_some}
use peretum.Prelude.Int.{pos}
use peretum.Prelude.Recency.{back}
use peretum.Prelude.{ℕ, ◌≡◌, refl, none, List, [], ◌∷◌, if◌then◌else◌}

abbrev a : Bytes
a = codes "a"

abbrev b : Bytes
b = codes "b"

abbrev empty_cache : LruCache ℕ
empty_cache = new_lru_cache (pos 1)

abbrev one : LruCache ℕ
one = put a 1 empty_cache

full_cache_evicts : lookup a (put b 2 one).cache ≡ none
unfolding put evict back equal new_lru_cache
full_cache_evicts = refl

one-IsValid : IsValid one
one-IsValid = (put_lem a a 1 empty_cache (new_lru_cache-IsValid (pos 1))).0

-- The first key is read last, so the second one goes.
abbrev reads_first : List (Call ℕ)
reads_first = getting a ∷ putting b 2 ∷ putting a 1 ∷ []

abbrev c : Bytes
c = codes "c"

forgets_second : lookup b (put c 3 (after (pos 2) reads_first)).cache ≡ none
unfolding put get evict back equal new_lru_cache
forgets_second = refl

put-after_example :
    IsValid (put c 3 (after (pos 2) reads_first))
    × ((put c 3 (after (pos 2) reads_first)).capacity ≡ (after (pos 2) reads_first).capacity)
    × Puts reads_first c 3 (after (pos 2) reads_first) (put c 3 (after (pos 2) reads_first))
put-after_example = put-after (pos 2) reads_first c 3

delete_key_lem_example :
    IsValid (delete_key a one).0
    × ((delete_key a one).1 ≡ is_some (lookup a one.cache))
    × (lookup b (delete_key a one).0.cache ≡ (if equal a b then none else lookup b one.cache))
delete_key_lem_example = delete_key_lem a b one one-IsValid
