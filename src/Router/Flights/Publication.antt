-- ===== src/Router/Flights/Publication.antt =====
-- What the other requests find when a load is done.
use peretum.Router.Flights.Single.{publish-calls}
use peretum.Cluster.Lru.Insert.{put_lem}
use peretum.Cluster.Lru.Valid.{IsValid, get_lem}
use peretum.Cluster.Lru
use peretum.Cluster.Lru.{LruCache}
use peretum.Prelude.Bytes.{Bytes, equal_refl}
use peretum.Prelude.Dict.{lookup, lookup-delete}
use peretum.Prelude.{◌≡◌, ◌∙◌, refl, ap, none, some, arith}
use peretum.Router.Flights.{FlightTable, finished, claim, publish, wake}

module _ {V : Type 0} where
  get-put :
      (key : Bytes) (v : V) (lru : LruCache V)
      → IsValid lru
      → (Lru.get key (Lru.put key v lru)).1 ≡ some v
  get-put key v lru valid =
      let (after, found) = put_lem key key v lru valid in
      (get_lem key (Lru.put key v lru) after).0 ∙ found ∙ ground (arith, equal_refl key)

  claim_hit :
      (key : Bytes) (v : V) (t : FlightTable V)
      → (Lru.get key t.lru).1 ≡ some v
      → (claim key t).1 ≡ finished (some v)
  unfolding claim
  claim_hit key v t e = ground arith

  wake_hit : (key : Bytes) (t : FlightTable V) → (wake key t).1 ≡ finished (Lru.get key t.lru).1
  unfolding wake
  wake_hit key t = refl

  lru-publish :
      (key : Bytes) (v : V) (t : FlightTable V) → (publish key (some v) t).lru ≡ Lru.put key v t.lru
  unfolding publish
  lru-publish key v t = refl

  -- Right behind a load that succeeds, with a valid cache, a follower that wakes and a request that
  -- arrives both return the loaded target, and the flight is over.
  pub wake-publish :
      (key : Bytes) (v : V) (t : FlightTable V)
      → IsValid t.lru
      → ((wake key (publish key (some v) t)).1 ≡ finished (some v))
        × ((claim key (publish key (some v) t)).1 ≡ finished (some v))
        × (lookup key (publish key (some v) t).calls ≡ none)
  wake-publish key v t valid =
      let hit : (Lru.get key (publish key (some v) t).lru).1 ≡ some v =
        ap (λ (c : LruCache V). (Lru.get key c).1) (lru-publish key v t)
        ∙ get-put key v t.lru valid in
      (
        wake_hit key (publish key (some v) t) ∙ ap finished hit,
        claim_hit key v (publish key (some v) t) hit,
        ap (lookup key) (publish-calls key (some v) t)
            ∙ lookup-delete key key t.calls
            ∙ ground (arith, equal_refl key),
      )
