-- ===== src/Router/Flights.antt =====
-- `FlightTable` of internal/router/lazy.go: many requests ask for a target at once, and one of them
-- loads it. The sections under the mutex and the waits are the steps; any order of them is allowed.
-- A load is a step with any outcome, `none` for an error, a panic or a nil target.
pub mod Single
pub mod Publication
pub mod Live
use peretum.Cluster.Lru
use peretum.Cluster.Lru.{LruCache}
use peretum.Prelude.Bytes.{Bytes, equal}
use peretum.Prelude.Dict.{lookup, assign, delete}
use peretum.Prelude.{ℕ, ◌+◌, ◌≡◌, ◌≢◌, Bool, Option, none, some, List, [], ◌∷◌, get_elem?, set}

-- The channels are numbered; one is closed when the table no longer holds it for its key.
pub record FlightTable (V : Type 0) : Type 0 where
  pub lru : LruCache V
  pub calls : List (Bytes × ℕ)
  pub next_call : ℕ

-- Where a request stands in `materialize`; `finished` holds what it returns.
pub data Phase (V : Type 0) : Type 0 where
  arriving : Bytes → Phase V
  waiting : Bytes → ℕ → Phase V
  loading : Bytes → ℕ → Phase V
  finished : Option V → Phase V

module _ {V : Type 0} where
  unfoldable pub new_flight_table : LruCache V → FlightTable V
  new_flight_table lru = record { lru = lru; calls = []; next_call = 0 }

  -- The first section under the mutex.
  unfoldable pub claim : Bytes → FlightTable V → FlightTable V × Phase V
  claim key t =
      let hit = Lru.get key t.lru in
      elim hit.1 [
        | some v ↦ (record t { lru = hit.0 }, finished (some v))
        | none ↦ elim (lookup key t.calls) [
          | some call ↦ (record t { lru = hit.0 }, waiting key call)
          | none ↦ (
            record t {
              lru = hit.0;
              calls = assign key t.next_call t.calls;
              next_call = t.next_call + 1;
            },
            loading key t.next_call,
          )
        ]
      ]

  -- The second: the owner publishes the target and closes the channel.
  unfoldable pub publish : Bytes → Option V → FlightTable V → FlightTable V
  publish key tch t = elim tch [
    | none ↦ record t { calls = delete key t.calls }
    | some v ↦ record t { lru = Lru.put key v t.lru; calls = delete key t.calls }
  ]

  -- What a follower does when the channel is closed.
  unfoldable pub wake : Bytes → FlightTable V → FlightTable V × Phase V
  wake key t = let hit = Lru.get key t.lru in (record t { lru = hit.0 }, finished hit.1)

-- The table and the requests.
pub record System (V : Type 0) : Type 0 where
  pub table : FlightTable V
  pub phases : List (Phase V)

module _ {V : Type 0} where
  pub data Step : System V → System V → Type 0 where
    begins :
        {s : System V} (i : ℕ) (key : Bytes)
        → get_elem? s.phases i ≡ some (arriving key)
        → Step s (record {
          table = (claim key s.table).0;
          phases = set s.phases i (claim key s.table).1;
        })
    loads :
        {s : System V} (i call : ℕ) (key : Bytes) (tch : Option V)
        → get_elem? s.phases i ≡ some (loading key call)
        → Step s
            (record { table = publish key tch s.table; phases = set s.phases i (finished tch) })
    wakes :
        {s : System V} (i call : ℕ) (key : Bytes)
        → get_elem? s.phases i ≡ some (waiting key call)
        → lookup key s.table.calls ≢ some call
        → Step s
            (record { table = (wake key s.table).0; phases = set s.phases i (wake key s.table).1 })
    cancels :
        {s : System V} (i call : ℕ) (key : Bytes)
        → get_elem? s.phases i ≡ some (waiting key call)
        → Step s (record s { phases = set s.phases i (finished none) })

  pub data Steps : System V → System V → Type 0 where
    start : {s : System V} → Steps s s
    step : {s t u : System V} → Steps s t → Step t u → Steps s u
