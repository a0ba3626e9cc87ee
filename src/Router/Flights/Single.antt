-- ===== src/Router/Flights/Single.antt =====
-- One load at a time for each key.
use peretum.Cluster.Lru
use peretum.Cluster.Lru.{LruCache}
use peretum.Prelude.Bytes.{Bytes, equal, equal_iff}
use peretum.Prelude.Dict.{lookup, assign, delete, lookup-assign, lookup-delete}
use peretum.Prelude.{
  ℕ, zero, suc, ◌≡◌, ◌≢◌, ◌∙◌, refl, sym, ap, ◌⊎◌, inl, inr, Option, none, some, List, [], ◌∷◌,
  arith, get_elem?, set, Option-cases, Bool-cases, get_elem?-set_self, get_elem?-set_ne,
  lt-get_elem?, ◌==◌, map,
}
use peretum.Router.Flights.{
  FlightTable, Phase, arriving, waiting, loading, finished, new_flight_table, claim, publish, wake,
  System, Step, begins, loads, wakes, cancels, Steps, start, step,
}

pub same_or_not : (i j : ℕ) → (i ≡ j) ⊎ (i ≢ j)
same_or_not i j = elim (Bool-cases (i == j)) [
  | inl h ↦ inl (ground arith)
  | inr h ↦ inr (λ e. absurd (ground arith))
]

module _ {V : Type 0} where
  abbrev pub Loads : System V → ℕ → Bytes → ℕ → Type 0
  Loads s i key call = get_elem? s.phases i ≡ some (loading key call)

  -- Every load stands in the table, and no two requests load the same key.
  pub record IsSingle (s : System V) : Type 0 where
    pub registered :
        (i call : ℕ) (key : Bytes) → Loads s i key call → lookup key s.table.calls ≡ some call
    pub alone : (i j c d : ℕ) (key : Bytes) → Loads s i key c → Loads s j key d → i ≡ j

  -- A phase after a write, at the place of the write and elsewhere.
  after-set :
      (ps : List (Phase V)) (i j call : ℕ) (p old : Phase V) (key : Bytes)
      → get_elem? ps i ≡ some old
      → get_elem? (set ps i p) j ≡ some (loading key call)
      → ((i ≡ j) × (p ≡ loading key call)) ⊎ ((i ≢ j) × (get_elem? ps j ≡ some (loading key call)))
  after-set ps i j call p old key there e = elim (same_or_not i j) [
    | inr other ↦ inr (other, sym (get_elem?-set_ne ps p other) ∙ e)
    | inl same ↦
        let at : get_elem? (set ps i p) i ≡ some p =
          get_elem?-set_self ps i p (lt-get_elem? ps i old there) in
        let e' : get_elem? (set ps i p) i ≡ some (loading key call) =
          ap (get_elem? (set ps i p)) same ∙ e in
        inl (same, cc)
  ]

  -- A request that takes another phase than loading, with the table's calls for the loads of the
  -- others kept.
  settled-IsSingle :
      (s : System V) (t : FlightTable V) (i : ℕ) (p old : Phase V)
      → IsSingle s
      → get_elem? s.phases i ≡ some old
      → ((key : Bytes) (call : ℕ) → p ≢ loading key call)
      → ((j call : ℕ) (key : Bytes) → i ≢ j → Loads s j key call → lookup key t.calls ≡ some call)
      → IsSingle (record { table = t; phases = set s.phases i p })
  settled-IsSingle s t i p old v there quiet calls = record {
    registered = λ j call key e. elim (after-set s.phases i j call p old key there e) [
      | inl (_, loads_now) ↦ absurd (quiet key call loads_now)
      | inr (other, before) ↦ calls j call key other before
    ];
    alone = λ j k c d key e f. elim (after-set s.phases i j c p old key there e) [
      | inl (_, loads_now) ↦ absurd (quiet key c loads_now)
      | inr (_, before) ↦ elim (after-set s.phases i k d p old key there f) [
        | inl (_, loads_now) ↦ absurd (quiet key d loads_now)
        | inr (_, before') ↦ v.alone j k c d key before before'
      ]
    ];
  }

  waiting_quiet :
      (p : Phase V) (k key : Bytes) (n call : ℕ) → p ≡ waiting k n → p ≢ loading key call
  waiting_quiet p k key n call e f = absurd (cc)

  finished_quiet :
      (p : Phase V) (r : Option V) (key : Bytes) (call : ℕ) → p ≡ finished r → p ≢ loading key call
  finished_quiet p r key call e f = absurd (cc)

  -- The three outcomes of the first section.
  pub data Claims (key : Bytes) (t t' : FlightTable V) (p : Phase V) : Type 0 where
    cached : (v : V) → p ≡ finished (some v) → t'.calls ≡ t.calls → Claims key t t' p
    joined : (call : ℕ) → p ≡ waiting key call → t'.calls ≡ t.calls → Claims key t t' p
    owned :
        lookup key t.calls ≡ none
        → p ≡ loading key t.next_call
        → t'.calls ≡ assign key t.next_call t.calls
        → Claims key t t' p

  pub claim-Claims :
      (key : Bytes) (t : FlightTable V) → Claims key t (claim key t).0 (claim key t).1
  unfolding claim
  claim-Claims key t = elim (Option-cases (Lru.get key t.lru).1) [
    | inr (v, hit) ↦ cached v (ground arith) (ground arith)
    | inl miss ↦ elim (Option-cases (lookup key t.calls)) [
      | inr (call, running) ↦ joined call (ground arith) (ground arith)
      | inl free ↦ owned free (ground arith) (ground arith)
    ]
  ]

  pub publish-calls :
      (key : Bytes) (tch : Option V) (t : FlightTable V)
      → (publish key tch t).calls ≡ delete key t.calls
  unfolding publish
  publish-calls key none t = refl
  publish-calls key (some v) t = refl

  pub wake_lem :
      (key : Bytes) (t : FlightTable V)
      → ((r : Option V) × ((wake key t).1 ≡ finished r)) × ((wake key t).0.calls ≡ t.calls)
  unfolding wake
  wake_lem key t = ((_, refl), refl)

  owned-IsSingle :
      (s : System V) (t : FlightTable V) (i n : ℕ) (key : Bytes) (p old : Phase V)
      → IsSingle s
      → get_elem? s.phases i ≡ some old
      → lookup key s.table.calls ≡ none
      → p ≡ loading key n
      → t.calls ≡ assign key n s.table.calls
      → IsSingle (record { table = t; phases = set s.phases i p })
  owned-IsSingle s t i n key p old v there free is_loading calls = record {
    registered = λ j call key' e.
        ap (lookup key') calls
        ∙ lookup-assign key key' n s.table.calls
        ∙ elim (after-set s.phases i j call p old key' there e) [
          | inl (_, loads_now) ↦
              let k : key ≡ key' = cc in let c : n ≡ call = cc in ground (arith, equal_iff key key')
          | inr (_, before) ↦ ground (arith, v.registered j call key' before, equal_iff key key')
        ];
    alone = λ j k c d key' e f. elim (after-set s.phases i j c p old key' there e) [
      | inl (here, loads_now) ↦ elim (after-set s.phases i k d p old key' there f) [
        | inl (here', _) ↦ sym here ∙ here'
        | inr (_, before) ↦
            let q : key ≡ key' = cc in absurd (ground (arith, v.registered k d key' before))
      ]
      | inr (_, before) ↦ elim (after-set s.phases i k d p old key' there f) [
        | inl (_, loads_now) ↦
            let q : key ≡ key' = cc in absurd (ground (arith, v.registered j c key' before))
        | inr (_, before') ↦ v.alone j k c d key' before before'
      ]
    ];
  }

  begins-IsSingle :
      (s : System V) (i : ℕ) (key : Bytes)
      → IsSingle s
      → get_elem? s.phases i ≡ some (arriving key)
      → IsSingle
          (record { table = (claim key s.table).0; phases = set s.phases i (claim key s.table).1 })
  begins-IsSingle s i key v there =
      let t = (claim key s.table).0 in
      let p = (claim key s.table).1 in
      elim (claim-Claims key s.table) [
        | cached r e c ↦
            settled-IsSingle s t i p (arriving key) v there
              (λ key' call. finished_quiet p (some r) key' call e)
              (λ j call key' _ before. ap (lookup key') c ∙ v.registered j call key' before)
        | joined n e c ↦
            settled-IsSingle s t i p (arriving key) v there
              (λ key' call. waiting_quiet p key key' n call e)
              (λ j call key' _ before. ap (lookup key') c ∙ v.registered j call key' before)
        | owned free e c ↦
            owned-IsSingle s t i s.table.next_call key p (arriving key) v there free e c
      ]

  Step-IsSingle : (s s' : System V) → Step s s' → IsSingle s → IsSingle s'
  Step-IsSingle s s' (begins i key there) v = begins-IsSingle s i key v there
  Step-IsSingle s s' (loads i call key tch there) v =
      settled-IsSingle s (publish key tch s.table) i (finished tch) (loading key call) v there
        (λ key' n. finished_quiet (finished tch) tch key' n refl)
        (λ j n key' other before.
          ap (lookup key') (publish-calls key tch s.table)
          ∙ lookup-delete key key' s.table.calls
          ∙ elim (Bool-cases (equal key key')) [
            | inl same ↦
                let e : key ≡ key' = ground (arith, equal_iff key key') in
                absurd (other (v.alone i j call n key there (before ∙ cc)))
            | inr apart ↦ rw apart (v.registered j n key' before)
          ])
  Step-IsSingle s s' (wakes i call key there closed) v =
      let ((r, e), c) = wake_lem key s.table in
      settled-IsSingle s (wake key s.table).0 i (wake key s.table).1 (waiting key call) v there
        (λ key' n. finished_quiet (wake key s.table).1 r key' n e)
        (λ j n key' _ before. ap (lookup key') c ∙ v.registered j n key' before)
  Step-IsSingle s s' (cancels i call key there) v =
      settled-IsSingle s s.table i (finished none) (waiting key call) v there
        (λ key' n. finished_quiet (finished none) none key' n refl)
        (λ j n key' _ before. v.registered j n key' before)

  -- Requests that have just arrived.
  abbrev pub arrivals : List Bytes → List (Phase V)
  arrivals keys = map arriving keys

  arrivals_quiet :
      (keys : List Bytes) (i call : ℕ) (key : Bytes)
      → get_elem? (arrivals keys) i ≢ some (loading key call)
  arrivals_quiet [] i call key e = absurd (cc)
  arrivals_quiet (k ∷ keys) zero call key e = absurd (cc)
  arrivals_quiet (k ∷ keys) (suc i) call key e = arrivals_quiet keys i call key e

  preserved-IsSingle : (s s' : System V) → Steps s s' → IsSingle s → IsSingle s'
  preserved-IsSingle s s' start v = v
  preserved-IsSingle s s' (step {t = t} run last) v =
      Step-IsSingle t s' last (preserved-IsSingle s t run v)

  -- In every state that requests for any targets reach from an empty table, in any order of their
  -- steps, two requests that load the same target are the same request, and the table holds the
  -- channel of the load.
  pub Steps-IsSingle :
      (lru : LruCache V) (keys : List Bytes) (s : System V)
      → Steps (record { table = new_flight_table lru; phases = arrivals keys }) s
      → IsSingle s
  Steps-IsSingle lru keys s run = preserved-IsSingle _ s run (record {
    registered = λ i call key e. absurd (arrivals_quiet keys i call key e);
    alone = λ i j c d key e f. absurd (arrivals_quiet keys i c key e);
  })
