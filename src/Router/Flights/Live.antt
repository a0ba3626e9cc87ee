-- ===== src/Router/Flights/Live.antt =====
-- No request waits for a load that nobody runs.
use peretum.Cluster.Lru.{LruCache}
use peretum.Prelude.Bytes.{Bytes, equal, equal_iff}
use peretum.Prelude.Dict.{lookup, assign, delete, lookup-assign, lookup-delete}
use peretum.Prelude.{
  ℕ, ◌≡◌, ◌≢◌, ◌∙◌, refl, sym, ap, ◌⊎◌, inl, inr, Option, none, some, List, arith, get_elem?, set,
  Bool-cases, Option-cases, get_elem?-set_self, get_elem?-set_ne, lt-get_elem?,
}
use peretum.Router.Flights.Single.{
  Loads, same_or_not, cached, joined, owned, claim-Claims, publish-calls, wake_lem, arrivals,
}
use peretum.Router.Flights.{
  FlightTable, Phase, arriving, waiting, loading, finished, new_flight_table, claim, publish, wake,
  System, Step, begins, loads, wakes, cancels, Steps, start, step,
}

module _ {V : Type 0} where
  -- Every open channel has a request that loads.
  abbrev pub HasLoaders : System V → Type 0
  HasLoaders s =
      (key : Bytes) (call : ℕ) → lookup key s.table.calls ≡ some call → (j : ℕ) × Loads s j key call

  Loads-set :
      (s : System V) (i j call : ℕ) (p old : Phase V) (key : Bytes)
      → get_elem? s.phases i ≡ some old
      → old ≢ loading key call
      → Loads s j key call
      → get_elem? (set s.phases i p) j ≡ some (loading key call)
  Loads-set s i j call p old key there apart e = elim (same_or_not i j) [
    | inr other ↦ get_elem?-set_ne s.phases p other ∙ e
    | inl same ↦ absurd (apart (some_same (sym there ∙ ap (get_elem? s.phases) same ∙ e)))
  ]
    where
      or_old : Option (Phase V) → Phase V
      or_old none = old
      or_old (some q) = q

      some_same : some old ≡ some (loading key call) → old ≡ loading key call
      some_same h = ap or_old h

  -- A request whose old phase is none of the loads that stay in the table.
  settled-HasLoaders :
      (s : System V) (t : FlightTable V) (i : ℕ) (p old : Phase V)
      → HasLoaders s
      → get_elem? s.phases i ≡ some old
      → ((key : Bytes) (call : ℕ)
          → lookup key t.calls ≡ some call
          → (lookup key s.table.calls ≡ some call) × (old ≢ loading key call))
      → HasLoaders (record { table = t; phases = set s.phases i p })
  settled-HasLoaders s t i p old v there kept key call e =
      let (before, apart) = kept key call e in
      let (j, runs) = v key call before in (j, Loads-set s i j call p old key there apart runs)

  arriving_apart : (p : Phase V) (k key : Bytes) (call : ℕ) → p ≡ arriving k → p ≢ loading key call
  arriving_apart p k key call a e = absurd (cc)

  waiting_apart :
      (p : Phase V) (k key : Bytes) (n call : ℕ) → p ≡ waiting k n → p ≢ loading key call
  waiting_apart p k key n call w e = absurd (cc)

  key_of : Bytes → Phase V → Bytes
  key_of k (loading q c) = q
  key_of k (arriving q) = k
  key_of k (waiting q c) = k
  key_of k (finished r) = k

  same_key : (p : Phase V) (k q : Bytes) (c d : ℕ) → p ≡ loading k c → p ≡ loading q d → k ≡ q
  unfolding key_of
  same_key p k q c d e f = sym (ap (key_of k) e) ∙ ap (key_of k) f

  owned-HasLoaders :
      (s : System V) (t : FlightTable V) (i n : ℕ) (key k : Bytes) (p : Phase V)
      → HasLoaders s
      → get_elem? s.phases i ≡ some (arriving k)
      → p ≡ loading key n
      → t.calls ≡ assign key n s.table.calls
      → HasLoaders (record { table = t; phases = set s.phases i p })
  owned-HasLoaders s t i n key k p v there is_loading calls key' call e =
      let e' : lookup key' (assign key n s.table.calls) ≡ some call =
        ap (lookup key') (sym calls) ∙ e in
      let at : get_elem? (set s.phases i p) i ≡ some p =
        get_elem?-set_self s.phases i p (lt-get_elem? s.phases i (arriving k) there) in
      elim (Bool-cases (equal key key')) [
        | inl same ↦
            let q : key ≡ key' = (equal_iff key key').0 same in
            let c : n ≡ call = ground (arith, lookup-assign key key' n s.table.calls) in
            (i, at ∙ ap some is_loading ∙ cc)
        | inr other ↦
            let before : lookup key' s.table.calls ≡ some call =
              ground (arith, lookup-assign key key' n s.table.calls) in
            let (j, runs) = v key' call before in
            (
              j,
              Loads-set s i j call p (arriving k) key' there
                  (arriving_apart (arriving k) k key' call refl) runs,
            )
      ]

  Step-HasLoaders : (s s' : System V) → Step s s' → HasLoaders s → HasLoaders s'
  Step-HasLoaders s s' (begins i key there) v =
      let t = (claim key s.table).0 in
      let p = (claim key s.table).1 in
      elim (claim-Claims key s.table) [
        | cached r e c ↦ settled-HasLoaders s t i p (arriving key) v there (λ key' call h.
            (ap (lookup key') (sym c) ∙ h, arriving_apart (arriving key) key key' call refl))
        | joined n e c ↦ settled-HasLoaders s t i p (arriving key) v there (λ key' call h.
            (ap (lookup key') (sym c) ∙ h, arriving_apart (arriving key) key key' call refl))
        | owned free e c ↦ owned-HasLoaders s t i s.table.next_call key key p v there e c
      ]
  Step-HasLoaders s s' (loads i call key tch there) v =
      settled-HasLoaders s (publish key tch s.table) i (finished tch) (loading key call) v there
        (λ key' n h.
          let h' : lookup key' (delete key s.table.calls) ≡ some n =
            ap (lookup key') (sym (publish-calls key tch s.table)) ∙ h in
          elim (Bool-cases (equal key key')) [
            | inl same ↦ absurd (ground (arith, lookup-delete key key' s.table.calls))
            | inr apart ↦ (
              ground (arith, lookup-delete key key' s.table.calls),
              λ e. absurd (
                  ground (
                    arith,
                    equal_iff key key',
                    same_key (loading key call) key key' call n refl e,
                  )),
            )
          ])
  Step-HasLoaders s s' (wakes i call key there closed) v =
      let ((r, e), c) = wake_lem key s.table in
      settled-HasLoaders s (wake key s.table).0 i (wake key s.table).1 (waiting key call) v there
        (λ key' n h.
          (ap (lookup key') (sym c) ∙ h, waiting_apart (waiting key call) key key' call n refl))
  Step-HasLoaders s s' (cancels i call key there) v =
      settled-HasLoaders s s.table i (finished none) (waiting key call) v there
        (λ key' n h. (h, waiting_apart (waiting key call) key key' call n refl))

  preserved-HasLoaders : (s s' : System V) → Steps s s' → HasLoaders s → HasLoaders s'
  preserved-HasLoaders s s' start v = v
  preserved-HasLoaders s s' (step {t = t} run last) v =
      Step-HasLoaders t s' last (preserved-HasLoaders s t run v)

  -- In every state that requests reach from an empty table, in any order of their steps, a request
  -- that waits can wake, since its channel is closed, or there is a request that runs the load it
  -- waits for.
  pub Steps-waiting :
      (lru : LruCache V) (keys : List Bytes) (s : System V) (i call : ℕ) (key : Bytes)
      → Steps (record { table = new_flight_table lru; phases = arrivals keys }) s
      → get_elem? s.phases i ≡ some (waiting key call)
      → (lookup key s.table.calls ≢ some call) ⊎ ((j : ℕ) × Loads s j key call)
  unfolding new_flight_table
  Steps-waiting lru keys s i call key run waits = elim (Option-cases (lookup key s.table.calls)) [
    | inl closed ↦ inl (λ e. absurd (ground arith))
    | inr (c, opened) ↦ elim (same_or_not c call) [
      | inr other ↦ inl (λ e. absurd (ground arith))
      | inl same ↦ inr (
          preserved-HasLoaders _ s run (λ k n e. absurd (ground arith)) key call
            (opened ∙ ap some same))
    ]
  ]
