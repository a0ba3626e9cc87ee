-- ===== src/PluginManager/Chains.antt =====
-- How a chain of hooks ends, and the order in which plugins stop.
use peretum.Prelude.{
  ℕ, zero, suc, ◌≤◌, ◌≡◌, ◌∙◌, refl, sym, ap, ◌⊎◌, inl, inr, none, some, List, [], ◌∷◌, ◌++◌, map,
  take, length, get_elem?, get_elem?-lt, Option-cases, arith,
}
use peretum.PluginManager.{
  Action, Plugin, PluginManager, run_actions, stop_at, stop_loop, stop_plugins, run_before_proxy,
}

module _ {S E : Type 0} where
  -- All actions succeed, one behind the other.
  unfoldable pub AllRun : List (Action S E) → S → S → Type 0
  AllRun [] s s' = s ≡ s'
  AllRun (a ∷ actions) s s' = ((a s).1 ≡ none) × AllRun actions (a s).0 s'

  -- The first action that fails, behind others that all succeed.
  pub record Fails (actions : List (Action S E)) (s s' : S) (e : E) : Type 0 where
    pub before : List (Action S E)
    pub failing : Action S E
    pub after : List (Action S E)
    pub split : actions ≡ before ++ failing ∷ after
    pub middle : S
    pub ran : AllRun before s middle
    pub failed : failing middle ≡ (s', some e)

  run_actions_next :
      (a : Action S E) (actions : List (Action S E)) (s : S)
      → (a s).1 ≡ none
      → run_actions (a ∷ actions) s ≡ run_actions actions (a s).0
  unfolding run_actions
  run_actions_next a actions s e = ground arith

  run_actions_stop :
      (a : Action S E) (actions : List (Action S E)) (s : S) (x : E)
      → (a s).1 ≡ some x
      → run_actions (a ∷ actions) s ≡ ((a s).0, some x)
  unfolding run_actions
  run_actions_stop a actions s x e = ground arith

  pub run_actions_lem :
      (actions : List (Action S E)) (s : S)
      → ((s' : S) × (run_actions actions s ≡ (s', none)) × AllRun actions s s')
        ⊎ ((s' : S) × (e : E) × (run_actions actions s ≡ (s', some e)) × Fails actions s s' e)
  unfolding run_actions AllRun
  run_actions_lem [] s = inl (s, refl, refl)
  run_actions_lem (a ∷ actions) s = elim (Option-cases (a s).1) [
    | inr (x, bad) ↦ inr (
      (a s).0,
      x,
      run_actions_stop a actions s x bad,
      record {
        before = [];
        failing = a;
        after = actions;
        split = refl;
        middle = s;
        ran = refl;
        failed = ap (λ r. ((a s).0, r)) bad;
      },
    )
    | inl fine ↦ elim (run_actions_lem actions (a s).0) [
      | inl (s', e, all) ↦ inl (s', run_actions_next a actions s fine ∙ e, (fine, all))
      | inr (s', x, e, f) ↦ inr (
        s',
        x,
        run_actions_next a actions s fine ∙ e,
        record {
          before = a ∷ f.before;
          failing = f.failing;
          after = f.after;
          split = ap (◌∷◌ a) f.split;
          middle = f.middle;
          ran = (fine, f.ran);
          failed = f.failed;
        },
      )
    ]
  ]

  abbrev pub before_hooks : PluginManager S E → List (Action S E)
  before_hooks pm = map (λ h. h.before_proxy) pm.request_hooks

  -- `RunBeforeProxy` either runs every request hook in order, all without an error, or ends with
  -- the error of the first hook that fails, the hooks before it having succeeded and none behind it
  -- run.
  pub run_before_proxy_lem :
      (pm : PluginManager S E) (s : S)
      → ((s' : S) × (run_before_proxy pm s ≡ (s', none)) × AllRun (before_hooks pm) s s')
        ⊎ ((s' : S) × (e : E) × (run_before_proxy pm s ≡ (s', some e))
            × Fails (before_hooks pm) s s' e)
  unfolding run_before_proxy
  run_before_proxy_lem pm s = run_actions_lem (before_hooks pm) s

module _ {A : Type 0} where
  -- The list from its end.
  unfoldable pub backward : List A → List A
  backward [] = []
  backward (x ∷ xs) = backward xs ++ x ∷ []

  backward_last : (xs : List A) (y : A) → backward (xs ++ y ∷ []) ≡ y ∷ backward xs
  unfolding backward
  backward_last [] y = refl
  backward_last (x ∷ xs) y = ap (λ l. l ++ x ∷ []) (backward_last xs y)

  take-suc :
      (xs : List A) (i : ℕ) (x : A)
      → get_elem? xs i ≡ some x
      → take (suc i) xs ≡ take i xs ++ x ∷ []
  take-suc [] i x h = absurd (cc)
  take-suc (y ∷ xs) zero x h = ground arith
  take-suc (y ∷ xs) (suc i) x h = ap (◌∷◌ y) (take-suc xs i x h)

  take_all : (xs : List A) → take (length xs) xs ≡ xs
  take_all [] = refl
  take_all (x ∷ xs) = ap (◌∷◌ x) (take_all xs)

module _ {S E : Type 0} where
  abbrev pub stops : List (Plugin S E) → List (Action S E)
  stops plugins = map (λ p. p.stop) plugins

  stop_loop_next :
      (i : ℕ) (plugins : List (Plugin S E)) (p : Plugin S E) (s : S)
      → get_elem? plugins i ≡ some p
      → (p.stop s).1 ≡ none
      → stop_loop (suc i) plugins s ≡ stop_loop i plugins (p.stop s).0
  unfolding stop_loop stop_at
  stop_loop_next i plugins p s e f = ground arith

  stop_loop_fail :
      (i : ℕ) (plugins : List (Plugin S E)) (p : Plugin S E) (s : S) (x : E)
      → get_elem? plugins i ≡ some p
      → (p.stop s).1 ≡ some x
      → stop_loop (suc i) plugins s ≡ ((p.stop s).0, some x)
  unfolding stop_loop stop_at
  stop_loop_fail i plugins p s x e f = ground arith

  stop_loop_lem :
      (n : ℕ) (plugins : List (Plugin S E)) (s : S)
      → n ≤ length plugins
      → stop_loop n plugins s ≡ run_actions (stops (backward (take n plugins))) s
  unfolding stop_loop run_actions backward
  stop_loop_lem zero plugins s h = refl
  stop_loop_lem (suc i) plugins s h =
      let (p, e) = get_elem?-lt plugins i (omega arith) in
      let order : stops (backward (take (suc i) plugins))
          ≡ p.stop ∷ stops (backward (take i plugins)) =
        ap stops (ap backward (take-suc plugins i p e) ∙ backward_last (take i plugins) p) in
      let run = ap (λ l. run_actions l s) order in
      elim (Option-cases (p.stop s).1) [
        | inr (x, bad) ↦
            stop_loop_fail i plugins p s x e bad
            ∙ sym (run ∙ run_actions_stop p.stop (stops (backward (take i plugins))) s x bad)
        | inl fine ↦
            stop_loop_next i plugins p s e fine
            ∙ stop_loop_lem i plugins (p.stop s).0 (omega arith)
            ∙ sym (run ∙ run_actions_next p.stop (stops (backward (take i plugins))) s fine)
      ]

  -- `StopPlugins` is the chain of the stops of the plugins from the last registered one to the
  -- first, which ends at the first error.
  pub stop_plugins-backward :
      (pm : PluginManager S E) (s : S)
      → stop_plugins pm s ≡ run_actions (stops (backward pm.plugins)) s
  unfolding stop_plugins
  stop_plugins-backward pm s =
      stop_loop_lem (length pm.plugins) pm.plugins s (omega arith)
      ∙ ap (λ l. run_actions (stops (backward l)) s) (take_all pm.plugins)
