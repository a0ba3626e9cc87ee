-- ===== src/PluginManager.antt =====
-- internal/plugin/manager/manager.go: the plugins and the chains of their hooks. A call of a plugin
-- changes a state that all calls share (the response, the plugins' own data), so a hook is a
-- function of it; an error is a value. The locks only guard the copies of the lists.
pub mod Chains
pub mod Registration
mod Tests
use peretum.Prelude.Bytes.{Bytes, equal}
use peretum.Prelude.Dict.{lookup}
use peretum.Prelude.{
  ℕ, zero, suc, Bool, true, false, Option, none, some, List, [], ◌∷◌, ◌++◌, map, get_elem?, length,
}

module _ (S E : Type 0) where
  -- A call that may fail.
  abbrev pub Action : Type 0
  Action = S → S × Option E

  -- A call that turns a body into another one, or fails.
  abbrev pub Transform : Type 0
  Transform = Bytes → S → S × Option Bytes × Option E

  pub record RequestHook : Type 0 where
    pub before_proxy : Action
    pub after_proxy : Action

  pub record CacheHook : Type 0 where
    pub before_cache_store : Transform
    pub after_cache_hit : Action
    pub should_cache : Bytes → S → S × Bool

  -- A configuration is named by a number. The five calls that only record are one, on a value that
  -- says which.
  pub record Plugin : Type 0 where
    pub name : Bytes
    pub init : Option ℕ → Action
    pub start : Action
    pub stop : Action
    pub request_hook : Option RequestHook
    pub body_hook : Option Transform
    pub cache_hook : Option CacheHook
    pub metrics_hook : Option (ℕ → S → S)
    pub error_hook : Option (ℕ → S → S)

  pub record PluginManager : Type 0 where
    pub plugins : List Plugin
    pub request_hooks : List RequestHook
    pub body_hooks : List Transform
    pub cache_hooks : List CacheHook
    pub metrics_hooks : List (ℕ → S → S)
    pub error_hooks : List (ℕ → S → S)

abbrev pub append_hook : {H : Type 0} → List H → Option H → List H
append_hook hooks none = hooks
append_hook hooks (some h) = hooks ++ h ∷ []

abbrev or_empty : Option Bytes → Bytes
or_empty none = []
or_empty (some b) = b

module _ {S : Type 0} where
  unfoldable pub run_records : List (ℕ → S → S) → ℕ → S → S
  run_records [] event s = s
  run_records (h ∷ hooks) event s = run_records hooks event (h event s)

module _ {S E : Type 0} where
  unfoldable pub new_plugin_manager : PluginManager S E
  new_plugin_manager = record {
    plugins = [];
    request_hooks = [];
    body_hooks = [];
    cache_hooks = [];
    metrics_hooks = [];
    error_hooks = [];
  }

  unfoldable pub register_plugin : Plugin S E → PluginManager S E → PluginManager S E
  register_plugin p pm = record {
    plugins = pm.plugins ++ p ∷ [];
    request_hooks = append_hook pm.request_hooks p.request_hook;
    body_hooks = append_hook pm.body_hooks p.body_hook;
    cache_hooks = append_hook pm.cache_hooks p.cache_hook;
    metrics_hooks = append_hook pm.metrics_hooks p.metrics_hook;
    error_hooks = append_hook pm.error_hooks p.error_hook;
  }

  -- `for … { if err := …; err != nil { return err } }`
  unfoldable pub run_actions : List (Action S E) → S → S × Option E
  run_actions [] s = (s, none)
  run_actions (a ∷ actions) s = elim (a s).1 [
    | some e ↦ ((a s).0, some e)
    | none ↦ run_actions actions (a s).0
  ]

  -- A plugin without a configuration gets a nil map.
  unfoldable pub initialize_plugins : List (Bytes × ℕ) → PluginManager S E → S → S × Option E
  unfolding run_actions
  initialize_plugins configs pm = run_actions (map (λ p. p.init (lookup p.name configs)) pm.plugins)

  unfoldable pub start_plugins : PluginManager S E → S → S × Option E
  unfolding run_actions
  start_plugins pm = run_actions (map (λ p. p.start) pm.plugins)

  stop_at : Option (Plugin S E) → Action S E
  stop_at none s = (s, none)
  stop_at (some p) s = p.stop s

  -- The loop `for i := len(plugins) - 1; i >= 0; i--`, from `n` plugins before the end of the loop.
  unfoldable pub stop_loop : ℕ → List (Plugin S E) → S → S × Option E
  unfolding stop_at
  stop_loop zero plugins s = (s, none)
  stop_loop (suc i) plugins s =
      let r = stop_at (get_elem? plugins i) s in
      elim r.1 [ some e ↦ (r.0, some e) | none ↦ stop_loop i plugins r.0 ]

  unfoldable pub stop_plugins : PluginManager S E → S → S × Option E
  unfolding stop_loop
  stop_plugins pm = stop_loop (length pm.plugins) pm.plugins

  unfoldable pub run_before_proxy : PluginManager S E → S → S × Option E
  unfolding run_actions
  run_before_proxy pm = run_actions (map (λ h. h.before_proxy) pm.request_hooks)

  unfoldable pub run_after_proxy : PluginManager S E → S → S × Option E
  unfolding run_actions
  run_after_proxy pm = run_actions (map (λ h. h.after_proxy) pm.request_hooks)

  unfoldable pub run_after_cache_hit : PluginManager S E → S → S × Option E
  unfolding run_actions
  run_after_cache_hit pm = run_actions (map (λ h. h.after_cache_hit) pm.cache_hooks)

  -- The result of each hook is the body of the next one; a nil body is an empty one.
  unfoldable pub run_transforms : List (Transform S E) → Bytes → S → S × Option Bytes × Option E
  run_transforms [] result s = (s, some result, none)
  run_transforms (t ∷ transforms) result s = elim (t result s).2 [
    | some e ↦ ((t result s).0, none, some e)
    | none ↦ run_transforms transforms (or_empty (t result s).1) (t result s).0
  ]

  unfoldable pub run_transform_response_body :
      PluginManager S E → Bytes → S → S × Option Bytes × Option E
  unfolding run_transforms
  run_transform_response_body pm = run_transforms pm.body_hooks

  unfoldable pub run_before_cache_store :
      PluginManager S E → Bytes → S → S × Option Bytes × Option E
  unfolding run_transforms
  run_before_cache_store pm = run_transforms (map (λ h. h.before_cache_store) pm.cache_hooks)

  unfoldable pub should_loop : List (CacheHook S E) → Bytes → S → S × Bool
  should_loop [] body s = (s, true)
  should_loop (h ∷ hooks) body s = elim (h.should_cache body s).1 [
    | false ↦ ((h.should_cache body s).0, false)
    | true ↦ should_loop hooks body (h.should_cache body s).0
  ]

  unfoldable pub run_should_cache : PluginManager S E → Bytes → S → S × Bool
  unfolding should_loop
  run_should_cache pm = should_loop pm.cache_hooks

  unfoldable pub run_record : PluginManager S E → ℕ → S → S
  unfolding run_records
  run_record pm = run_records pm.metrics_hooks

  unfoldable pub run_log_error : PluginManager S E → ℕ → S → S
  unfolding run_records
  run_log_error pm = run_records pm.error_hooks
