-- ===== src/PluginManager/Tests.antt =====
-- Runs of the plugin manager, and the theorems at concrete inputs. The state is the list of the
-- calls made, the last one first.
use peretum.Prelude.{ℕ, ◌≡◌, ◌⊎◌, refl, none, some, List, [], ◌∷◌}
use peretum.PluginManager.Chains.{
  AllRun, Fails, before_hooks, run_before_proxy_lem, backward, stops, stop_plugins-backward,
}
use peretum.PluginManager.{
  Action, Plugin, PluginManager, RequestHook, new_plugin_manager, register_plugin, run_actions,
  run_before_proxy, stop_at, stop_loop, stop_plugins,
}

abbrev log : ℕ → Action (List ℕ) ℕ
log n s = (n ∷ s, none)

abbrev refuse : ℕ → Action (List ℕ) ℕ
refuse n s = (n ∷ s, some n)

abbrev plugin : ℕ → RequestHook (List ℕ) ℕ → Plugin (List ℕ) ℕ
plugin n hook = record {
  name = n ∷ [];
  init = λ config. log n;
  start = log n;
  stop = log n;
  request_hook = some hook;
  body_hook = none;
  cache_hook = none;
  metrics_hook = none;
  error_hook = none;
}

abbrev good : Plugin (List ℕ) ℕ
good = plugin 1 (record { before_proxy = log 10; after_proxy = log 11 })

abbrev bad : Plugin (List ℕ) ℕ
bad = plugin 2 (record { before_proxy = refuse 20; after_proxy = log 21 })

abbrev two_plugins : PluginManager (List ℕ) ℕ
two_plugins = register_plugin bad (register_plugin good new_plugin_manager)

stops_in_reverse : stop_plugins two_plugins [] ≡ (1 ∷ 2 ∷ [], none)
unfolding stop_plugins stop_loop stop_at register_plugin new_plugin_manager
stops_in_reverse = refl

second_refuses : run_before_proxy two_plugins [] ≡ (20 ∷ 10 ∷ [], some 20)
unfolding run_before_proxy run_actions register_plugin new_plugin_manager
second_refuses = refl

run_before_proxy_lem_example :
    ((s' : List ℕ) × (run_before_proxy two_plugins [] ≡ (s', none))
      × AllRun (before_hooks two_plugins) [] s')
    ⊎ ((s' : List ℕ) × (e : ℕ) × (run_before_proxy two_plugins [] ≡ (s', some e))
        × Fails (before_hooks two_plugins) [] s' e)
run_before_proxy_lem_example = run_before_proxy_lem two_plugins []

stop_plugins-backward_example :
    stop_plugins two_plugins [] ≡ run_actions (stops (backward two_plugins.plugins)) []
stop_plugins-backward_example = stop_plugins-backward two_plugins []
