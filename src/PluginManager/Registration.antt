-- ===== src/PluginManager/Registration.antt =====
-- The lists of hooks are those of the plugins, in the order of their registration.
use peretum.Prelude.{◌≡◌, ◌∙◌, refl, ap, Option, none, some, List, [], ◌∷◌, ◌++◌, arith}
use peretum.PluginManager.{Plugin, PluginManager, append_hook, new_plugin_manager, register_plugin}

module _ {P H : Type 0} (hook : P → Option H) where
  -- The hooks of a list of plugins.
  unfoldable pub hooks_of : List P → List H
  hooks_of [] = []
  hooks_of (p ∷ plugins) = elim (hook p) [ none ↦ hooks_of plugins | some h ↦ h ∷ hooks_of plugins ]

  hooks_of-append :
      (plugins : List P) (p : P)
      → append_hook (hooks_of plugins) (hook p) ≡ hooks_of (plugins ++ p ∷ [])
  unfolding hooks_of
  hooks_of-append [] p = ground arith
  hooks_of-append (q ∷ plugins) p = ground (arith, hooks_of-append plugins p)

module _ {S E : Type 0} where
  pub record IsIndexed (pm : PluginManager S E) : Type 0 where
    pub requests : pm.request_hooks ≡ hooks_of (λ p. p.request_hook) pm.plugins
    pub bodies : pm.body_hooks ≡ hooks_of (λ p. p.body_hook) pm.plugins
    pub caches : pm.cache_hooks ≡ hooks_of (λ p. p.cache_hook) pm.plugins
    pub metrics : pm.metrics_hooks ≡ hooks_of (λ p. p.metrics_hook) pm.plugins
    pub errors : pm.error_hooks ≡ hooks_of (λ p. p.error_hook) pm.plugins

  pub new_plugin_manager-IsIndexed : IsIndexed (new_plugin_manager {S = S} {E = E})
  unfolding new_plugin_manager hooks_of
  new_plugin_manager-IsIndexed = record {
    requests = refl;
    bodies = refl;
    caches = refl;
    metrics = refl;
    errors = refl;
  }

  -- After `RegisterPlugin` the lists of hooks are still those of the plugins, in their order.
  pub register_plugin-IsIndexed :
      (p : Plugin S E) (pm : PluginManager S E) → IsIndexed pm → IsIndexed (register_plugin p pm)
  unfolding register_plugin
  register_plugin-IsIndexed p pm v = record {
    requests =
        ap (λ hs. append_hook hs p.request_hook) v.requests
        ∙ hooks_of-append (λ (q : Plugin S E). q.request_hook) pm.plugins p;
    bodies =
        ap (λ hs. append_hook hs p.body_hook) v.bodies
        ∙ hooks_of-append (λ (q : Plugin S E). q.body_hook) pm.plugins p;
    caches =
        ap (λ hs. append_hook hs p.cache_hook) v.caches
        ∙ hooks_of-append (λ (q : Plugin S E). q.cache_hook) pm.plugins p;
    metrics =
        ap (λ hs. append_hook hs p.metrics_hook) v.metrics
        ∙ hooks_of-append (λ (q : Plugin S E). q.metrics_hook) pm.plugins p;
    errors =
        ap (λ hs. append_hook hs p.error_hook) v.errors
        ∙ hooks_of-append (λ (q : Plugin S E). q.error_hook) pm.plugins p;
  }
