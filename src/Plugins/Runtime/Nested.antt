-- ===== src/Plugins/Runtime/Nested.antt =====
-- The order in which `PluginRegistry` of packages/sdk/src/plugins/registry.ts runs the lifecycle hooks.
use mathlib.Core.List.{reverse-append}
use kitstack.Base.{
  ◌≡◌, ◌⊎◌, inl, inr, refl, Bool, true, false, Option, List, [], ◌∷◌, ◌++◌, reverse, map, Text,
  Result, ok, err, Option-cases, Result-cases, List-cases, any, or_else,
}
use kitstack.Plugins.Registry.{register}
use kitstack.Plugins.Runtime.{
  LifecycleEvent, initialized, stopped, stop_failed, Logged, Plugin, PluginRegistry, RegistryState,
  call_hook, start_plugins, stop_each, stop_plugins, settle_start, initialize, stop,
  register_plugin, get, invoke, RegistryCall, called, called_all,
}

-- Each hook `stop` answers the latest `initialize` that is open, whose plugin it is; the open ones
-- are given, the latest first.
pub data IsNested : List LifecycleEvent → List Text → Type 0 where
  start : IsNested [] []
  opens :
      {log : List LifecycleEvent} {pending : List Text} (id : Text)
      → IsNested log pending
      → IsNested (initialized id ∷ log) (id ∷ pending)
  closes :
      {log : List LifecycleEvent} {pending : List Text} (id : Text)
      → IsNested log (id ∷ pending)
      → IsNested (stopped id ∷ log) pending
  breaks :
      {log : List LifecycleEvent} {pending : List Text} (id : Text)
      → IsNested log (id ∷ pending)
      → IsNested (stop_failed id ∷ log) pending

abbrev pub is_failure : LifecycleEvent → Bool
is_failure (stop_failed id) = true
is_failure _ = false

module _ {C W : Type 0} where
  abbrev pub ids : List (Plugin C W) → List Text
  ids plugins = map (λ p. p.manifest.id) plugins

  -- The open calls are those of the plugins, latest first, with `leaked` behind, which is empty unless
  -- a hook `stop` has thrown.
  pub record IsTidy (log : List LifecycleEvent) (plugins : List (Plugin C W)) : Type 0 where
    pub leaked : List Text
    pub nested : IsNested log (ids (reverse plugins) ++ leaked)
    pub none_leaked : (leaked ≡ []) ⊎ (any is_failure log ≡ true)

  stop_each-IsNested :
      (context : C) (plugins : List (Plugin C W)) (leaked : List Text) (s : Logged W)
      → IsNested s.0 (ids plugins ++ leaked)
      → (left : List Text) × IsNested (stop_each context plugins s).1.0 (left ++ leaked)
        × ((left ≡ []) ⊎ (any is_failure (stop_each context plugins s).1.0 ≡ true))
  stop_each-IsNested context [] leaked s h = ([], h, inl refl)
  stop_each-IsNested context (p ∷ rest) leaked (log, w) h =
      elim (Result-cases (call_hook p.stop context w).0) [
        | inl (m, bad) ↦ rw (stop_each, bad) (ids rest, IsNested.breaks p.manifest.id h, inr refl)
        | inr (u, good) ↦
            rw (stop_each, good)
              (stop_each-IsNested context rest leaked
                (stopped p.manifest.id ∷ log, (call_hook p.stop context w).1)
                (IsNested.closes p.manifest.id h))
      ]

  stop_each-failed :
      (context : C) (plugins : List (Plugin C W)) (s : Logged W)
      → any is_failure s.0 ≡ true
      → any is_failure (stop_each context plugins s).1.0 ≡ true
  stop_each-failed context [] s h = h
  stop_each-failed context (p ∷ rest) (log, w) h =
      elim (Result-cases (call_hook p.stop context w).0) [
        | inl (m, bad) ↦ rw (stop_each, bad) refl
        | inr (u, good) ↦
            rw (stop_each, good)
              (stop_each-failed context rest
                (stopped p.manifest.id ∷ log, (call_hook p.stop context w).1) h)
      ]

  stop_plugins-IsTidy :
      (context : C) (plugins : List (Plugin C W)) (s : Logged W)
      → IsTidy s.0 plugins
      → IsTidy (stop_plugins context plugins s).1.0 []
  unfolding stop_plugins
  stop_plugins-IsTidy context plugins s h =
      let (left, nested, out) = stop_each-IsNested context (reverse plugins) h.leaked s h.nested in
      record {
        leaked = left ++ h.leaked;
        nested = nested;
        none_leaked = elim h.none_leaked [
          | inr failed ↦ inr (stop_each-failed context (reverse plugins) s failed)
          | inl none_before ↦ elim out [
            | inr failed ↦ inr failed
            | inl none_left ↦ inl (rw (none_left, none_before) refl)
          ]
        ];
      }

  start_plugins-IsTidy :
      (context : C) (plugins started : List (Plugin C W)) (s : Logged W)
      → IsTidy s.0 started
      → IsTidy
          (start_plugins context plugins started s).2.0
          (start_plugins context plugins started s).1
  start_plugins-IsTidy context [] started s h = h
  start_plugins-IsTidy context (p ∷ rest) started (log, w) h =
      elim (Result-cases (call_hook p.initialize context w).0) [
        | inl (m, bad) ↦ rw (start_plugins, bad) h
        | inr (u, good) ↦
            rw (start_plugins, good)
              (start_plugins-IsTidy context rest (started ++ p ∷ [])
                (initialized p.manifest.id ∷ log, (call_hook p.initialize context w).1)
                (record {
                  leaked = h.leaked;
                  nested =
                      rw (reverse-append started (p ∷ [])) (IsNested.opens p.manifest.id h.nested);
                  none_leaked = h.none_leaked;
                }))
      ]

  settle_start-IsTidy :
      (context : C) (registry : PluginRegistry C W)
      (out : Result Text (Unit {0}) × List (Plugin C W) × Logged W)
      → IsTidy out.2.0 out.1
      → registry.initialized_plugins ≡ []
      → IsTidy
          (settle_start context registry out).1.1.0
          (settle_start context registry out).1.0.initialized_plugins
  unfolding settle_start
  settle_start-IsTidy context registry (ok u, started, s) h none_there = h
  settle_start-IsTidy context registry (err m, started, s) h none_there =
      rw none_there (stop_plugins-IsTidy context started s h)

  initialize-IsTidy :
      (context : C) (s : RegistryState C W)
      → IsTidy s.1.0 s.0.initialized_plugins
      → IsTidy (initialize context s).1.1.0 (initialize context s).1.0.initialized_plugins
  unfolding initialize
  initialize-IsTidy context (registry, s) h = elim (List-cases registry.initialized_plugins) [
    | inr (p, rest, some_there) ↦ rw (initialize, some_there) h
    | inl none_there ↦
        rw (initialize, none_there)
          (settle_start-IsTidy context registry (start_plugins context registry.plugins [] s)
            (start_plugins-IsTidy context registry.plugins [] s (rw none_there at h)) none_there)
  ]

  stop-IsTidy :
      (empty : C) (context : Option C) (s : RegistryState C W)
      → IsTidy s.1.0 s.0.initialized_plugins
      → IsTidy (stop empty context s).1.1.0 (stop empty context s).1.0.initialized_plugins
  unfolding stop
  stop-IsTidy empty context (registry, s) h =
      stop_plugins-IsTidy (or_else context (or_else registry.lifecycle_context empty))
        registry.initialized_plugins s h

  register_plugin-kept :
      (registered_at : Text) (p : Plugin C W) (s : RegistryState C W)
      → ((register_plugin registered_at p s).1.1.0 ≡ s.1.0)
        × ((register_plugin registered_at p s).1.0.initialized_plugins ≡ s.0.initialized_plugins)
  unfolding register_plugin
  register_plugin-kept registered_at p (registry, (log, w)) =
      elim (Result-cases (register p.manifest (map (λ q. q.manifest) registry.plugins))) [
        | inl (code, bad) ↦ rw (register_plugin, bad) (refl, refl)
        | inr (all, good) ↦ rw (register_plugin, good) (refl, refl)
      ]

  invoke-kept :
      (id input : Text) (context : C) (s : RegistryState C W)
      → ((invoke id input context s).1.1.0 ≡ s.1.0)
        × ((invoke id input context s).1.0.initialized_plugins ≡ s.0.initialized_plugins)
  unfolding invoke
  invoke-kept id input context (registry, (log, w)) =
      elim (Option-cases (get id registry.plugins)) [
        | inl absent ↦ rw (invoke, absent) (refl, refl)
        | inr (p, there) ↦ elim (Result-cases (p.invoke input context w).0) [
          | inl (m, bad) ↦ rw (invoke, there, bad) (refl, refl)
          | inr (output, good) ↦ rw (invoke, there, good) (refl, refl)
        ]
      ]

module _ {C W : Type 0} (empty : C) where
  called-IsTidy :
      (call : RegistryCall C W) (s : RegistryState C W)
      → IsTidy s.1.0 s.0.initialized_plugins
      → IsTidy (called empty call s).1.0 (called empty call s).0.initialized_plugins
  unfolding called
  called-IsTidy (RegistryCall.register_call registered_at p) s h =
      let (log, same) = register_plugin-kept registered_at p s in rw (log, same) h
  called-IsTidy (RegistryCall.initialize_call context) s h = initialize-IsTidy context s h
  called-IsTidy (RegistryCall.stop_call context) s h = stop-IsTidy empty context s h
  called-IsTidy (RegistryCall.invoke_call id input context) s h =
      let (log, same) = invoke-kept id input context s in rw (log, same) h
  called-IsTidy (RegistryCall.subscribe_call listener) (registry, s) h = h

  -- Whatever calls are made on a registry in which nothing has been initialized yet, and whatever the
  -- hooks of its plugins do, each call of `stop` follows the latest initialization that no `stop` has
  -- answered, and is of the same plugin. The initializations without an answer are those of the
  -- plugins that the registry counts as initialized, in their order, and others only after a hook
  -- `stop` has thrown.
  pub called_all-IsTidy :
      (calls : List (RegistryCall C W)) (registry : PluginRegistry C W) (w : W)
      → registry.initialized_plugins ≡ []
      → IsTidy
          (called_all empty calls (registry, ([], w))).1.0
          (called_all empty calls (registry, ([], w))).0.initialized_plugins
  called_all-IsTidy calls registry w fresh =
      run calls (registry, ([], w))
        (record { leaked = []; nested = rw fresh IsNested.start; none_leaked = inl refl })
    where
      run :
          (calls : List (RegistryCall C W)) (s : RegistryState C W)
          → IsTidy s.1.0 s.0.initialized_plugins
          → IsTidy (called_all empty calls s).1.0 (called_all empty calls s).0.initialized_plugins
      run [] s h = h
      run (call ∷ rest) s h = run rest (called empty call s) (called-IsTidy call s h)
