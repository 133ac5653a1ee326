-- ===== src/Plugins/Runtime.antt =====
-- `PluginRegistry` of packages/sdk/src/plugins/registry.ts with what its plugins do: a hook, an
-- invocation or a listener is an action. The lookup of plugins that is put into each context is left
-- out, as is a hook that calls the registry or another call that comes while one awaits.
pub mod Nested
pub mod Started
mod Tests
use kitstack.Base.{
  ℕ, suc, Option, none, some, List, [], ◌∷◌, ◌++◌, reverse, map, Text, Result, ok, err, or_else,
  if◌then◌else◌, ◌==◌, text_instance,
}
use kitstack.Dispatch.Types.{Action}
use kitstack.Plugins.Registry.{PluginManifest, ErrorCode, register}

-- The hooks that ran, the latest first.
pub data LifecycleEvent : Type 0 where
  initialized stopped stop_failed : Text → LifecycleEvent

abbrev pub Logged : Type 0 → Type 0
Logged W = List LifecycleEvent × W

pub record PluginRegisteredEvent : Type 0 where
  pub manifest : PluginManifest
  pub registered_at : Text
  pub registration_index : ℕ

pub data Failure : Type 0 where
  rejected : ErrorCode → Failure
  thrown : Text → Failure
  not_found : Text → Failure

-- The hooks of a plugin take a context; inputs and outputs are texts.
pub record Plugin (C W : Type 0) : Type 0 where
  pub manifest : PluginManifest
  pub initialize : Option (C → Action W (Unit {0}))
  pub stop : Option (C → Action W (Unit {0}))
  pub invoke : Text → C → Action W Text

pub record PluginRegistry (C W : Type 0) : Type 0 where
  pub plugins : List (Plugin C W)
  pub on_register : Option (PluginRegisteredEvent → Action W (Unit {0}))
  pub listeners : List (PluginRegisteredEvent → Action W (Unit {0}))
  pub initialized_plugins : List (Plugin C W)
  pub lifecycle_context : Option C
  pub next_registration_index : ℕ

abbrev pub RegistryState : Type 0 → Type 0 → Type 0
RegistryState C W = PluginRegistry C W × Logged W

abbrev pub after_failure : Text → Result Text (Unit {0}) → Result Text (Unit {0})
after_failure message (ok _) = err message
after_failure message (err other) = err other

abbrev pub tell_listeners :
    {W : Type 0}
    → List (PluginRegisteredEvent → Action W (Unit {0}))
    → PluginRegisteredEvent
    → W
    → Result Failure (Unit {0}) × W
tell_listeners [] event w = (ok tt, w)
tell_listeners (listener ∷ rest) event w =
    let out = listener event w in
    elim out.0 [
      | err message ↦ (err (thrown message), out.1)
      | ok _ ↦ tell_listeners rest event out.1
    ]

module _ {C W : Type 0} where
  -- `plugin.initialize?.(context)` and `plugin.stop?.(context)`
  abbrev pub call_hook : Option (C → Action W (Unit {0})) → C → Action W (Unit {0})
  call_hook none context w = (ok tt, w)
  call_hook (some hook) context w = hook context w

  -- The loop of `initialize`, with the plugins that it has pushed.
  abbrev pub start_plugins :
      C
      → List (Plugin C W)
      → List (Plugin C W)
      → Logged W
      → Result Text (Unit {0}) × List (Plugin C W) × Logged W
  start_plugins context [] started s = (ok tt, started, s)
  start_plugins context (p ∷ rest) started (log, w) =
      let out = call_hook p.initialize context w in
      elim out.0 [
        | err message ↦ (err message, started, (log, out.1))
        | ok _ ↦
            start_plugins context rest (started ++ p ∷ []) (initialized p.manifest.id ∷ log, out.1)
      ]

  abbrev pub stop_each : C → List (Plugin C W) → Action (Logged W) (Unit {0})
  stop_each context [] s = (ok tt, s)
  stop_each context (p ∷ rest) (log, w) =
      let out = call_hook p.stop context w in
      elim out.0 [
        | err message ↦ (err message, (stop_failed p.manifest.id ∷ log, out.1))
        | ok _ ↦ stop_each context rest (stopped p.manifest.id ∷ log, out.1)
      ]

  unfoldable pub stop_plugins : C → List (Plugin C W) → Action (Logged W) (Unit {0})
  stop_plugins context plugins s = stop_each context (reverse plugins) s

  -- The end of `initialize`, behind its loop.
  abbrev pub settle_start :
      C
      → PluginRegistry C W
      → Result Text (Unit {0}) × List (Plugin C W) × Logged W
      → Result Text (Unit {0}) × RegistryState C W
  unfolding stop_plugins
  settle_start context registry (ok _, started, s) = (
    ok tt,
    (record registry { initialized_plugins = started; lifecycle_context = some context }, s),
  )
  settle_start context registry (err message, started, s) =
      let out = stop_plugins context started s in (after_failure message out.0, (registry, out.1))

  unfoldable pub initialize : C → Action (RegistryState C W) (Unit {0})
  unfolding settle_start
  initialize context (registry, s) = elim registry.initialized_plugins [
    | p ∷ rest ↦ (ok tt, (registry, s))
    | [] ↦ settle_start context registry (start_plugins context registry.plugins [] s)
  ]

  -- `empty` is the context without fields.
  unfoldable pub stop : (empty : C) → Option C → Action (RegistryState C W) (Unit {0})
  unfolding stop_plugins
  stop empty context (registry, s) =
      let runtime_context = or_else context (or_else registry.lifecycle_context empty) in
      let out = stop_plugins runtime_context registry.initialized_plugins s in
      (out.0, (record registry { initialized_plugins = []; lifecycle_context = none }, out.1))

  -- `this.onRegister?.(event)` and the listeners.
  abbrev pub announce :
      PluginRegistry C W → PluginRegisteredEvent → W → Result Failure (Unit {0}) × W
  announce registry event w = elim registry.on_register [
    | none ↦ tell_listeners registry.listeners event w
    | some hook ↦ tell_listeners (hook ∷ registry.listeners) event w
  ]

  unfoldable pub register_plugin :
      (registered_at : Text)
      → Plugin C W
      → RegistryState C W
      → Result Failure (Unit {0}) × RegistryState C W
  unfolding register
  register_plugin registered_at p (registry, (log, w)) =
      let event : PluginRegisteredEvent = record {
        manifest = p.manifest;
        registered_at = registered_at;
        registration_index = registry.next_registration_index;
      } in
      elim (register p.manifest (map (λ q. q.manifest) registry.plugins)) [
        | err code ↦ (err (rejected code), (registry, (log, w)))
        | ok _ ↦
            let added : PluginRegistry C W = record registry {
              plugins = registry.plugins ++ p ∷ [];
              next_registration_index = suc registry.next_registration_index;
            } in
            let out = announce added event w in (out.0, (added, (log, out.1)))
      ]

  abbrev pub get : Text → List (Plugin C W) → Option (Plugin C W)
  get id [] = none
  get id (p ∷ rest) = let later = get id rest in if p.manifest.id == id then some p else later

  unfoldable pub invoke :
      (id input : Text) → C → RegistryState C W → Result Failure Text × RegistryState C W
  invoke id input context (registry, (log, w)) = elim (get id registry.plugins) [
    | none ↦ (err (not_found id), (registry, (log, w)))
    | some p ↦
        let out = p.invoke input context w in
        elim out.0 [
          | err message ↦ (err (thrown message), (registry, (log, out.1)))
          | ok output ↦ (ok output, (registry, (log, out.1)))
        ]
  ]

-- The calls that change a registry or run a plugin.
pub data RegistryCall (C W : Type 0) : Type 0 where
  register_call : (registered_at : Text) → Plugin C W → RegistryCall C W
  initialize_call : C → RegistryCall C W
  stop_call : Option C → RegistryCall C W
  invoke_call : (id input : Text) → C → RegistryCall C W
  subscribe_call : (PluginRegisteredEvent → Action W (Unit {0})) → RegistryCall C W

module _ {C W : Type 0} (empty : C) where
  unfoldable pub called : RegistryCall C W → RegistryState C W → RegistryState C W
  unfolding register_plugin initialize stop invoke
  called (register_call registered_at p) s = (register_plugin registered_at p s).1
  called (initialize_call context) s = (initialize context s).1
  called (stop_call context) s = (stop empty context s).1
  called (invoke_call id input context) s = (invoke id input context s).1
  called (subscribe_call listener) (registry, s) =
      (record registry { listeners = registry.listeners ++ listener ∷ [] }, s)

  abbrev pub called_all : List (RegistryCall C W) → RegistryState C W → RegistryState C W
  called_all [] s = s
  called_all (call ∷ rest) s = called_all rest (called call s)
