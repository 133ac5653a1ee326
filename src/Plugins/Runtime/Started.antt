-- ===== src/Plugins/Runtime/Started.antt =====
-- What `initialize` of packages/sdk/src/plugins/registry.ts does on its branches.
use kitstack.Base.{◌≡◌, List, [], ◌∷◌, ◌++◌, Text, ok, err}
use kitstack.Plugins.Runtime.{
  LifecycleEvent, initialized, Logged, Plugin, call_hook, start_plugins, initialize,
}

module _ {C W : Type 0} where
  -- The log after the plugins have been initialized.
  abbrev pub opened : List (Plugin C W) → List LifecycleEvent → List LifecycleEvent
  opened [] log = log
  opened (p ∷ rest) log = opened rest (initialized p.manifest.id ∷ log)

  module _ (context : C) where
    -- The hook of every plugin returns, each in the world that the hook before it left.
    abbrev pub AllReturn : List (Plugin C W) → W → W → Type 0
    AllReturn [] w last = w ≡ last
    AllReturn (p ∷ rest) w last =
        ((call_hook p.initialize context w).0 ≡ ok tt)
        × AllReturn rest (call_hook p.initialize context w).1 last

    -- Every plugin is initialized.
    abbrev pub AllStart : List (Plugin C W) → List (Plugin C W) → Logged W → Type 0
    AllStart plugins started s =
        (w : W) × AllReturn plugins s.1 w
        × (start_plugins context plugins started s
            ≡ (ok tt, started ++ plugins, (opened plugins s.0, w)))

    -- One plugin's hook throws, behind those before it.
    pub record OneFails (plugins started : List (Plugin C W)) (s : Logged W) : Type 0 where
      pub before : List (Plugin C W)
      pub failing : Plugin C W
      pub after : List (Plugin C W)
      pub message : Text
      pub world : W
      pub split : plugins ≡ before ++ failing ∷ after
      pub returned : AllReturn before s.1 world
      pub throws : (call_hook failing.initialize context world).0 ≡ err message
      pub result : start_plugins context plugins started s ≡ (
        err message,
        started ++ before,
        (opened before s.0, (call_hook failing.initialize context world).1),
      )
