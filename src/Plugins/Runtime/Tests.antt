-- ===== src/Plugins/Runtime/Tests.antt =====
-- `PluginRegistry` of packages/sdk/src/plugins/registry.ts with two plugins.
use kitstack.Base.{ℕ, suc, ◌≡◌, refl, Option, none, some, List, [], ◌∷◌, Text, codes, ok, err}
use kitstack.Dispatch.Types.{Action}
use kitstack.Plugins.Runtime.{
  initialized, stopped, stop_failed, Plugin, PluginRegistry, RegistryCall, called_all, called,
  initialize,
}
use kitstack.Plugins.Runtime.Nested.{IsTidy, called_all-IsTidy}

-- Contexts are texts, and the world counts the calls.
abbrev succeeds : Text → Action ℕ (Unit {0})
succeeds context n = (ok tt, suc n)

abbrev throws : Text → Action ℕ (Unit {0})
throws context n = (err (codes "broken"), suc n)

abbrev plugin :
    Text → Option (Text → Action ℕ (Unit {0})) → Option (Text → Action ℕ (Unit {0})) → Plugin Text ℕ
plugin id start stop = record {
  manifest = record {
    api_version = codes "1";
    id = id;
    kind = codes "k";
    version = codes "1.0.0";
    provides = (record { contract = id; version = codes "1.0.0" }) ∷ [];
    requires = [];
  };
  initialize = start;
  stop = stop;
  invoke = λ input context n. (ok input, n);
}

abbrev first : Plugin Text ℕ
first = plugin (codes "a") (some succeeds) none

abbrev second : Plugin Text ℕ
second = plugin (codes "b") (some throws) (some throws)

abbrev third : Plugin Text ℕ
third = plugin (codes "c") none (some throws)

abbrev registry_of : List (Plugin Text ℕ) → PluginRegistry Text ℕ
registry_of plugins = record {
  plugins = plugins;
  on_register = none;
  listeners = [];
  initialized_plugins = [];
  lifecycle_context = none;
  next_registration_index = 0;
}

abbrev calls : List (RegistryCall Text ℕ)
calls =
    RegistryCall.register_call (codes "t1") first
    ∷ RegistryCall.initialize_call (codes "x")
    ∷ RegistryCall.stop_call none
    ∷ []

-- The hook of the second plugin throws, and the first one is stopped.
test_rollback :
    (initialize (codes "x") (registry_of (first ∷ second ∷ []), ([], 0))).1.1.0
    ≡ stopped (codes "a") ∷ initialized (codes "a") ∷ []
unfolding initialize
test_rollback = refl

-- A hook `stop` that throws: the plugins before it are not stopped, and the next initialization runs
-- their hooks again.
test_leak :
    (called_all []
      (RegistryCall.initialize_call []
        ∷ RegistryCall.stop_call none
        ∷ RegistryCall.initialize_call []
        ∷ [])
      (registry_of (first ∷ third ∷ []), ([], 0))).1.0
    ≡ initialized (codes "c")
      ∷ initialized (codes "a")
      ∷ stop_failed (codes "c")
      ∷ initialized (codes "c")
      ∷ initialized (codes "a")
      ∷ []
unfolding called
test_leak = refl

called_all-IsTidy_example :
    IsTidy
      (called_all [] calls (registry_of (third ∷ []), ([], 0))).1.0
      (called_all [] calls (registry_of (third ∷ []), ([], 0))).0.initialized_plugins
called_all-IsTidy_example = called_all-IsTidy [] calls (registry_of (third ∷ [])) 0 refl
