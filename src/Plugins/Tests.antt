-- ===== src/Plugins/Tests.antt =====
-- Version ranges and resolutions of packages/sdk/src/plugins/registry.ts at some inputs.
use kitstack.Base.{◌≡◌, refl, true, false, [], ◌∷◌, codes, text_eq, ok, err}
use kitstack.Plugins.Version.{version_satisfies, is_supported_range}
use kitstack.Plugins.Registry.{
  PluginManifest, Capability, resolve_capability, register, duplicate_id, capability_incompatible,
}
use kitstack.Plugins.Registry.Resolved.{resolve_capability-IsProvider, IsProvider}

test_caret : version_satisfies (codes "1.4.2") (codes "^1.3") ≡ true
unfolding version_satisfies
test_caret = refl

test_set : version_satisfies (codes "2.0.0") (codes ">=1.2.0 <2.0.0 || 3.x") ≡ false
unfolding version_satisfies
test_set = refl

-- A tilde range of one part leaves out the later minor numbers.
test_tilde : version_satisfies (codes "1.4.2") (codes "~1") ≡ false
unfolding version_satisfies
test_tilde = refl

-- A caret range of a zero leaves out every version but 0.0.0.
test_caret_zero : version_satisfies (codes "0.3.0") (codes "^0") ≡ false
unfolding version_satisfies
test_caret_zero = refl

test_supported : is_supported_range (codes "^1.2 || x") ≡ true
unfolding is_supported_range
test_supported = refl

test_unsupported : is_supported_range (codes "latest") ≡ false
unfolding is_supported_range
test_unsupported = refl

abbrev store : PluginManifest
store = record {
  api_version = codes "1";
  id = codes "store";
  kind = codes "memory";
  version = codes "1.0.0";
  provides =
      record { contract = codes "memory"; version = codes "1.4.2" }
      ∷ record { contract = codes "memory"; version = codes "2.0.0" }
      ∷ [];
  requires = [];
}

abbrev needed : Capability
needed = record { contract = codes "memory"; version = codes "^1.3" }

abbrev chosen : PluginManifest × Capability
chosen = (store, record { contract = codes "memory"; version = codes "1.4.2" })

resolved : resolve_capability needed (store ∷ []) ≡ ok chosen
unfolding resolve_capability version_satisfies text_eq
resolved = refl

-- Of two versions that one plugin provides for a contract only the first is seen.
test_second_version :
    resolve_capability (record needed { version = codes "^2.0.0" }) (store ∷ [])
    ≡ err capability_incompatible
unfolding resolve_capability version_satisfies text_eq
test_second_version = refl

test_register_twice : register store (store ∷ []) ≡ err duplicate_id
unfolding register text_eq
test_register_twice = refl

resolve_capability-IsProvider_example :
    IsProvider needed (store ∷ []) chosen
    × ((other : PluginManifest × Capability)
        → IsProvider needed (store ∷ []) other
        → other ≡ chosen)
resolve_capability-IsProvider_example = resolve_capability-IsProvider needed (store ∷ []) resolved
