-- ===== src/Plugins/Registry.antt =====
-- The registration of plugins and the choice of a provider in packages/sdk/src/plugins/registry.ts. The
-- map of plugins is the list of their manifests in the order of registration. Of an error its code is
-- kept.
pub mod Resolved
use kitstack.Base.{
  Bool, true, false, ◌||◌, ◌&&◌, not, Option, none, some, List, [], ◌∷◌, ◌++◌, Text, any, keep,
  nat_eq, length, if◌then◌else◌, ◌==◌, text_instance, is_blank, Result, ok, err,
}
use kitstack.Plugins.Version.{version_satisfies, is_supported_range}

-- A capability that is provided, or that is required with a range for its version.
pub record Capability : Type 0 where
  pub contract : Text
  pub version : Text

pub record PluginManifest : Type 0 where
  pub api_version : Text
  pub id : Text
  pub kind : Text
  pub version : Text
  pub provides : List Capability
  pub requires : List Capability

pub data ErrorCode : Type 0 where
  duplicate_id invalid_manifest capability_not_found : ErrorCode
  capability_ambiguous capability_incompatible : ErrorCode

abbrev is_named : Capability → Bool
is_named c = not (is_blank c.contract || is_blank c.version)

unfoldable pub is_valid_requirement : Capability → Bool
unfolding is_blank is_supported_range
is_valid_requirement r = is_named r && is_supported_range r.version

abbrev all_of {ℓ} : {A : Type ℓ} → (A → Bool) → List A → Bool
all_of test [] = true
all_of test (x ∷ xs) = test x && all_of test xs

unfoldable pub is_valid_manifest : PluginManifest → Bool
unfolding is_blank is_valid_requirement
is_valid_manifest m =
    not (is_blank m.api_version)
    && not (is_blank m.id || is_blank m.kind || is_blank m.version)
    && not (nat_eq (length m.provides) 0)
    && all_of is_named m.provides
    && all_of is_valid_requirement m.requires

unfoldable pub register :
    PluginManifest → List PluginManifest → Result ErrorCode (List PluginManifest)
unfolding is_valid_manifest
register m plugins =
    if not (is_valid_manifest m)
    then err invalid_manifest
    else if any (λ p. p.id == m.id) plugins
    then err duplicate_id
    else ok (plugins ++ m ∷ [])

-- `manifest.provides.find(…)`
unfoldable pub find_contract : Text → List Capability → Option Capability
find_contract contract [] = none
find_contract contract (c ∷ rest) =
    let later = find_contract contract rest in if c.contract == contract then some c else later

abbrev with_capability :
    PluginManifest
    → Option Capability
    → List (PluginManifest × Capability)
    → List (PluginManifest × Capability)
with_capability p none rest = rest
with_capability p (some c) rest = (p, c) ∷ rest

unfoldable pub providers_of : Text → List PluginManifest → List (PluginManifest × Capability)
unfolding find_contract
providers_of contract [] = []
providers_of contract (p ∷ rest) =
    with_capability p (find_contract contract p.provides) (providers_of contract rest)

-- The end of `resolveCapability`, by the providers and the compatible ones.
abbrev choose :
    List (PluginManifest × Capability)
    → List (PluginManifest × Capability)
    → Result ErrorCode (PluginManifest × Capability)
choose [] compatible = err capability_not_found
choose (p ∷ providers) [] = err capability_incompatible
choose (p ∷ providers) (c ∷ []) = ok c
choose (p ∷ providers) (c ∷ d ∷ rest) = err capability_ambiguous

unfoldable pub resolve_capability :
    Capability → List PluginManifest → Result ErrorCode (PluginManifest × Capability)
unfolding is_valid_requirement providers_of keep
resolve_capability requirement plugins =
    let providers = providers_of requirement.contract plugins in
    if not (is_valid_requirement requirement)
    then err invalid_manifest
    else choose providers
        (keep (λ candidate. version_satisfies candidate.1.version requirement.version) providers)
