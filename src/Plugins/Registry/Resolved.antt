-- ===== src/Plugins/Registry/Resolved.antt =====
-- What the provider that packages/sdk/src/plugins/registry.ts resolves is.
use mathlib.Core.Path.{subst, ◌∙◌}
use kitstack.Base.{
  ◌≡◌, refl, sym, ap, true, false, ◌++◌, ◌==◌, eq_iff, some, List, [], ◌∷◌, Text, keep,
  text_instance, Bool-cases, Option-cases, inl, inr, ok, ok_injective, Memᴰ, mem-keep,
  mem_keep_of_mem,
}
use kitstack.Plugins.Version.{version_satisfies}
use kitstack.Plugins.Registry.{
  Capability, PluginManifest, is_valid_requirement, find_contract, providers_of, choose,
  resolve_capability,
}

-- The first capability of a list that is of the contract.
pub record IsFirst (contract : Text) (capabilities : List Capability) (c : Capability)
    : Type 0 where
  pub before : List Capability
  pub after : List Capability
  pub split : capabilities ≡ before ++ c ∷ after
  pub of_contract : c.contract ≡ contract
  pub first : (x : Capability) → Memᴰ x before → ¬ (x.contract ≡ contract)

-- A plugin of the registry and its first capability of that contract, of a version in the range.
pub record IsProvider (requirement : Capability) (plugins : List PluginManifest)
    (c : PluginManifest × Capability) : Type 0 where
  pub registered : Memᴰ c.0 plugins
  pub found : IsFirst requirement.contract c.0.provides c.1
  pub compatible : version_satisfies c.1.version requirement.version ≡ true

find_contract-IsFirst :
    (contract : Text) (capabilities : List Capability) {c : Capability}
    → find_contract contract capabilities ≡ some c
    → IsFirst contract capabilities c
unfolding find_contract
find_contract-IsFirst contract [] e = absurd (cc e)
find_contract-IsFirst contract (x ∷ rest) {c} e = elim (Bool-cases (x.contract == contract)) [
  | inl hit ↦
      let same : x ≡ c = cc (rw hit at e) in
      record {
        before = [];
        after = rest;
        split = ap (λ z. z ∷ rest) same;
        of_contract = subst (λ z. z.contract ≡ contract) same ((eq_iff x.contract contract).0 hit);
        first = λ y m. elim m [ ];
      }
  | inr miss ↦
      let h = find_contract-IsFirst contract rest (rw miss at e) in
      record {
        before = x ∷ h.before;
        after = h.after;
        split = ap (λ z. x ∷ z) h.split;
        of_contract = h.of_contract;
        first = λ y m same. elim m [
          | Memᴰ.head here ↦
              absurd
                (cc (miss, (eq_iff x.contract contract).1 (sym (ap (λ z. z.contract) here) ∙ same)))
          | Memᴰ.tail later ↦ absurd (h.first y later same)
        ];
      }
]

find_contract-split :
    (contract : Text) (before after : List Capability) (c : Capability)
    → c.contract ≡ contract
    → ((x : Capability) → Memᴰ x before → ¬ (x.contract ≡ contract))
    → find_contract contract (before ++ c ∷ after) ≡ some c
unfolding find_contract
find_contract-split contract [] after c here first = rw ((eq_iff c.contract contract).1 here) refl
find_contract-split contract (x ∷ before) after c here first =
    let miss = ne_of_apart x.contract contract (first x (Memᴰ.head refl)) in
    rw miss (find_contract-split contract before after c here (λ y m. first y (Memᴰ.tail m)))
  where
    ne_of_apart : (a b : Text) → ¬ (a ≡ b) → (a == b) ≡ false
    ne_of_apart a b apart = elim (Bool-cases (a == b)) [
      | inl same ↦ absurd (apart ((eq_iff a b).0 same))
      | inr other ↦ other
    ]

find_contract_of_IsFirst :
    (contract : Text) (capabilities : List Capability) (c : Capability)
    → IsFirst contract capabilities c
    → find_contract contract capabilities ≡ some c
find_contract_of_IsFirst contract capabilities c h =
    rw h.split (find_contract-split contract h.before h.after c h.of_contract h.first)

abbrev IsFound : Text → List PluginManifest → PluginManifest × Capability → Type 0
IsFound contract plugins c = Memᴰ c.0 plugins × (find_contract contract c.0.provides ≡ some c.1)

IsFound-cons :
    (contract : Text) (p : PluginManifest) (rest : List PluginManifest)
    {c : PluginManifest × Capability}
    → IsFound contract rest c
    → IsFound contract (p ∷ rest) c
IsFound-cons contract p rest (m, f) = (Memᴰ.tail m, f)

IsFound-providers_of :
    (contract : Text) (plugins : List PluginManifest) {c : PluginManifest × Capability}
    → Memᴰ c (providers_of contract plugins)
    → IsFound contract plugins c
unfolding providers_of
IsFound-providers_of contract [] m = elim m [ ]
IsFound-providers_of contract (p ∷ rest) {c} m =
    elim (Option-cases (find_contract contract p.provides)) [
      | inl nothing ↦
          IsFound-cons contract p rest (IsFound-providers_of contract rest (rw nothing at m))
      | inr (d, found) ↦
          first_or_later d found (λ k. IsFound-providers_of contract rest k) (rw found at m)
    ]
  where
    first_or_later :
        (d : Capability)
        → find_contract contract p.provides ≡ some d
        → (Memᴰ c (providers_of contract rest) → IsFound contract rest c)
        → Memᴰ c ((p, d) ∷ providers_of contract rest)
        → IsFound contract (p ∷ rest) c
    first_or_later d found ih (Memᴰ.head same) =
        subst (IsFound contract (p ∷ rest)) (sym same) (Memᴰ.head refl, found)
    first_or_later d found ih (Memᴰ.tail k) = IsFound-cons contract p rest (ih k)

mem_of_IsFound :
    (contract : Text) (plugins : List PluginManifest) {q : PluginManifest} {d : Capability}
    → Memᴰ q plugins
    → find_contract contract q.provides ≡ some d
    → Memᴰ (q, d) (providers_of contract plugins)
unfolding providers_of
mem_of_IsFound contract [] m f = elim m [ ]
mem_of_IsFound contract (p ∷ rest) {q} {d} (Memᴰ.head same) f =
    rw (subst (λ z. find_contract contract z.provides ≡ some d) same f)
      (Memᴰ.head (ap (λ z. (z, d)) same))
mem_of_IsFound contract (p ∷ rest) (Memᴰ.tail m) f =
    elim (Option-cases (find_contract contract p.provides)) [
      | inl nothing ↦ rw nothing (mem_of_IsFound contract rest m f)
      | inr (e, found) ↦ rw found (Memᴰ.tail (mem_of_IsFound contract rest m f))
    ]

chosen :
    (providers compatible : List (PluginManifest × Capability)) {c : PluginManifest × Capability}
    → choose providers compatible ≡ ok c
    → compatible ≡ c ∷ []
chosen [] compatible e = absurd (cc e)
chosen (p ∷ providers) [] e = absurd (cc e)
chosen (p ∷ providers) (c ∷ []) e = ap (λ x. x ∷ []) (ok_injective e)
chosen (p ∷ providers) (c ∷ d ∷ rest) e = absurd (cc e)

only : {A : Type 0} {a b : A} → Memᴰ a (b ∷ []) → a ≡ b
only (Memᴰ.head same) = same
only (Memᴰ.tail m) = elim m [ ]

-- A resolution that succeeds gives a registered plugin with the first capability in its list that is
-- of the contract asked for, and that capability's version is in the range; and no other registered
-- plugin has a first capability of the contract whose version is in the range.
pub resolve_capability-IsProvider :
    (requirement : Capability) (plugins : List PluginManifest) {c : PluginManifest × Capability}
    → resolve_capability requirement plugins ≡ ok c
    → IsProvider requirement plugins c
      × ((other : PluginManifest × Capability) → IsProvider requirement plugins other → other ≡ c)
unfolding resolve_capability
resolve_capability-IsProvider requirement plugins {c} e =
    elim (Bool-cases (is_valid_requirement requirement)) [
      | inr bad ↦ absurd (cc (rw bad at e))
      | inl good ↦
          let fits = λ (x : PluginManifest × Capability).
            version_satisfies x.1.version requirement.version in
          let providers = providers_of requirement.contract plugins in
          let single = chosen providers (keep fits providers) (rw good at e) in
          let (m, h) = mem-keep fits providers (subst (Memᴰ c) (sym single) (Memᴰ.head refl)) in
          let (registered, found) = IsFound-providers_of requirement.contract plugins m in
          (
            record {
              registered = registered;
              found = find_contract-IsFirst requirement.contract c.0.provides found;
              compatible = h;
            },
            λ other p. only (
                subst (Memᴰ other) single (
                  mem_keep_of_mem fits providers
                    (mem_of_IsFound requirement.contract plugins p.registered (
                      find_contract_of_IsFirst requirement.contract other.0.provides other.1
                        p.found))
                    p.compatible)),
          )
    ]
