-- ===== src/Authz/Middleware/Decisions.antt =====
-- What `authorize` answers, requirement by requirement.
use kitstack.Base.{
  ℕ, suc, ◌≡◌, refl, sym, ◌∙◌, ◌⊎◌, inl, inr, true, false, none, some, List, [], ◌∷◌, Text,
  Bool-cases,
}
use kitstack.Authz.Db.{Db}
use kitstack.Authz.Engine.Spec.{IsPermitted}
use kitstack.Authz.Engine.Permitted.{query_decision-IsPermitted}
use kitstack.Authz.Keys.{IsClean}
use kitstack.Authz.Lifecycle.Mutations.{Versioned}
use kitstack.Authz.Cache.{GrantCache, check}
use kitstack.Authz.Cache.Coherence.{IsCoherent, IsCoherent-Versioned, check-IsCoherent}
use kitstack.Authz.Middleware.{AuthzRequirement, AuthorizeResult, input_of, later, authorize}

-- Any number of mutations.
pub data Evolves (db : Db) : Db → Type 0 where
  settled : Evolves db db
  mutated : {mid after : Db} → Evolves db mid → Versioned mid after → Evolves db after

IsCoherent-Evolves :
    {db after : Db} (cache : GrantCache) (handle : ℕ)
    → Evolves db after
    → IsCoherent db (cache.states handle)
    → IsCoherent after (cache.states handle)
IsCoherent-Evolves cache handle settled h = h
IsCoherent-Evolves cache handle (mutated e v) h =
    IsCoherent-Versioned (cache.states handle) v (IsCoherent-Evolves cache handle e h)

-- Each requirement is permitted when its turn comes.
abbrev pub PermittedInTurn : (ℕ → Db) → Text → List AuthzRequirement → Type 0
PermittedInTurn dbs user_id [] = Unit
PermittedInTurn dbs user_id (req ∷ more) =
    IsPermitted (dbs 0) (input_of user_id req) × PermittedInTurn (later dbs) user_id more

-- The requirement is the first that is not permitted when its turn comes.
abbrev pub FirstDenied : (ℕ → Db) → Text → List AuthzRequirement → AuthzRequirement → Type 0
FirstDenied dbs user_id [] denied = ⊥
FirstDenied dbs user_id (req ∷ more) denied =
    ((req ≡ denied) × ¬ (IsPermitted (dbs 0) (input_of user_id req)))
    ⊎ (IsPermitted (dbs 0) (input_of user_id req) × FirstDenied (later dbs) user_id more denied)

-- What the answer must be.
abbrev pub Answers : (ℕ → Db) → Text → List AuthzRequirement → AuthorizeResult → Type 0
Answers dbs user_id reqs r =
    ((r.allowed ≡ true) × (r.failed_check ≡ none) × PermittedInTurn dbs user_id reqs)
    ⊎ ((r.allowed ≡ false)
        × ((req : AuthzRequirement) × (r.failed_check ≡ some req)
            × FirstDenied dbs user_id reqs req))

module _ (handle : ℕ) (user_id : Text) (clean : IsClean user_id) where
  Answers-later :
      (dbs : ℕ → Db) (req : AuthzRequirement) (more : List AuthzRequirement) (r : AuthorizeResult)
      → IsPermitted (dbs 0) (input_of user_id req)
      → Answers (later dbs) user_id more r
      → Answers dbs user_id (req ∷ more) r
  Answers-later dbs req more r p (inl (allowed, none_failed, rest)) =
      inl (allowed, none_failed, (p, rest))
  Answers-later dbs req more r p (inr (refused, (denied, failed, first))) =
      inr (refused, (denied, failed, inr (p, first)))

  -- Let the user id hold no U+001F, and let the cache be coherent with the tables: not of a later
  -- version, and, when it is of theirs, with the query's decisions for the inputs whose subject ids
  -- hold no U+001F. While the tables change between the checks, by steps that change nothing or
  -- advance the version, the answer is yes with no failed check, and every
  -- requirement was permitted when it was checked; or it is no, and the failed check is the first
  -- requirement that was not permitted when it was checked.
  pub authorize-Answers :
      (cache : GrantCache) (dbs : ℕ → Db) (now : ℕ → ℕ) (reqs : List AuthzRequirement)
      → ((k : ℕ) → Evolves (dbs k) (dbs (suc k)))
      → IsCoherent (dbs 0) (cache.states handle)
      → Answers dbs user_id reqs (authorize cache handle dbs now user_id reqs).0
  unfolding authorize
  authorize-Answers cache dbs now [] evolves h = inl (refl, refl, tt)
  authorize-Answers cache dbs now (req ∷ reqs) evolves h =
      let input = input_of user_id req in
      let spec = query_decision-IsPermitted (dbs 0) input in
      let (same, kept) = check-IsCoherent cache handle (dbs 0) (now 0) input clean h in
      let cache' = (check cache handle (dbs 0) (now 0) input).1 in
      elim (Bool-cases (check cache handle (dbs 0) (now 0) input).0.allowed) [
        | inl yes_ ↦ rw yes_ (
            Answers-later dbs req reqs
              (authorize cache' handle (later dbs) (later now) user_id reqs).0
              (spec.0 (sym same ∙ yes_))
              (authorize-Answers cache' (later dbs) (later now) reqs (λ k. evolves (suc k))
                (IsCoherent-Evolves cache' handle (evolves 0) kept)))
        | inr no_ ↦
            rw no_ (inr (refl, (req, refl, inl (refl, λ p. absurd (cc (same, no_, spec.1 p))))))
      ]
