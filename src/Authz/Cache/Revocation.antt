-- ===== src/Authz/Cache/Revocation.antt =====
-- The system of a database, its mutations and the cache over one of its handles, as steps: every
-- answer of the cache is the database's own, so that a revocation is seen by the next check.
use kitstack.Base.{ℕ, ◌≡◌, ◌≢◌, ◌↔◌, true, Option, none, ok, ◌∙◌, sym}
use kitstack.Authz.Types.{CheckInput}
use kitstack.Authz.Db.{Db}
use kitstack.Authz.Engine.Spec.{IsPermitted}
use kitstack.Authz.Engine.Permitted.{query_decision-IsPermitted}
use kitstack.Authz.Keys.{IsCleanInput}
use kitstack.Authz.Lifecycle.Mutations.{Mutation, apply, apply-Versioned}
use kitstack.Authz.Cache.{GrantCache, check, clear}
use kitstack.Authz.Cache.Coherence.{
  IsCoherent, IsCoherent-Versioned, check-IsCoherent, check_elsewhere-IsCoherent, clear-IsCoherent,
}

pub record System : Type 0 where
  pub db : Db
  pub cache : GrantCache

-- What can happen between two checks on the handle: a mutation of its database, whoever makes it, a
-- check on it or on another handle, and clearing.
pub data Step (handle : ℕ) : System → System → Type 0 where
  mutate :
      (s : System) (m : Mutation) (after : Db)
      → apply s.db m ≡ ok after
      → Step handle s (record s { db = after })
  check_here :
      (s : System) (now : ℕ) (input : CheckInput)
      → IsCleanInput input
      → Step handle s (record s { cache = (check s.cache handle s.db now input).1 })
  check_elsewhere :
      (s : System) (other : ℕ) (other_db : Db) (now : ℕ) (input : CheckInput)
      → other ≢ handle
      → Step handle s (record s { cache = (check s.cache other other_db now input).1 })
  clears :
      (s : System) (cleared : Option ℕ) → Step handle s (record s { cache = clear s.cache cleared })

pub data Reach (handle : ℕ) (s : System) : System → Type 0 where
  start : Reach handle s s
  next : {t u : System} → Reach handle s t → Step handle t u → Reach handle s u

module _ (handle : ℕ) where
  abbrev pub IsSound : System → Type 0
  IsSound s = IsCoherent s.db (s.cache.states handle)

  pub Step-IsSound : {s t : System} → Step handle s t → IsSound s → IsSound t
  Step-IsSound (mutate s m after e) h =
      IsCoherent-Versioned (s.cache.states handle) (apply-Versioned s.db m e) h
  Step-IsSound (check_here s now input clean) h =
      (check-IsCoherent s.cache handle s.db now input clean h).1
  Step-IsSound (check_elsewhere s other other_db now input apart) h =
      check_elsewhere-IsCoherent s.cache handle s.db other other_db now input apart h
  Step-IsSound (clears s cleared) h = clear-IsCoherent s.cache handle s.db cleared h

  Reach-IsSound : {s t : System} → IsSound s → Reach handle s t → IsSound t
  Reach-IsSound h start = h
  Reach-IsSound h (next r st) = Step-IsSound st (Reach-IsSound h r)

-- Start with no state for the handle, and let any mutations and clearings follow, at any times, and
-- any checks of inputs whose subject ids hold no U+001F: then a check of an input whose subject id
-- holds no U+001F either is allowed exactly when the tables permit it at that moment, cached or not.
pub check-IsPermitted :
    (handle : ℕ) {s t : System} (now : ℕ) (input : CheckInput)
    → s.cache.states handle ≡ none
    → Reach handle s t
    → IsCleanInput input
    → ((check t.cache handle t.db now input).0.allowed ≡ true) ↔ IsPermitted t.db input
check-IsPermitted handle {s} {t} now input fresh r clean =
    let sound = Reach-IsSound handle {s = s} (rw fresh tt) r in
    let same = (check-IsCoherent t.cache handle t.db now input clean sound).0 in
    let spec = query_decision-IsPermitted t.db input in
    (λ h. spec.0 (sym same ∙ h), λ p. same ∙ spec.1 p)
