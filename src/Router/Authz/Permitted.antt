-- ===== src/Router/Authz/Permitted.antt =====
-- What it takes to be authorized by packages/mcp-server/src/router/authz.ts.
use kitstack.Base.{
  ◌≡◌, ◌↔◌, inl, inr, refl, Bool, true, false, ◌||◌, [], Text, ok, or_else, Bool-cases, ◌==◌,
  text_instance, ap, codes, or_false_iff,
}
use kitstack.Authz.Types.{SubjectType}
use kitstack.Dispatch.Types.{answers_injective, pure, bind, run_cases}
use kitstack.Router.Authz.{
  McpIdentityKind, interactive, delegated, service, ToolAuthorizationInput, ToolAuthorizationResult,
  TupleChecker, ask, check_actor, granted, refused, answer_or, missing_on_kit,
  authorize_tool_invocation,
}

module _ {W : Type 0} (checker : TupleChecker W) (input : ToolAuthorizationInput) where
  abbrev Grants : Text → SubjectType → W → W → Type 0
  Grants subject_id subject_type w w' = ask checker input subject_id subject_type w ≡ (ok true, w')

  -- What each kind of identity needs, in the order in which it is asked, from world to world.
  pub data IsPermitted (w w' : W) : Type 0 where
    as_user :
        input.identity.kind ≡ interactive
        → (input.identity.principal == input.identity.actor) ≡ true
        → Grants input.identity.principal SubjectType.user w w'
        → IsPermitted w w'
    as_service :
        input.identity.kind ≡ service
        → (input.identity.principal == input.identity.actor) ≡ true
        → Grants input.identity.actor SubjectType.service w w'
        → IsPermitted w w'
    on_behalf :
        input.identity.kind ≡ delegated
        → (input.identity.principal == input.identity.actor) ≡ false
        → (or_else input.identity.delegation [] == []) ≡ false
        → (between : W) → Grants input.identity.principal SubjectType.user w between
        → Grants input.identity.actor SubjectType.service between w'
        → IsPermitted w w'

  abbrev pub Allows : W → W → Type 0
  Allows w w' =
      (r : ToolAuthorizationResult) × (authorize_tool_invocation checker input w ≡ (ok r, w'))
      × (r.allowed ≡ true)

  IsPermitted-Allows : (w w' : W) → IsPermitted w w' → Allows w w'
  unfolding authorize_tool_invocation check_actor
  IsPermitted-Allows w w' (IsPermitted.as_user kind same g) =
      (granted, rw (authorize_tool_invocation, kind, same, bind, g) refl, refl)
  IsPermitted-Allows w w' (IsPermitted.as_service kind same g) =
      (granted, rw (authorize_tool_invocation, kind, same, bind, g) refl, refl)
  IsPermitted-Allows w w' (IsPermitted.on_behalf kind apart given between g h) =
      (granted, rw (authorize_tool_invocation, kind, given, apart, bind, g, h) refl, refl)

  asked :
      (subject_id : Text) (subject_type : SubjectType) (w : W) (f : Bool → ToolAuthorizationResult)
      (w' : W) (r : ToolAuthorizationResult)
      → (f false).allowed ≡ false
      → bind (ask checker input subject_id subject_type) (λ a. pure (f a)) w ≡ (ok r, w')
      → r.allowed ≡ true
      → Grants subject_id subject_type w w'
  asked id type w f w' r shut e allowed = elim (run_cases (ask checker input id type) w) [
    | inl (m, v, h) ↦ let e' = rw (bind, h) at e in absurd (cc)
    | inr (true, v, h) ↦
        let e' = rw (bind, h) at e in let moved = ap (λ p. p.1) e' in rw (← moved) h
    | inr (false, v, h) ↦
        let e' = rw (bind, h) at e in
        let same = ap (λ (x : ToolAuthorizationResult). x.allowed) (answers_injective e') in
        absurd (cc)
  ]

  not_refused :
      {C : Type 0} (reason : Text) (w w' : W) (r : ToolAuthorizationResult)
      → pure (refused reason) w ≡ (ok r, w')
      → r.allowed ≡ true
      → C
  not_refused reason w w' r e allowed =
      let denied = ap (λ (x : ToolAuthorizationResult). x.allowed) (answers_injective e) in
      absurd (cc)

  -- Both grants of a delegated call.
  asked_twice :
      (w w' : W) (r : ToolAuthorizationResult)
      → bind
          (ask checker input input.identity.principal SubjectType.user)
          (check_actor checker input)
          w
        ≡ (ok r, w')
      → r.allowed ≡ true
      → (between : W) × Grants input.identity.principal SubjectType.user w between
        × Grants input.identity.actor SubjectType.service between w'
  unfolding check_actor
  asked_twice w w' r e allowed =
      elim (run_cases (ask checker input input.identity.principal SubjectType.user) w) [
        | inl (m, v, h) ↦ let e' = rw (bind, h) at e in absurd (cc)
        | inr (true, v, h) ↦ (
          v,
          h,
          asked input.identity.actor SubjectType.service v
              (answer_or (missing_on_kit input (codes " for service actor"))) w' r refl
              (rw (bind, h) at e) allowed,
        )
        | inr (false, v, h) ↦ not_refused _ v w' r (rw (bind, h) at e) allowed
      ]

  Allows-IsPermitted : (w w' : W) → Allows w w' → IsPermitted w w'
  unfolding authorize_tool_invocation check_actor
  Allows-IsPermitted w w' (r, e, allowed) = by_kind input.identity.kind refl
    where
      by_kind : (kind : McpIdentityKind) → input.identity.kind ≡ kind → IsPermitted w w'
      by_kind McpIdentityKind.interactive k =
          elim (Bool-cases (input.identity.principal == input.identity.actor)) [
            | inl same ↦ IsPermitted.as_user k same (
                asked input.identity.principal SubjectType.user w
                  (answer_or (missing_on_kit input [])) w' r refl
                  (rw (authorize_tool_invocation, k, same) at e) allowed)
            | inr apart ↦
                not_refused _ w w' r (rw (authorize_tool_invocation, k, apart) at e) allowed
          ]
      by_kind McpIdentityKind.service k =
          elim (Bool-cases (input.identity.principal == input.identity.actor)) [
            | inl same ↦ IsPermitted.as_service k same (
                asked input.identity.actor SubjectType.service w
                  (answer_or (missing_on_kit input (codes " for service identity"))) w' r refl
                  (rw (authorize_tool_invocation, k, same) at e) allowed)
            | inr apart ↦
                not_refused _ w w' r (rw (authorize_tool_invocation, k, apart) at e) allowed
          ]
      by_kind McpIdentityKind.delegated k =
          let absent = or_else input.identity.delegation [] == [] in
          let same = input.identity.principal == input.identity.actor in
          elim (Bool-cases (absent || same)) [
            | inl improper ↦
                not_refused _ w w' r (rw (authorize_tool_invocation, k, improper) at e) allowed
            | inr proper ↦
                let (given, apart) = (or_false_iff absent same).0 proper in
                let (between, g, h) =
                  asked_twice w w' r (rw (authorize_tool_invocation, k, proper) at e) allowed in
                IsPermitted.on_behalf k apart given between g h
          ]

  -- A tool call is authorized exactly when its identity is a user or a service that acts for itself and
  -- has the grant of the mode on the kit, or a delegated one with a delegation and another actor, whose
  -- principal, as a user, and then whose actor, as a service, have that grant.
  pub authorize_tool_invocation_iff : (w w' : W) → Allows w w' ↔ IsPermitted w w'
  authorize_tool_invocation_iff w w' = (Allows-IsPermitted w w', IsPermitted-Allows w w')
