-- ===== src/Dispatch/Gates.antt =====
-- The order of the stages of `dispatch` in packages/sdk/src/server/dispatch.ts: a kit's command is
-- reached only behind all of them.
use kitstack.Base.{
  ◌≡◌, ◌⊎◌, inl, inr, refl, true, false, ◌||◌, Option, none, some, List, [], Text, codes, ◌++◌,
  Result, ok, err, Bool-cases, Option-cases, ◌==◌, text_instance, or_false_iff,
}
use kitstack.Dispatch.Types.{
  Action, pure, bind, DispatchErrorCode, DispatchResult, DispatchEnvelope, DispatchValidation,
  AuthzRequirement, DispatchTarget, DispatchResolution, DispatchDecision, DispatchDependencies,
  run_cases,
}
use kitstack.Dispatch.{
  dispatch_error, evaluate_grant, evaluate_policy, validated, context_of, requirements_of, invoked,
  settle_policy, settle_grant, authorized, settle_validation, resolved, attempt,
}

abbrev pub Invoke : (W Args Ctx : Type 0) → Type 0
Invoke W Args Ctx =
    DispatchEnvelope Args → DispatchTarget W Args Ctx → Args → Option Ctx → Action W DispatchResult

module _ {W Args Ctx : Type 0} where
  abbrev pub with_invoke :
      DispatchDependencies W Args Ctx → Invoke W Args Ctx → DispatchDependencies W Args Ctx
  with_invoke deps i = record deps { invoke = i }

  -- A request has passed every stage: what each one answered, and the world that it left.
  pub record Passed (deps : DispatchDependencies W Args Ctx) (envelope : DispatchEnvelope Args)
      (start : W) : Type 0 where
    pub principal_given : (envelope.identity.principal == []) ≡ false
    pub actor_given : (envelope.actor == []) ≡ false
    pub resolution : DispatchResolution W Args Ctx
    pub after_resolve : W
    pub resolves : deps.resolve envelope start ≡ (ok resolution, after_resolve)
    pub no_error : resolution.error ≡ none
    pub target : DispatchTarget W Args Ctx
    pub has_target : resolution.target ≡ some target
    pub args : Args
    pub after_validate : W
    pub validates :
        validated target envelope after_resolve
        ≡ (ok (DispatchValidation.success args), after_validate)
    pub ctx : Option Ctx
    pub after_context : W
    pub makes_context : context_of deps envelope args after_validate ≡ (ok ctx, after_context)
    pub requirements : List AuthzRequirement
    pub after_authorize : W
    pub requires :
        requirements_of target args ctx after_context ≡ (ok requirements, after_authorize)
    pub grant : DispatchDecision
    pub after_grant : W
    pub grants :
        evaluate_grant deps envelope requirements ctx after_authorize ≡ (ok grant, after_grant)
    pub granted : grant.allowed ≡ true
    pub policy : DispatchDecision
    pub after_policy : W
    pub permits :
        evaluate_policy deps envelope target args ctx after_grant ≡ (ok policy, after_policy)
    pub permitted : policy.allowed ≡ true

  -- The run `k` of the pipeline, as a function of what is invoked, ends in one of two ways: all stages
  -- are passed and it ends with the invocation, or it ends without it.
  abbrev pub Gated :
      DispatchDependencies W Args Ctx
      → DispatchEnvelope Args
      → W
      → (Invoke W Args Ctx → Result Text DispatchResult × W)
      → Type 0
  Gated deps envelope start k =
      ((p : Passed deps envelope start) × ((i : Invoke W Args Ctx)
          → k i ≡ invoked (with_invoke deps i) envelope p.target p.args p.ctx p.after_policy))
      ⊎ ((r : Result Text DispatchResult) × (w : W) × ((i : Invoke W Args Ctx) → k i ≡ (r, w)))

module _ {W Args Ctx : Type 0} (deps : DispatchDependencies W Args Ctx)
    (envelope : DispatchEnvelope Args) (start : W) where
  -- A call behind which the pipeline goes on with `f`.
  Gated-bind :
      {A : Type 0} (m : Action W A) (f : Invoke W Args Ctx → A → Action W DispatchResult) (w : W)
      → ((a : A) (w' : W) → m w ≡ (ok a, w') → Gated deps envelope start (λ i. f i a w'))
      → Gated deps envelope start (λ i. bind m (f i) w)
  Gated-bind m f w next = elim (run_cases m w) [
    | inl (e, w', h) ↦ inr (err e, w', λ i. rw (bind, h) refl)
    | inr (a, w', h) ↦ rw (bind, h) (next a w' h)
  ]

  -- A branch that answers at once.
  Gated-pure : (r : DispatchResult) (w : W) → Gated deps envelope start (λ i. pure r w)
  Gated-pure r w = inr (ok r, w, λ i. refl)

  -- The stages of the pipeline, from the last one to the first.
  settle_validation-Gated :
      (principal_given : (envelope.identity.principal == []) ≡ false)
      (actor_given : (envelope.actor == []) ≡ false) (resolution : DispatchResolution W Args Ctx)
      (w1 : W) (resolves : deps.resolve envelope start ≡ (ok resolution, w1))
      (no_error : resolution.error ≡ none) (target : DispatchTarget W Args Ctx)
      (has_target : resolution.target ≡ some target) (validation : DispatchValidation Args) (w2 : W)
      (validates : validated target envelope w1 ≡ (ok validation, w2))
      → Gated deps envelope start
          (λ i. settle_validation (with_invoke deps i) envelope target validation w2)
  unfolding settle_validation authorized settle_grant settle_policy
  settle_validation-Gated h1 h2 resolution w1 h3 h4 target h5 (DispatchValidation.failure m) w2 h6 =
      Gated-pure _ w2
  settle_validation-Gated h1 h2 resolution w1 h3 h4 target h5 (DispatchValidation.success args) w2
        h6 =
      Gated-bind (context_of deps envelope args)
        (λ i ctx. bind (requirements_of target args ctx) (λ reqs.
          bind (evaluate_grant (with_invoke deps i) envelope reqs ctx)
            (settle_grant (with_invoke deps i) envelope target args ctx)))
        w2
        (λ ctx w3 h7.
          Gated-bind (requirements_of target args ctx)
            (λ i reqs.
              bind (evaluate_grant (with_invoke deps i) envelope reqs ctx)
                (settle_grant (with_invoke deps i) envelope target args ctx))
            w3
            (λ reqs w4 h8.
              Gated-bind (evaluate_grant deps envelope reqs ctx)
                (λ i. settle_grant (with_invoke deps i) envelope target args ctx) w4
                (λ grant w5 h9. elim (Bool-cases grant.allowed) [
                  | inr refused ↦ rw refused (Gated-pure _ w5)
                  | inl granted ↦ rw granted (
                      Gated-bind (evaluate_policy deps envelope target args ctx)
                        (λ i. settle_policy (with_invoke deps i) envelope target args ctx) w5
                        (λ policy w6 h10. elim (Bool-cases policy.allowed) [
                          | inr refused ↦ rw refused (Gated-pure _ w6)
                          | inl permitted ↦ inl (
                            record {
                              principal_given = h1;
                              actor_given = h2;
                              resolution = resolution;
                              after_resolve = w1;
                              resolves = h3;
                              no_error = h4;
                              target = target;
                              has_target = h5;
                              args = args;
                              after_validate = w2;
                              validates = h6;
                              ctx = ctx;
                              after_context = w3;
                              makes_context = h7;
                              requirements = reqs;
                              after_authorize = w4;
                              requires = h8;
                              grant = grant;
                              after_grant = w5;
                              grants = h9;
                              granted = granted;
                              policy = policy;
                              after_policy = w6;
                              permits = h10;
                              permitted = permitted;
                            },
                            λ i. rw permitted refl,
                          )
                        ]))
                ])))

  resolved-Gated :
      (principal_given : (envelope.identity.principal == []) ≡ false)
      (actor_given : (envelope.actor == []) ≡ false) (resolution : DispatchResolution W Args Ctx)
      (w1 : W) (resolves : deps.resolve envelope start ≡ (ok resolution, w1))
      → Gated deps envelope start (λ i. resolved (with_invoke deps i) envelope resolution w1)
  unfolding resolved
  resolved-Gated h1 h2 resolution w1 h3 = elim (Option-cases resolution.error) [
    | inr ((code, message), e) ↦
        inr (ok (dispatch_error code message), w1, λ i. rw (resolved, e) refl)
    | inl no_error ↦ elim (Option-cases resolution.target) [
      | inl no_target ↦ inr (
        ok (
            dispatch_error DispatchErrorCode.unknown_tool
              (codes "Unknown tool: \"" ++ (envelope.command ++ codes "\""))),
        w1,
        λ i. rw (resolved, no_error, no_target) refl,
      )
      | inr (target, found) ↦
          rw (resolved, no_error, found)
            (Gated-bind (validated target envelope)
              (λ i. settle_validation (with_invoke deps i) envelope target) w1
              (λ validation w2 h6.
                settle_validation-Gated h1 h2 resolution w1 h3 no_error target found validation w2
                  h6))
    ]
  ]

  -- Every run of the stages of `dispatch` is of one of two kinds. Either the principal and the actor
  -- are given, the command is resolved, its arguments are valid, the grant and then the policy are
  -- allowed, each stage in the world that the one before it left, and the run ends with the
  -- invocation of the command; or the outcome and the world are the same whatever the command does.
  pub attempt-Gated : Gated deps envelope start (λ i. attempt (with_invoke deps i) envelope start)
  unfolding attempt
  attempt-Gated = elim (Bool-cases (envelope.identity.principal == [] || envelope.actor == [])) [
    | inl absent ↦ rw (attempt, absent) (Gated-pure _ start)
    | inr given ↦
        let (h1, h2) =
          (or_false_iff (envelope.identity.principal == []) (envelope.actor == [])).0 given in
        rw (attempt, given)
          (Gated-bind (deps.resolve envelope) (λ i. resolved (with_invoke deps i) envelope) start
            (λ resolution w1 h3. resolved-Gated h1 h2 resolution w1 h3))
  ]
