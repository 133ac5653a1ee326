-- ===== src/Dispatch/Triggers/Verified.antt =====
-- Which triggers of packages/sdk/src/trigger.ts reach their handlers.
use kitstack.Base.{
  ◌≡◌, ◌⊎◌, inl, inr, refl, Bool, true, false, ◌&&◌, Option, none, some, [], ◌∷◌, Text, codes, ◌++◌,
  Result, ok, Bool-cases, Option-cases, any, is_blank, or_else, ◌==◌, text_instance, text_eq, arith,
}
use kitstack.Dispatch.Types.{
  Action, pure, recovered, DispatchErrorCode, DispatchResult, SessionContext, DispatchEnvelope,
  DispatchTarget, DispatchValidation, DispatchDecision, DispatchDependencies, run_cases,
}
use kitstack.Dispatch.{
  dispatch, attempt, create_dispatch_envelope, resolved, validated, settle_validation, authorized,
  settle_grant, settle_policy, invoked, context_of, requirements_of, evaluate_grant,
  evaluate_policy, dispatch_error, is_denial, allowed_decision, refusal,
}
use kitstack.Dispatch.Triggers.Definition.{
  TriggerDefinition, TriggerInvocation, TriggerVerificationRequest, is_webhook, is_absent,
  TriggerAuditEvent, define_trigger,
}
use kitstack.Dispatch.Triggers.{
  ValueOperations, TriggerInvocationResult, verification_request, resolve_trigger, verify_trigger,
  invoke_trigger, result_of, trigger_event, trigger_envelope, trigger_dependencies,
  dispatch_trigger,
}

nonempty_of_blank : (s : Text) → is_blank s ≡ false → (s == []) ≡ false
unfolding is_blank text_eq
nonempty_of_blank [] h = absurd (cc)
nonempty_of_blank (c ∷ s) h = refl

module _ {W Args Headers Payload Value : Type 0} where
  -- What `defineTrigger` has checked.
  define_trigger_sound :
      (definition trigger : TriggerDefinition W Args Headers Payload Value)
      → define_trigger definition ≡ ok trigger
      → (is_blank trigger.identity.principal ≡ false)
        × ((is_webhook trigger.kind && is_absent trigger.verify) ≡ false)
  unfolding define_trigger
  define_trigger_sound definition trigger h = ground arith

  -- The trigger's check lets a request through, in world `w`, and leaves world `w'`.
  pub data Verifies (trigger : TriggerDefinition W Args Headers Payload Value)
      (request : TriggerVerificationRequest Headers Payload) (w : W) : W → Type 0 where
    unchecked :
        trigger.verify ≡ none → is_webhook trigger.kind ≡ false → Verifies trigger request w w
    checked :
        (verify : TriggerVerificationRequest Headers Payload → Action W Bool) (w' : W)
        → trigger.verify ≡ some verify
        → verify request w ≡ (ok true, w')
        → Verifies trigger request w w'

module _ {W Args Headers Payload Value : Type 0} (operations : ValueOperations Args Payload Value)
    (no_headers : Headers) (new_session : SessionContext)
    (trigger : TriggerDefinition W Args Headers Payload Value)
    (invocation : TriggerInvocation Headers Payload)
    (audit : TriggerAuditEvent → Action W (Unit {0})) where
  abbrev pub Handler : Type 0
  Handler = DispatchEnvelope Args → Payload → Action W Value

  -- The dependencies with another handler.
  abbrev deps_with : Handler → DispatchDependencies (W × Option Value) Args (Unit {0})
  deps_with h =
      trigger_dependencies operations no_headers new_session (record trigger { handler = h })
        invocation audit

  abbrev pub request : TriggerVerificationRequest Headers Payload
  request = verification_request no_headers trigger invocation

  policy_cases :
      (target : DispatchTarget (W × Option Value) Args (Unit {0})) (args : Args)
      (envelope : DispatchEnvelope Args) (w : W)
      → (is_webhook trigger.kind && is_absent trigger.verify) ≡ false
      → ((w' : W) × Verifies trigger request w w'
          × ((h : Handler)
              → evaluate_policy (deps_with h) envelope target args none (w, none)
                ≡ (ok allowed_decision, (w', none))))
        ⊎ ((d : DispatchDecision) × (w' : W) × (d.allowed ≡ false)
            × ((h : Handler)
                → evaluate_policy (deps_with h) envelope target args none (w, none)
                  ≡ (ok d, (w', none))))
  unfolding evaluate_policy trigger_dependencies verify_trigger
  policy_cases target args envelope w webhook = elim (Option-cases trigger.verify) [
    | inl absent ↦ inl (w, Verifies.unchecked absent (ground (arith, absent)), λ h. rw absent refl)
    | inr (verify, given) ↦ elim (run_cases (verify request) w) [
      | inl (message, w', thrown) ↦ inr (
        refusal (codes "Policy provider failed: " ++ message),
        w',
        refl,
        λ h. rw (given, thrown) refl,
      )
      | inr (true, w', said) ↦
          inl (w', Verifies.checked verify w' given said, λ h. rw (given, said) refl)
      | inr (false, w', said) ↦
          inr (refusal (codes "Trigger verification failed."), w', refl, λ h. rw (given, said) refl)
    ]
  ]

  abbrev pub envelope : DispatchEnvelope Args
  envelope = trigger_envelope operations no_headers new_session trigger invocation

  -- What the handler leaves: the result that is made of its value, and the value.
  abbrev pub handler_run : Handler → W → Result Text DispatchResult × (W × Option Value)
  handler_run h w =
      invoke_trigger (result_of operations) (record trigger { handler = h }) invocation.payload
        envelope (w, none)

  abbrev pub failed : Text → DispatchResult
  failed = dispatch_error DispatchErrorCode.provider_failure

  -- The stages of a trigger's dispatch: refused before the handler, or the handler's dispatched.
  attempt_cases :
      (w : W)
      → is_blank trigger.identity.principal ≡ false
      → (is_webhook trigger.kind && is_absent trigger.verify) ≡ false
      → ((r : DispatchResult) × (w' : W) × (is_denial r.error_code ≡ true)
          × ((h : Handler) → attempt (deps_with h) envelope (w, none) ≡ (ok r, (w', none))))
        ⊎ ((w' : W) × (any (λ kit_id. kit_id == invocation.kit_id) trigger.kits ≡ true)
            × Verifies trigger request w w'
            × ((h : Handler)
                → attempt (deps_with h) envelope (w, none)
                  ≡ (let (r, end) = recovered failed (handler_run h w') in (ok r, end))))
  unfolding attempt resolved settle_validation validated authorized settle_grant settle_policy
      invoked context_of requirements_of evaluate_grant trigger_dependencies trigger_envelope
      resolve_trigger create_dispatch_envelope
  attempt_cases w principal webhook =
      let named = nonempty_of_blank trigger.identity.principal principal in
      let actor = or_else trigger.identity.actor trigger.identity.principal in
      elim (Bool-cases (actor == [])) [
        | inl anonymous ↦ inl (
          dispatch_error DispatchErrorCode.policy_denied
              (codes "A principal and actor are required for dispatch."),
          w,
          refl,
          λ h. simp (named, anonymous) refl,
        )
        | inr acting ↦
            elim (Bool-cases (any (λ kit_id. kit_id == invocation.kit_id) trigger.kits)) [
              | inr foreign ↦ inl (
                dispatch_error DispatchErrorCode.policy_denied (
                    codes "Trigger \""
                    ++ (trigger.id
                        ++ (codes "\" is not allowed for kit \""
                            ++ (invocation.kit_id ++ codes "\".")))),
                w,
                refl,
                λ h. simp (named, acting, foreign) refl,
              )
              | inl own ↦
                  let target : DispatchTarget (W × Option Value) Args (Unit {0}) = record {
                    kit_id = invocation.kit_id;
                    command = trigger.id;
                    validate = some (λ given.
                        pure (DispatchValidation.success (operations.args_of invocation.payload)));
                    authorize = none;
                    mode = none;
                  } in
                  elim (policy_cases target (operations.args_of invocation.payload) envelope w
                    webhook) [
                      | inl (w', verified, allowed) ↦
                          inr (w', own, verified, λ h. simp (named, acting, own, allowed h) refl)
                      | inr (d, w', denied, decided) ↦ inl (
                        dispatch_error DispatchErrorCode.policy_denied
                            (or_else d.reason (codes "The request was denied by policy.")),
                        w',
                        refl,
                        λ h. simp (named, acting, own, decided h, denied) refl,
                      )
                    ]
            ]
      ]

  abbrev pub dispatched : Handler → Text → W → TriggerInvocationResult Args Value × W
  dispatched h duration_ms w =
      dispatch_trigger operations no_headers new_session (record trigger { handler = h }) invocation
        audit duration_ms w

  -- What the dispatch makes of a dispatched of its stages: the result, the value, and one audit event.
  abbrev pub ended : DispatchResult × (W × Option Value) → TriggerInvocationResult Args Value × W
  ended (r, (w, value)) = (
    record { result = r; value = value; envelope = envelope },
    (audit (trigger_event trigger envelope r) w).1,
  )

  run_ended :
      (h : Handler) (duration_ms : Text) (w : W) (r : DispatchResult) (end : W × Option Value)
      → attempt (deps_with h) envelope (w, none) ≡ (ok r, end)
      → dispatched h duration_ms w ≡ ended (r, end)
  unfolding dispatch_trigger dispatch trigger_dependencies trigger_event trigger_envelope
  run_ended h duration_ms w r (w', value) e = simp e refl

  -- A trigger that `defineTrigger` accepts is dispatched in one of two ways. Either the request is
  -- denied, there is no value, and all this and the world are the same for any other handler; or the
  -- kit is one of the trigger's, the trigger's check answered true (a webhook always has a check), and
  -- the result and the value are those of the handler, dispatched in the world that the check left. In both
  -- the audit seam is called once, with the event of the result, as the last change of the world.
  pub dispatch_trigger_cases :
      (definition : TriggerDefinition W Args Headers Payload Value)
      → define_trigger definition ≡ ok trigger
      → (duration_ms : Text) (w : W)
      → ((r : DispatchResult) × (w' : W) × (is_denial r.error_code ≡ true)
          × ((h : Handler) → dispatched h duration_ms w ≡ ended (r, (w', none))))
        ⊎ ((w' : W) × (any (λ kit_id. kit_id == invocation.kit_id) trigger.kits ≡ true)
            × Verifies trigger request w w'
            × ((h : Handler)
                → dispatched h duration_ms w ≡ ended (recovered failed (handler_run h w'))))
  dispatch_trigger_cases definition defined duration_ms w =
      let (named, webhook) = define_trigger_sound definition trigger defined in
      elim (attempt_cases w named webhook) [
        | inl (r, w', denied, refused) ↦
            inl (r, w', denied, λ h. run_ended h duration_ms w r (w', none) (refused h))
        | inr (w', own, verified, handled) ↦ inr (
          w',
          own,
          verified,
          λ h.
              let (r, end) = recovered failed (handler_run h w') in
              run_ended h duration_ms w r end (handled h),
        )
      ]
