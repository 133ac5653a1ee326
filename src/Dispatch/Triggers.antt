-- ===== src/Dispatch/Triggers.antt =====
-- packages/sdk/src/trigger.ts: an inbound trigger runs through the dispatch pipeline under the identity
-- that its declaration fixes. The abort signal, which is passed on untouched, is left out.
pub mod Definition
pub mod Verified
use kitstack.Base.{
  Bool, true, false, ◌||◌, not, Option, none, some, List, [], ◌∷◌, ◌++◌, Text, codes, Result, ok,
  err, or_else, if◌then◌else◌, any, is_blank, length, nat_eq, ◌==◌, text_instance, head?,
}
use kitstack.Dispatch.Types.{
  Action, pure, bind, DispatchErrorCode, code_text, KitToolContentBlock, DispatchResult, Delegation,
  ChannelContext, SessionContext, DispatchEnvelope, DispatchRequestContext, DispatchValidation,
  DispatchTarget, DispatchResolution, Verdict, DispatchDependencies,
}
use kitstack.Dispatch.Triggers.Definition.{
  TriggerDefinition, TriggerInvocation, TriggerVerificationRequest, TriggerKind, kind_text,
  TriggerIdentity, TriggerOutcome, TriggerAuditEvent,
}
use kitstack.Dispatch.{create_dispatch_envelope, dispatch, is_denial, refusal}

-- `textOf`
abbrev pub text_of : DispatchResult → Text
text_of result = elim (head? result.content) [
  | some (KitToolContentBlock.text text) ↦ text
  | _ ↦ elim result.error_code [ some code ↦ code_text code | none ↦ codes "trigger failed" ]
]

-- A call that does not touch the variable `value`.
abbrev paired : {W A V : Type 0} → Option V → Result Text A × W → Result Text A × (W × Option V)
paired v (r, w) = (r, (w, v))

abbrev beside : {W A V : Type 0} → Action W A → Action (W × Option V) A
beside m (w, v) = paired v (m w)

-- What the language does with the values of a trigger: `isRecord(payload) ? payload : { payload }`,
-- the test of `isKitToolResult`, and `JSON.stringify(value, null, 2)`, which may throw.
pub record ValueOperations (Args Payload Value : Type 0) : Type 0 where
  pub args_of : Payload → Args
  pub as_kit_tool_result : Value → Option DispatchResult
  pub stringify : Value → Result Text Text

module _ {Args Payload Value : Type 0} (operations : ValueOperations Args Payload Value) where
  -- `kit.json(value)`
  abbrev json_result : Result Text Text → Result Text DispatchResult
  json_result (err message) = err message
  json_result (ok text) =
      ok (record {
        content = KitToolContentBlock.text text ∷ [];
        is_error = none;
        error_code = none;
      })

  unfoldable pub result_of : Value → Result Text DispatchResult
  result_of value = elim (operations.as_kit_tool_result value) [
    | some result ↦ ok result
    | none ↦ json_result (operations.stringify value)
  ]

-- `handled`: `value` is set before the result is made of it
abbrev handled :
    {W Value : Type 0}
    → (Value → Result Text DispatchResult)
    → Option Value
    → Result Text Value × W
    → Result Text DispatchResult × (W × Option Value)
handled shape old (ok value, w) = (shape value, (w, some value))
handled shape old (err message, w) = (err message, (w, old))

abbrev verdict_of : Bool → Verdict
verdict_of true = Verdict.boolean true
verdict_of false = Verdict.decision (refusal (codes "Trigger verification failed."))

unfoldable pub trigger_outcome : DispatchResult → TriggerOutcome
trigger_outcome completed =
    if is_denial completed.error_code
    then TriggerOutcome.denied
    else if or_else completed.is_error false
    then TriggerOutcome.error
    else TriggerOutcome.success

module _ {W Args Headers Payload Value : Type 0} where
  unfoldable pub invoke_trigger :
      (Value → Result Text DispatchResult)
      → TriggerDefinition W Args Headers Payload Value
      → Payload
      → DispatchEnvelope Args
      → Action (W × Option Value) DispatchResult
  invoke_trigger shape trigger payload request (w, old) =
      handled shape old (trigger.handler request payload w)

  unfoldable pub resolve_trigger :
      TriggerDefinition W Args Headers Payload Value
      → (args : Args) → DispatchEnvelope Args
      → Action (W × Option Value) (DispatchResolution (W × Option Value) Args Unit)
  resolve_trigger trigger args request =
      if any (λ kit_id. kit_id == request.kit_id) trigger.kits
      then pure (record {
        target = some (record {
          kit_id = request.kit_id;
          command = trigger.id;
          validate = some (λ given. pure (DispatchValidation.success args));
          authorize = none;
          mode = none;
        });
        error = none;
      })
      else pure (record {
        target = none;
        error = some (
          DispatchErrorCode.policy_denied,
          codes "Trigger \""
              ++ (trigger.id
                  ++ (codes "\" is not allowed for kit \"" ++ (request.kit_id ++ codes "\"."))),
        );
      })

  -- What the trigger's `verify` is asked.
  abbrev pub verification_request :
      (no_headers : Headers)
      → TriggerDefinition W Args Headers Payload Value
      → TriggerInvocation Headers Payload
      → TriggerVerificationRequest Headers Payload
  verification_request no_headers trigger invocation = record {
    kit_id = invocation.kit_id;
    trigger_id = trigger.id;
    method = or_else invocation.method (codes "POST");
    path =
        or_else invocation.path (codes "/t/" ++ (invocation.kit_id ++ (codes "/" ++ trigger.id)));
    headers = or_else invocation.headers no_headers;
    payload = invocation.payload;
  }

  unfoldable pub verify_trigger :
      (no_headers : Headers)
      → TriggerDefinition W Args Headers Payload Value
      → TriggerInvocation Headers Payload
      → Action W Verdict
  verify_trigger no_headers trigger invocation = elim trigger.verify [
    | none ↦ pure (Verdict.boolean true)
    | some verify ↦
        bind (verify (verification_request no_headers trigger invocation))
          (λ verified. pure (verdict_of verified))
  ]

  unfoldable pub trigger_event :
      TriggerDefinition W Args Headers Payload Value
      → DispatchEnvelope Args
      → DispatchResult
      → TriggerAuditEvent
  unfolding trigger_outcome
  trigger_event trigger request completed = record {
    trigger_id = trigger.id;
    kit_id = request.kit_id;
    channel = request.channel;
    outcome = trigger_outcome completed;
    reason = if or_else completed.is_error false then some (text_of completed) else none;
  }

pub record TriggerInvocationResult (Args Value : Type 0) : Type 0 where
  pub result : DispatchResult
  pub value : Option Value
  pub envelope : DispatchEnvelope Args

module _ {W Args Headers Payload Value : Type 0} (operations : ValueOperations Args Payload Value)
    (no_headers : Headers) (new_session : SessionContext)
    (trigger : TriggerDefinition W Args Headers Payload Value)
    (invocation : TriggerInvocation Headers Payload) where
  unfoldable pub trigger_envelope : DispatchEnvelope Args
  unfolding create_dispatch_envelope
  trigger_envelope =
      create_dispatch_envelope new_session invocation.kit_id trigger.id
        (operations.args_of invocation.payload) trigger.identity.principal
        (record {
          actor = some (or_else trigger.identity.actor trigger.identity.principal);
          delegation = trigger.identity.delegation;
          channel = some (
              or_else invocation.channel (
                or_else trigger.channel
                  (record { kind = kind_text trigger.kind; id = some trigger.id })));
          session = invocation.session;
        })
        none

  unfoldable pub trigger_dependencies :
      (audit : TriggerAuditEvent → Action W (Unit {0}))
      → DispatchDependencies (W × Option Value) Args (Unit {0})
  unfolding resolve_trigger verify_trigger invoke_trigger result_of trigger_event
  trigger_dependencies audit = record {
    resolve = resolve_trigger trigger (operations.args_of invocation.payload);
    create_context = none;
    check_grant = none;
    check_policy =
        some (λ request target args ctx. beside (verify_trigger no_headers trigger invocation));
    invoke = λ request target args ctx.
        invoke_trigger (result_of operations) trigger invocation.payload request;
    audit = none;
    on_complete =
        some (λ request completed duration_ms.
          beside (audit (trigger_event trigger request completed)));
  }

  unfoldable pub dispatch_trigger :
      (audit : TriggerAuditEvent → Action W (Unit {0}))
      → (duration_ms : Text) → W
      → TriggerInvocationResult Args Value × W
  unfolding dispatch trigger_dependencies trigger_envelope
  dispatch_trigger audit duration_ms w =
      let (result, (w', value)) =
        dispatch (trigger_dependencies audit) trigger_envelope duration_ms (w, none) in
      (record { result = result; value = value; envelope = trigger_envelope }, w')
