-- ===== src/Dispatch.antt =====
-- packages/sdk/src/server/dispatch.ts: the pipeline that every channel sends its requests through.
-- The generated ids of a session and the measured duration (a printed number) are arguments.
pub mod Types
mod Tests
pub mod Gates
pub mod Audited
pub mod Jobs
pub mod Triggers
use kitstack.Base.{
  Bool, true, false, ◌||◌, Option, none, some, List, [], ◌∷◌, ◌++◌, Text, codes, Result, ok, err,
  or_else, if◌then◌else◌, ◌==◌, text_instance,
}
use kitstack.Audit.Types.{AuditOutcome}
use kitstack.Audit.Dispatch.{DispatchAuditEvent}
use kitstack.Dispatch.Types.{
  Action, pure, bind, try_or, notify, DispatchErrorCode, code_text, KitToolContentBlock,
  DispatchResult, Delegation, RequestIdentity, ChannelContext, SessionContext, DispatchEnvelope,
  DispatchRequestContext, DispatchValidation, AuthzRequirement, DispatchTarget, DispatchResolution,
  DispatchDecision, Verdict, DispatchDependencies,
}

-- `[${code}] ${message}`
unfoldable pub dispatch_error : DispatchErrorCode → Text → DispatchResult
dispatch_error code message = record {
  error_code = some code;
  is_error = some true;
  content =
      KitToolContentBlock.text (codes "[" ++ (code_text code ++ (codes "] " ++ message))) ∷ [];
}

abbrev pub normalize_decision : Verdict → DispatchDecision
normalize_decision (Verdict.boolean allowed) = record { allowed = allowed; reason = none }
normalize_decision (Verdict.decision d) = d

abbrev pub allowed_decision : DispatchDecision
allowed_decision = record { allowed = true; reason = none }

abbrev pub refusal : Text → DispatchDecision
refusal reason = record { allowed = false; reason = some reason }

abbrev answer_of : {W : Type 0} → Text → Result Text Verdict × W → Result Text DispatchDecision × W
answer_of failed (ok verdict, w) = (ok (normalize_decision verdict), w)
answer_of failed (err message, w) = (ok (refusal (failed ++ message)), w)

-- The answer of a provider that may throw: a throw is a refusal.
abbrev pub decide_or_refuse : {W : Type 0} → Text → Action W Verdict → Action W DispatchDecision
decide_or_refuse failed call w = answer_of failed (call w)

-- `typeof envelope.delegation === "string" ? envelope.delegation : null`
abbrev pub delegation_text : Option Delegation → Option Text
delegation_text (some (Delegation.identifier id)) = some id
delegation_text _ = none

abbrev pub is_denial : Option DispatchErrorCode → Bool
is_denial (some DispatchErrorCode.missing_grant) = true
is_denial (some DispatchErrorCode.policy_denied) = true
is_denial _ = false

unfoldable pub outcome_of : DispatchResult → AuditOutcome
outcome_of result =
    if or_else result.is_error false
    then (if is_denial result.error_code then AuditOutcome.denied else AuditOutcome.failure)
    else AuditOutcome.success

abbrev option_code : Option DispatchErrorCode → Option Text
option_code none = none
option_code (some code) = some (code_text code)

-- `...(delegation ? { delegation } : {})`
abbrev given_delegation : Option Delegation → Option Delegation
given_delegation (some (Delegation.identifier [])) = none
given_delegation delegation = delegation

module _ {Args : Type 0} where
  unfoldable pub to_dispatch_audit_event :
      DispatchEnvelope Args → DispatchResult → Text → DispatchAuditEvent
  unfolding outcome_of
  to_dispatch_audit_event envelope result duration_ms = record {
    kit_id = envelope.kit_id;
    command = envelope.command;
    principal = envelope.identity.principal;
    actor = envelope.actor;
    delegation = delegation_text envelope.delegation;
    channel = envelope.channel.kind;
    channel_id = envelope.channel.id;
    session_id = envelope.session.id;
    trace_id = envelope.session.trace_id;
    parent_id = envelope.session.parent_id;
    outcome = outcome_of result;
    error_code = option_code result.error_code;
    duration_ms = duration_ms;
  }

  -- `new_session` is made of two random UUIDs.
  unfoldable pub create_dispatch_envelope :
      SessionContext
      → (kit_id command : Text) → (args : Args) → (principal : Text)
      → (context : DispatchRequestContext) → (default_channel : Option ChannelContext)
      → DispatchEnvelope Args
  create_dispatch_envelope new_session kit_id command args principal context default_channel =
      let actor = or_else context.actor principal in
      record {
        kit_id = kit_id;
        command = command;
        args = args;
        identity = record {
          principal = principal;
          actor = actor;
          delegation = given_delegation context.delegation;
        };
        actor = actor;
        delegation = given_delegation context.delegation;
        channel =
            or_else context.channel
              (or_else default_channel (record { kind = codes "internal"; id = none }));
        session = or_else context.session new_session;
      }

module _ {W : Type 0} where
  -- `dependencies.audit?.(…)` and `dependencies.onComplete?.(…)`
  abbrev pub audit_call :
      Option (DispatchAuditEvent → Action W (Unit {0}))
      → DispatchAuditEvent
      → Option (Action W (Unit {0}))
  audit_call none event = none
  audit_call (some sink) event = some (sink event)

  abbrev pub complete_call :
      {Args : Type 0}
      → Option (DispatchEnvelope Args → DispatchResult → Text → Action W (Unit {0}))
      → DispatchEnvelope Args
      → DispatchResult
      → Text
      → Option (Action W (Unit {0}))
  complete_call none envelope result duration_ms = none
  complete_call (some tell) envelope result duration_ms = some (tell envelope result duration_ms)

module _ {W Args Ctx : Type 0} where
  unfoldable pub evaluate_grant :
      DispatchDependencies W Args Ctx
      → DispatchEnvelope Args
      → List AuthzRequirement
      → Option Ctx
      → Action W DispatchDecision
  evaluate_grant deps envelope requirements ctx = elim deps.check_grant [
    | none ↦ pure allowed_decision
    | some check ↦
        decide_or_refuse (codes "Grant provider failed: ") (check envelope requirements ctx)
  ]

  unfoldable pub evaluate_policy :
      DispatchDependencies W Args Ctx
      → DispatchEnvelope Args
      → DispatchTarget W Args Ctx
      → Args
      → Option Ctx
      → Action W DispatchDecision
  evaluate_policy deps envelope target args ctx = elim deps.check_policy [
    | none ↦ pure allowed_decision
    | some check ↦
        decide_or_refuse (codes "Policy provider failed: ") (check envelope target args ctx)
  ]

  -- `target.validate?.(envelope.args)`; without a validator the arguments pass as they are
  unfoldable pub validated :
      DispatchTarget W Args Ctx → DispatchEnvelope Args → Action W (DispatchValidation Args)
  validated target envelope = elim target.validate [
    | none ↦ pure (DispatchValidation.success envelope.args)
    | some validate ↦ validate envelope.args
  ]

  unfoldable pub context_of :
      DispatchDependencies W Args Ctx → DispatchEnvelope Args → Args → Action W (Option Ctx)
  context_of deps envelope args = elim deps.create_context [
    | none ↦ pure none
    | some create ↦ bind (create envelope args) (λ ctx. pure (some ctx))
  ]

  unfoldable pub requirements_of :
      DispatchTarget W Args Ctx → Args → Option Ctx → Action W (List AuthzRequirement)
  requirements_of target args ctx = elim target.authorize [
    | none ↦ pure []
    | some authorize ↦ authorize args ctx
  ]

  unfoldable pub invoked :
      DispatchDependencies W Args Ctx
      → DispatchEnvelope Args
      → DispatchTarget W Args Ctx
      → Args
      → Option Ctx
      → Action W DispatchResult
  unfolding dispatch_error
  invoked deps envelope target args ctx w =
      let (result, w') =
        try_or (deps.invoke envelope target args ctx)
          (dispatch_error DispatchErrorCode.provider_failure) w in
      (ok result, w')

  unfoldable pub settle_policy :
      DispatchDependencies W Args Ctx
      → DispatchEnvelope Args
      → DispatchTarget W Args Ctx
      → Args
      → Option Ctx
      → DispatchDecision
      → Action W DispatchResult
  unfolding dispatch_error invoked
  settle_policy deps envelope target args ctx policy_decision =
      if policy_decision.allowed
      then invoked deps envelope target args ctx
      else pure (
          dispatch_error DispatchErrorCode.policy_denied
            (or_else policy_decision.reason (codes "The request was denied by policy.")))

  unfoldable pub settle_grant :
      DispatchDependencies W Args Ctx
      → DispatchEnvelope Args
      → DispatchTarget W Args Ctx
      → Args
      → Option Ctx
      → DispatchDecision
      → Action W DispatchResult
  unfolding dispatch_error evaluate_policy settle_policy
  settle_grant deps envelope target args ctx grant_decision =
      if grant_decision.allowed
      then bind (evaluate_policy deps envelope target args ctx)
          (settle_policy deps envelope target args ctx)
      else pure (
          dispatch_error DispatchErrorCode.missing_grant
            (or_else grant_decision.reason (codes "The requested kit grant is missing.")))

  -- The stages behind the validation of the arguments.
  unfoldable pub authorized :
      DispatchDependencies W Args Ctx
      → DispatchEnvelope Args
      → DispatchTarget W Args Ctx
      → Args
      → Action W DispatchResult
  unfolding context_of requirements_of evaluate_grant settle_grant
  authorized deps envelope target args = bind (context_of deps envelope args) (λ ctx.
      bind (requirements_of target args ctx) (λ requirements.
        bind (evaluate_grant deps envelope requirements ctx)
          (settle_grant deps envelope target args ctx)))

  unfoldable pub settle_validation :
      DispatchDependencies W Args Ctx
      → DispatchEnvelope Args
      → DispatchTarget W Args Ctx
      → DispatchValidation Args
      → Action W DispatchResult
  unfolding dispatch_error authorized
  settle_validation deps envelope target (DispatchValidation.failure message) =
      pure (
        dispatch_error DispatchErrorCode.invalid_arguments (codes "Invalid arguments: " ++ message))
  settle_validation deps envelope target (DispatchValidation.success args) =
      authorized deps envelope target args

  unfoldable pub resolved :
      DispatchDependencies W Args Ctx
      → DispatchEnvelope Args
      → DispatchResolution W Args Ctx
      → Action W DispatchResult
  unfolding dispatch_error validated settle_validation
  resolved deps envelope resolution = elim resolution.error [
    | some (code, message) ↦ pure (dispatch_error code message)
    | none ↦ elim resolution.target [
      | none ↦ pure (
          dispatch_error DispatchErrorCode.unknown_tool
            (codes "Unknown tool: \"" ++ (envelope.command ++ codes "\"")))
      | some target ↦ bind (validated target envelope) (settle_validation deps envelope target)
    ]
  ]

  -- The body of the outer `try`.
  unfoldable pub attempt :
      DispatchDependencies W Args Ctx → DispatchEnvelope Args → Action W DispatchResult
  unfolding dispatch_error resolved
  attempt deps envelope =
      if envelope.identity.principal == [] || envelope.actor == []
      then pure (
          dispatch_error DispatchErrorCode.policy_denied
            (codes "A principal and actor are required for dispatch."))
      else bind (deps.resolve envelope) (resolved deps envelope)

  unfoldable pub dispatch :
      DispatchDependencies W Args Ctx → DispatchEnvelope Args → Text → W → DispatchResult × W
  unfolding attempt dispatch_error to_dispatch_audit_event
  dispatch deps envelope duration_ms w =
      let (result, tried) =
        try_or (attempt deps envelope) (dispatch_error DispatchErrorCode.provider_failure) w in
      let event = to_dispatch_audit_event envelope result duration_ms in
      let told = notify (audit_call deps.audit event) tried in
      let completed = notify (complete_call deps.on_complete envelope result duration_ms) told in
      (result, completed)
