-- ===== src/Dispatch/Tests.antt =====
-- The dispatch pipeline of packages/sdk/src on small hosts, and its properties there.
use kitstack.Base.{
  ◌≡◌, ◌⊎◌, refl, Bool, true, false, Option, none, some, List, [], ◌∷◌, ◌++◌, Text, codes, Result,
  ok, any, length, ◌==◌, text_instance, text_leb, text_eq, map, if◌then◌else◌, Bool-cases, inl, inr,
  ◌||◌,
}
use kitstack.Audit.Types.{AuditRecord, Platform, valid}
use kitstack.Audit.Dispatch.{DispatchAuditSinkOptions}
use kitstack.Audit.Store.{verify}
use kitstack.Dispatch.Types.{
  Action, pure, recovered, DispatchErrorCode, DispatchResult, SessionContext, DispatchEnvelope,
  DispatchRequestContext, DispatchValidation, DispatchDependencies, Verdict,
}
use kitstack.Dispatch.{create_dispatch_envelope, dispatch, attempt, invoked, is_denial}
use kitstack.Dispatch.Gates.{Gated, with_invoke, Passed, attempt-Gated}
use kitstack.Dispatch.Audited.{
  Request, Logged, KeepsLog, serve_all, entries, envelope_of, serve_all-recorded,
}
use kitstack.Dispatch.Jobs.{
  JobDefinition, JobDispatchInput, JobHooks, create_job_dispatch_envelope, job_dependencies,
  dispatch_job,
}
use kitstack.Dispatch.Jobs.Parsed.{ParsedBy, dispatch_job_cases}
use kitstack.Dispatch.Triggers.Definition.{
  TriggerKind, TriggerIdentityType, TriggerDefinition, TriggerInvocation, TriggerAuditEvent,
  define_trigger,
}
use kitstack.Dispatch.Triggers.{ValueOperations, dispatch_trigger}
use kitstack.Dispatch.Triggers.Verified.{
  Verifies, request, dispatched, ended, failed, handler_run, dispatch_trigger_cases,
}

abbrev session : SessionContext
session = record { id = codes "s"; trace_id = codes "t"; parent_id = none }

abbrev no_context : DispatchRequestContext
no_context = record { actor = none; delegation = none; channel = none; session = none }

abbrev envelope : DispatchEnvelope Bool
unfolding create_dispatch_envelope
envelope = create_dispatch_envelope session (codes "k") (codes "c") true (codes "p") no_context none

abbrev fine : DispatchResult
fine = record { content = []; is_error = none; error_code = none }

-- The world is the log of the audit store; the command `c` refuses `false`, and does not change it.
abbrev World : Type 0
World = List AuditRecord

abbrev deps : DispatchDependencies World Bool (Unit {0})
deps = record {
  resolve = λ e. pure (record {
    target = some (record {
      kit_id = codes "k";
      command = codes "c";
      validate = none;
      authorize = none;
      mode = none;
    });
    error = none;
  });
  create_context = none;
  check_grant = some (λ e reqs ctx. pure (Verdict.boolean true));
  check_policy = some (λ e target args ctx. pure (Verdict.boolean args));
  invoke = λ e target args ctx. pure fine;
  audit = none;
  on_complete = none;
}

-- A request that is let through, and one that the policy refuses.
attempt-fine : attempt deps envelope [] ≡ (ok fine, [])
unfolding attempt text_eq create_dispatch_envelope
attempt-fine = refl

attempt_refused :
    (dispatch deps (record envelope { args = false }) (codes "1") []).0.error_code
    ≡ some DispatchErrorCode.policy_denied
unfolding dispatch attempt text_eq create_dispatch_envelope
attempt_refused = refl

attempt-Gated_example : Gated deps envelope [] (λ i. attempt (with_invoke deps i) envelope [])
attempt-Gated_example = attempt-Gated deps envelope []

abbrev logged : Logged World
logged = record { log = λ w. w; store = λ records w. records; log_store = λ records w. refl }

abbrev platform : Platform
platform = record { sha256 = λ t. t; locale_leb = text_leb }

abbrev options : DispatchAuditSinkOptions
options = record { org_id = codes "o"; app_id = none; plugin_id = none }

stages_keep : (e : DispatchEnvelope Bool) (w : World) → (attempt deps e w).1 ≡ w
unfolding attempt
stages_keep e w = elim (Bool-cases (e.identity.principal == [] || e.actor == [])) [
  | inl absent ↦ rw (attempt, absent) refl
  | inr given ↦ elim (Bool-cases e.args) [
    | inl allowed ↦ simp (given, allowed) refl
    | inr denied ↦ simp (given, denied) refl
  ]
]

keeps : KeepsLog logged platform options deps
keeps = record { stages = stages_keep; completion = λ tell given e r d w. absurd (cc) }

abbrev requests : List (Request Bool)
requests =
    (record {
      envelope = envelope;
      duration_ms = codes "1";
      now = codes "t1";
      fresh_id = codes "a";
    })
    ∷ (record {
      envelope = record envelope { args = false };
      duration_ms = codes "2";
      now = codes "t2";
      fresh_id = codes "b";
    })
    ∷ []

serve_all-recorded_example :
    let (rs, last) = serve_all logged platform options deps requests [] in
    (length rs ≡ length requests)
    × (map envelope_of last ≡ [] ++ entries logged platform options deps requests rs)
    × (verify platform last ≡ valid (length last))
serve_all-recorded_example =
    serve_all-recorded logged platform options deps keeps requests [] (unfold verify in refl)
      (unfold text_eq in (refl, (refl, tt)))

abbrev job : JobDefinition World Bool (Unit {0})
job = record {
  name = codes "c";
  args = some (λ args.
      if args then DispatchValidation.success args else DispatchValidation.failure (codes "no"));
  handler = λ ctx args. pure none;
}

abbrev job_input : JobDispatchInput Bool
job_input = record {
  kit_id = codes "k";
  job_name = codes "c";
  job_id = codes "j";
  args = none;
  principal = none;
  session = none;
}

abbrev hooks : JobHooks World Bool (Unit {0})
hooks = record {
  create_context = none;
  check_grant = none;
  check_policy = none;
  audit = none;
  on_complete = none;
}

dispatched_job : (dispatch_job job job_input session true hooks (codes "1") []).0 ≡ fine
unfolding dispatch_job text_eq
dispatched_job = refl

dispatch_job_cases_example :
    ((p : Passed
        (job_dependencies job job_input hooks)
        (create_job_dispatch_envelope session true job_input)
        [])
      × ((job_input.job_name == job.name) ≡ true)
      × ParsedBy job job_input hooks session true job.args p.args
      × ((h : Option (Unit {0}) → Bool → Action World (Option DispatchResult))
          → attempt
              (job_dependencies (record job { handler = h }) job_input hooks)
              (create_job_dispatch_envelope session true job_input)
              []
            ≡ invoked
                (job_dependencies (record job { handler = h }) job_input hooks)
                (create_job_dispatch_envelope session true job_input)
                p.target
                p.args
                p.ctx
                p.after_policy))
    ⊎ ((r : Result Text DispatchResult) × (w' : World) × ((h : Option (Unit {0})
            → Bool
            → Action World (Option DispatchResult))
          → attempt
              (job_dependencies (record job { handler = h }) job_input hooks)
              (create_job_dispatch_envelope session true job_input)
              []
            ≡ (r, w')))
dispatch_job_cases_example = dispatch_job_cases job job_input hooks session true []

abbrev Payload : Type 0
Payload = Bool

abbrev trigger : TriggerDefinition World Bool (Unit {0}) Bool Text
trigger = record {
  id = codes "hook";
  kind = TriggerKind.webhook;
  identity = record {
    type = TriggerIdentityType.service;
    principal = codes "svc";
    actor = none;
    delegation = none;
  };
  kits = codes "k" ∷ [];
  channel = none;
  verify = some (λ r. pure r.payload);
  handler = λ e payload. pure (codes "done");
}

abbrev invocation : TriggerInvocation (Unit {0}) Bool
invocation = record {
  kit_id = codes "k";
  payload = true;
  method = none;
  path = none;
  headers = none;
  channel = none;
  session = none;
}

abbrev operations : ValueOperations Bool Bool Text
operations = record {
  args_of = λ payload. payload;
  as_kit_tool_result = λ value. none;
  stringify = λ value. ok value;
}

abbrev seam : TriggerAuditEvent → Action World (Unit {0})
seam event = pure tt

trigger_defined : define_trigger trigger ≡ ok trigger
unfolding define_trigger
trigger_defined = refl

handled_trigger :
    (dispatch_trigger operations tt session trigger invocation seam (codes "1") []).0.value
    ≡ some (codes "done")
unfolding dispatch_trigger text_eq
handled_trigger = refl

abbrev Handler : Type 0
Handler = DispatchEnvelope Bool → Bool → Action World Text

dispatch_trigger_cases_example :
    ((r : DispatchResult) × (w' : World) × (is_denial r.error_code ≡ true)
      × ((h : Handler)
          → dispatched operations tt session trigger invocation seam h (codes "1") []
            ≡ ended operations tt session trigger invocation seam (r, (w', none))))
    ⊎ ((w' : World) × (any (λ kit_id. kit_id == invocation.kit_id) trigger.kits ≡ true)
        × Verifies trigger (request operations tt session trigger invocation seam) [] w'
        × ((h : Handler)
            → dispatched operations tt session trigger invocation seam h (codes "1") []
              ≡ ended operations tt session trigger invocation seam (
                  recovered
                    (failed operations tt session trigger invocation seam)
                    (handler_run operations tt session trigger invocation seam h w'))))
dispatch_trigger_cases_example =
    dispatch_trigger_cases operations tt session trigger invocation seam trigger trigger_defined
      (codes "1") []
