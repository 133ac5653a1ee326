-- ===== src/Dispatch/Jobs.antt =====
-- packages/sdk/src/jobs.ts: a declared job runs through the dispatch pipeline.
pub mod Parsed
use kitstack.Base.{
  ◌≡◌, ◌⊎◌, inl, inr, refl, Bool, true, false, ◌&&◌, ◌||◌, not, Option, none, some, List, [], ◌∷◌,
  ◌++◌, Text, codes, Result, ok, err, or_else, if◌then◌else◌, ◌==◌, text_instance, Bool-cases,
  Option-cases, eq_iff, eq_refl,
}
use kitstack.Audit.Dispatch.{DispatchAuditEvent}
use kitstack.Dispatch.Types.{
  Action, pure, bind, DispatchErrorCode, DispatchResult, ChannelContext, SessionContext,
  DispatchEnvelope, DispatchRequestContext, DispatchValidation, AuthzRequirement, DispatchTarget,
  DispatchResolution, Verdict, DispatchDependencies,
}
use kitstack.Dispatch.{create_dispatch_envelope, dispatch}

-- The arguments are the parsed JSON of the host; absent ones are the empty object `no_args`.
pub record JobDispatchInput (Args : Type 0) : Type 0 where
  pub kit_id : Text
  pub job_name : Text
  pub job_id : Text
  pub args : Option Args
  pub principal : Option Text
  pub session : Option SessionContext

-- `args` is the schema's `safeParse`: the parsed arguments, or the joined issues.
pub record JobDefinition (W Args Ctx : Type 0) : Type 0 where
  pub name : Text
  pub args : Option (Args → DispatchValidation Args)
  pub handler : Option Ctx → Args → Action W (Option DispatchResult)

-- The hooks that a host may add.
pub record JobHooks (W Args Ctx : Type 0) : Type 0 where
  pub create_context : Option (DispatchEnvelope Args → Args → Action W Ctx)
  pub check_grant :
      Option (DispatchEnvelope Args → List AuthzRequirement → Option Ctx → Action W Verdict)
  pub check_policy :
      Option
        (DispatchEnvelope Args → DispatchTarget W Args Ctx → Args → Option Ctx → Action W Verdict)
  pub audit : Option (DispatchAuditEvent → Action W (Unit {0}))
  pub on_complete : Option (DispatchEnvelope Args → DispatchResult → Text → Action W (Unit {0}))

-- `job:${kitId}:${jobName}`
unfoldable pub job_identity : (kit_id job_name : Text) → Text
job_identity kit_id job_name = codes "job:" ++ (kit_id ++ (codes ":" ++ job_name))

abbrev empty_job_result : DispatchResult
empty_job_result = record { content = []; is_error = none; error_code = none }

module _ {Args : Type 0} where
  -- `unused` stands for the random session of an envelope without a session.
  unfoldable pub create_job_dispatch_envelope :
      SessionContext → (no_args : Args) → JobDispatchInput Args → DispatchEnvelope Args
  unfolding job_identity create_dispatch_envelope
  create_job_dispatch_envelope unused no_args input =
      create_dispatch_envelope unused input.kit_id input.job_name (or_else input.args no_args)
        (or_else input.principal (job_identity input.kit_id input.job_name))
        (record {
          actor = none;
          delegation = none;
          session = some (
              or_else input.session (record {
                id = input.job_id;
                trace_id = codes "trace:" ++ input.job_id;
                parent_id = none;
              }));
          channel = some (record { kind = codes "scheduler"; id = some input.job_id });
        })
        none

module _ {W Args Ctx : Type 0} (job : JobDefinition W Args Ctx)
    (input : JobDispatchInput Args) where
  unfoldable pub job_target : DispatchTarget W Args Ctx
  job_target = record {
    kit_id = input.kit_id;
    command = job.name;
    validate = some (λ args. elim job.args [
      | none ↦ pure (DispatchValidation.success args)
      | some safe_parse ↦ pure (safe_parse args)
    ]);
    authorize = none;
    mode = none;
  }

  unfoldable pub resolve_job : DispatchEnvelope Args → Action W (DispatchResolution W Args Ctx)
  unfolding job_target
  resolve_job request =
      if not (request.kit_id == input.kit_id) || not (request.command == job.name)
      then pure (record {
        target = none;
        error = some (
          DispatchErrorCode.unknown_tool,
          codes "Unknown job: \"" ++ (request.command ++ codes "\""),
        );
      })
      else pure (record { target = some job_target; error = none })

  abbrev job_result : Option DispatchResult → DispatchResult
  job_result none = empty_job_result
  job_result (some result) = result

  unfoldable pub invoke_job : Args → Option Ctx → Action W DispatchResult
  invoke_job args ctx = bind (job.handler ctx args) (λ result. pure (job_result result))

  unfoldable pub job_dependencies : JobHooks W Args Ctx → DispatchDependencies W Args Ctx
  unfolding resolve_job invoke_job
  job_dependencies hooks = record {
    resolve = resolve_job;
    create_context = hooks.create_context;
    check_grant = hooks.check_grant;
    check_policy = hooks.check_policy;
    invoke = λ request target args ctx. invoke_job args ctx;
    audit = hooks.audit;
    on_complete = hooks.on_complete;
  }

  unfoldable pub dispatch_job :
      SessionContext → (no_args : Args) → JobHooks W Args Ctx → Text → W → DispatchResult × W
  unfolding job_dependencies create_job_dispatch_envelope dispatch
  dispatch_job unused no_args hooks duration_ms w =
      dispatch (job_dependencies hooks) (create_job_dispatch_envelope unused no_args input)
        duration_ms w
