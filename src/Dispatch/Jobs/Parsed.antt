-- ===== src/Dispatch/Jobs/Parsed.antt =====
-- Which jobs of packages/sdk/src/jobs.ts reach their handlers, and with which arguments.
use kitstack.Base.{
  ◌≡◌, ◌⊎◌, inl, inr, true, Option, none, some, Text, Result, ok, or_else, Bool-cases, Option-cases,
  ◌==◌, text_instance, ap, eq_refl,
}
use kitstack.Dispatch.Types.{
  Action, answers_injective, DispatchResult, DispatchEnvelope, SessionContext, DispatchValidation,
  DispatchResolution, DispatchTarget, DispatchDependencies,
}
use kitstack.Dispatch.{attempt, invoked, validated, create_dispatch_envelope}
use kitstack.Dispatch.Gates.{Passed, attempt-Gated}
use kitstack.Dispatch.Jobs.{
  JobDispatchInput, JobDefinition, JobHooks, create_job_dispatch_envelope, job_target, resolve_job,
  invoke_job, job_dependencies,
}

success_injective :
    {Args : Type 0} {a b : Args}
    → DispatchValidation.success a ≡ DispatchValidation.success b
    → a ≡ b
success_injective e = cc

module _ {W Args Ctx : Type 0} (job : JobDefinition W Args Ctx) (input : JobDispatchInput Args)
    (hooks : JobHooks W Args Ctx) (unused : SessionContext) (no_args : Args) where
  abbrev Handler : Type 0
  Handler = Option Ctx → Args → Action W (Option DispatchResult)

  -- The arguments are those that the job's schema made of the given ones, or these, without a schema.
  pub data ParsedBy : Option (Args → DispatchValidation Args) → Args → Type 0 where
    unparsed : ParsedBy none (or_else input.args no_args)
    parsed :
        (safe_parse : Args → DispatchValidation Args) (args : Args)
        → safe_parse (or_else input.args no_args) ≡ DispatchValidation.success args
        → ParsedBy (some safe_parse) args

  abbrev pub envelope : DispatchEnvelope Args
  envelope = create_job_dispatch_envelope unused no_args input

  resolved_job :
      (w w' : W) (resolution : DispatchResolution W Args Ctx) (target : DispatchTarget W Args Ctx)
      → resolve_job job input envelope w ≡ (ok resolution, w')
      → resolution.error ≡ none
      → resolution.target ≡ some target
      → ((input.job_name == job.name) ≡ true) × (target ≡ job_target job input)
  unfolding resolve_job create_job_dispatch_envelope create_dispatch_envelope
  resolved_job w w' resolution target e no_error found =
      let own = eq_refl input.kit_id in
      elim (Bool-cases (input.job_name == job.name)) [
        | inl named ↦ (
          named,
          let same = answers_injective (rw (resolve_job, own, named) at e) in
              let shown = ap (λ r. r.target) same in cc,
        )
        | inr other ↦
            let same = answers_injective (rw (resolve_job, own, other) at e) in
            let shown = ap (λ r. r.error) same in absurd (cc)
      ]

  parsed_job :
      (w w' : W) (args : Args)
      → validated (job_target job input) envelope w ≡ (ok (DispatchValidation.success args), w')
      → ParsedBy job.args args
  unfolding validated job_target create_job_dispatch_envelope create_dispatch_envelope
  parsed_job w w' args e = elim (Option-cases job.args) [
    | inl absent ↦
        let same : or_else input.args no_args ≡ args =
          success_injective (answers_injective (rw (validated, absent) at e)) in
        rw (absent, ← same) ParsedBy.unparsed
    | inr (safe_parse, given) ↦
        rw given (ParsedBy.parsed safe_parse args (answers_injective (rw (validated, given) at e)))
  ]

  -- The dependencies of a job with another handler.
  abbrev deps_with : Handler → DispatchDependencies W Args Ctx
  deps_with h = job_dependencies (record job { handler = h }) input hooks

  abbrev attempted : W → Handler → Result Text DispatchResult × W
  attempted w h = attempt (deps_with h) envelope w

  -- The stages of a job's dispatch end in one of two ways. Either they are all passed, the job of the
  -- request is this job, its arguments are those that its schema made of the given ones, and the run
  -- ends with the job's handler on these arguments; or the outcome and the world are the same for any
  -- other handler.
  pub dispatch_job_cases :
      (w : W)
      → ((p : Passed (deps_with job.handler) envelope w) × ((input.job_name == job.name) ≡ true)
          × ParsedBy job.args p.args
          × ((h : Handler)
              → attempted w h
                ≡ invoked (deps_with h) envelope p.target p.args p.ctx p.after_policy))
        ⊎ ((r : Result Text DispatchResult) × (w' : W) × ((h : Handler) → attempted w h ≡ (r, w')))
  unfolding job_dependencies resolve_job job_target
  dispatch_job_cases w = elim (attempt-Gated (deps_with job.handler) envelope w) [
    | inl (p, runs) ↦
        let (named, target) =
          resolved_job w p.after_resolve p.resolution p.target p.resolves p.no_error p.has_target in
        inl (
          p,
          named,
          parsed_job p.after_resolve p.after_validate p.args (rw target at p.validates),
          λ h. runs (λ request t args ctx. invoke_job (record job { handler = h }) input args ctx),
        )
    | inr (r, w', same) ↦ inr (
      r,
      w',
      λ h. same (λ request t args ctx. invoke_job (record job { handler = h }) input args ctx),
    )
  ]
