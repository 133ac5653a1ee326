-- ===== src/Agent/Loop/Induction.antt =====
-- What every step of the loop keeps holds of the run at its end.
use kitstack.Base.{
  ℕ, zero, suc, ◌≡◌, Option, some, Text, ok, is_blank, ap, ok_injective, or_else, Bool-cases, inl,
  inr,
}
use kitstack.Agent.Types.{run_finished, AgentRunResult, AgentRunStatus, AgentRunError}
use kitstack.Agent.Loop.{
  Environment, Agent, Run, Next, finish, ask_source, ask_model, ControlReason, step, drive,
  finished, begin, fuel_for, run_agent, create_result, emit_event,
}

-- The result and the last state of a run that stopped so.
abbrev pub ended : AgentRunStatus → Option AgentRunError → Run → AgentRunResult × Run
ended status error run =
    (create_result status error run, emit_event (run_finished status run.turns run.tool_calls) run)

module _ (agent : Agent) (env : Environment) (P : Next → Type 0)
    (keep : (next : Next) → P next → P (step agent env next)) where
  drive_inv : (fuel : ℕ) (next : Next) → P next → P (drive agent env fuel next)
  unfolding drive
  drive_inv zero next h = h
  drive_inv (suc fuel) next h = drive_inv fuel (step agent env next) (keep next h)

  of_finished :
      (next : Next) {r : AgentRunResult × Run}
      → P next
      → finished next ≡ some r
      → (status : AgentRunStatus) × (error : Option AgentRunError) × (run : Run) × (ended status
            error run
          ≡ r)
        × P (finish status error run)
  unfolding finished
  of_finished (ask_source run) h e = absurd (cc e)
  of_finished (ask_model run) h e = absurd (cc e)
  of_finished (finish status error run) {r} h e = (status, error, run, ap (λ o. or_else o r) e, h)

  -- A result comes from a `finish` of which the invariant holds.
  pub run_agent_inv :
      (session_id : Text) (aborted : Option ControlReason) {r : AgentRunResult × Run}
      → P (begin aborted)
      → run_agent agent env session_id aborted ≡ ok (some r)
      → (status : AgentRunStatus) × (error : Option AgentRunError) × (run : Run) × (ended status
            error run
          ≡ r)
        × P (finish status error run)
  unfolding run_agent
  run_agent_inv session_id aborted {r} h e = elim (Bool-cases (is_blank session_id)) [
    | inl blank ↦ absurd (cc (rw blank at e))
    | inr named ↦
        of_finished (drive agent env (fuel_for agent) (begin aborted))
          (drive_inv (fuel_for agent) (begin aborted) h) (ok_injective (rw named at e))
  ]
