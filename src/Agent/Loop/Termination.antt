-- ===== src/Agent/Loop/Termination.antt =====
-- The loop ends: every step lowers the rank, and the fuel covers the rank at the start.
use kitstack.Base.{
  Result-cases, ℕ, zero, suc, ◌+◌, ◌-◌, ◌*◌, ◌≤◌, ◌≡◌, refl, Bool, false, Option, none, some, Text,
  ok, is_blank, arith, leb, Bool-cases, inl, inr,
}
use kitstack.Agent.Types.{turn_started, AgentModelResponse, AgentTurnMetadata, AgentRunResult}
use kitstack.Agent.Metadata.{estimated_cost}
use kitstack.Agent.Loop.{
  Environment, Agent, Run, Next, ask_source, ask_model, finish, ControlReason, Awaited, source_step,
  message_step, tool_step, undeclared_step, response_step, model_step, step, drive, finished, begin,
  fuel_for, run_agent, value, thrown, controlled, emit_event, turn_event, tool_event, turn_step,
  answered_step, reported, answer_metadata, receive, deliver, conclude, is_declared,
}

abbrev IsFinished : Next → Type 0
IsFinished (finish status error run) = Unit
IsFinished _ = ⊥

module _ (agent : Agent) (env : Environment) where
  abbrev rank : Next → ℕ
  rank (ask_source run) = 2 * (agent.max_turns - run.turns) + 2
  rank (ask_model run) = 2 * (agent.max_turns - run.turns) + 1
  rank (finish status error run) = 0

  source_step-rank : (run : Run) → suc (rank (source_step agent env run)) ≤ rank (ask_source run)
  unfolding source_step receive
  source_step-rank run = ground arith

  message_step-rank :
      (content : Text) (terminal : Bool) (metadata : ℕ → AgentTurnMetadata) (run : Run)
      → rank (message_step agent env content terminal metadata run) ≤ rank (ask_source run)
  unfolding message_step deliver turn_event emit_event
  message_step-rank content terminal metadata run = ground arith

  tool_step-rank :
      (given : Option Text) (name : Text) (metadata : ℕ → AgentTurnMetadata) (run : Run)
      → rank (tool_step agent env given name metadata run) ≤ rank (ask_source run)
  unfolding tool_step conclude tool_event turn_event emit_event
  tool_step-rank given name metadata run = ground arith

  response_step-rank :
      (response : AgentModelResponse) (metadata : ℕ → AgentTurnMetadata) (run : Run)
      → rank (response_step agent env response metadata run) ≤ rank (ask_source run)
  unfolding response_step undeclared_step
  response_step-rank (AgentModelResponse.message content terminal _) metadata run =
      message_step-rank content terminal metadata run
  response_step-rank (AgentModelResponse.tool_call given name args _) metadata run =
      elim (Bool-cases (is_declared agent name)) [
        | inl declared ↦ rw declared (tool_step-rank given name metadata run)
        | inr undeclared ↦ rw undeclared (omega arith)
      ]

  answered_step-rank :
      (answer : Awaited AgentModelResponse) (metadata : ℕ → AgentTurnMetadata) (run : Run)
      → rank (answered_step agent env answer metadata run) ≤ rank (ask_source run)
  unfolding answered_step
  answered_step-rank (controlled reason) metadata run = omega arith
  answered_step-rank (thrown message) metadata run = omega arith
  answered_step-rank (value response) metadata run = response_step-rank response metadata run

  turn_step-rank :
      (answer : Awaited AgentModelResponse) (run : Run)
      → rank (turn_step agent env answer run) ≤ rank (ask_source run)
  unfolding turn_step
  turn_step-rank answer run =
      elim (Result-cases (estimated_cost agent.connector (answer_metadata answer))) [
        | inl (message, failed) ↦ rw (turn_step, failed) (omega arith)
        | inr (cost, given) ↦
            rw (turn_step, given)
              (answered_step-rank answer (reported agent env (answer_metadata answer) cost) run)
      ]

  model_step-rank : (run : Run) → suc (rank (model_step agent env run)) ≤ rank (ask_model run)
  unfolding model_step emit_event
  model_step-rank run = elim (Bool-cases (leb agent.max_turns run.turns)) [
    | inl spent ↦ rw spent (omega arith)
    | inr left ↦ rw left (lower left)
  ]
    where
      started : Run
      started = emit_event (turn_started (suc run.turns)) (record run { turns = suc run.turns })

      lower :
          leb agent.max_turns run.turns ≡ false
          → suc (rank (turn_step agent env (env.turn run.turns) started)) ≤ rank (ask_model run)
      lower left = ground (arith, turn_step-rank (env.turn run.turns) started)

  drive-IsFinished_lem :
      (fuel : ℕ) (next : Next) → rank next ≤ fuel → IsFinished (drive agent env fuel next)
  unfolding drive step
  drive-IsFinished_lem zero (ask_source run) h = absurd (omega arith)
  drive-IsFinished_lem zero (ask_model run) h = absurd (omega arith)
  drive-IsFinished_lem zero (finish status error run) h = tt
  drive-IsFinished_lem (suc fuel) (ask_source run) h =
      drive-IsFinished_lem fuel (source_step agent env run) (omega (arith, source_step-rank run))
  drive-IsFinished_lem (suc fuel) (ask_model run) h =
      drive-IsFinished_lem fuel (model_step agent env run) (omega (arith, model_step-rank run))
  drive-IsFinished_lem (suc fuel) (finish status error run) h =
      drive-IsFinished_lem fuel (finish status error run) (omega arith)

drive-IsFinished :
    (agent : Agent) (env : Environment) (aborted : Option ControlReason)
    → IsFinished (drive agent env (fuel_for agent) (begin aborted))
unfolding begin
drive-IsFinished agent env none =
    drive-IsFinished_lem agent env (fuel_for agent) (begin none) (unfold emit_event in omega arith)
drive-IsFinished agent env (some reason) =
    drive-IsFinished_lem agent env (fuel_for agent) (begin (some reason)) (omega arith)

finished_of_IsFinished :
    (next : Next) → IsFinished next → (r : AgentRunResult × Run) × (finished next ≡ some r)
unfolding finished
finished_of_IsFinished (ask_source run) h = absurd h
finished_of_IsFinished (ask_model run) h = absurd h
finished_of_IsFinished (finish status error run) h = (_, refl)

-- Whatever the source, the model, the tools and the channel do, a run with a non-blank session id
-- comes to an end with a result, within the steps that `fuel_for` counts.
pub run_agent_ends :
    (agent : Agent) (env : Environment) (session_id : Text) (aborted : Option ControlReason)
    → is_blank session_id ≡ false
    → (r : AgentRunResult × Run) × (run_agent agent env session_id aborted ≡ ok (some r))
unfolding run_agent
run_agent_ends agent env session_id aborted named =
    let ended = drive-IsFinished agent env aborted in
    let (r, same) =
      finished_of_IsFinished (drive agent env (fuel_for agent) (begin aborted)) ended in
    (r, rw (named, same))
