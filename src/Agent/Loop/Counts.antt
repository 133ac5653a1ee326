-- ===== src/Agent/Loop/Counts.antt =====
-- How the counts of a result fit together, its status and its error.
use mathlib.Core.Path.{subst}
use kitstack.Base.{
  Result-cases, ℕ, suc, ◌+◌, ◌≤◌, ◌≡◌, inl, inr, Bool, true, false, Option, none, some, Text, ok,
  arith, leb, Bool-cases,
}
use kitstack.Agent.Types.{
  AgentModelResponse, AgentTurnMetadata, AgentRunResult, AgentRunStatus, AgentRunError, ErrorCode,
  completed, cancelled, timed_out, max_turns, failed, agent_cancelled, agent_timeout,
  agent_max_turns, agent_model_error, agent_tool_error, agent_undeclared_tool, agent_output_error,
  agent_source_error,
}
use kitstack.Agent.Metadata.{estimated_cost}
use kitstack.Agent.Loop.{
  Environment, Agent, Run, Next, ask_source, ask_model, finish, ControlReason, Awaited, source_step,
  message_step, tool_step, undeclared_step, response_step, model_step, step, begin, run_agent,
  create_result, error_for, value, thrown, controlled, emit_event, turn_event, tool_event,
  is_declared, turn_step, answered_step, unreported, unreported_call, reported, answer_metadata,
  fail, tool_call_id_of, receive, deliver, conclude,
}
use kitstack.Agent.Loop.Induction.{run_agent_inv}

-- The errors that a failed run may have.
abbrev pub IsFailure : ErrorCode → Type 0
IsFailure agent_model_error = Unit
IsFailure agent_tool_error = Unit
IsFailure agent_undeclared_tool = Unit
IsFailure agent_output_error = Unit
IsFailure agent_source_error = Unit
IsFailure _ = ⊥

-- The error that goes with a status.
abbrev pub Fits : AgentRunStatus → Option AgentRunError → Type 0
Fits completed none = Unit
Fits cancelled (some e) = e.code ≡ agent_cancelled
Fits timed_out (some e) = e.code ≡ agent_timeout
Fits max_turns (some e) = e.code ≡ agent_max_turns
Fits failed (some e) = IsFailure e.code
Fits _ _ = ⊥

pub record IsAccounted (agent : Agent) (r : AgentRunResult) : Type 0 where
  pub bounded : r.turns ≤ agent.max_turns
  pub at_most : r.tool_calls + r.outputs ≤ r.turns
  pub at_least : r.turns ≤ r.tool_calls + r.outputs + 1
  pub exact : r.status ≡ completed → r.turns ≡ r.tool_calls + r.outputs
  pub spent : r.status ≡ max_turns → r.turns ≡ agent.max_turns
  pub fits : Fits r.status r.error

module _ (agent : Agent) (env : Environment) where
  -- At a `while` head every turn so far was a message that was delivered or a tool that was called.
  record IsBalanced (run : Run) : Type 0 where
    bounded : run.turns ≤ agent.max_turns
    exact : run.turns ≡ run.tool_calls + run.outputs

  -- In a turn there is one more.
  record IsOpen (run : Run) : Type 0 where
    bounded : run.turns ≤ agent.max_turns
    exact : run.turns ≡ run.tool_calls + run.outputs + 1

  abbrev IsCounted : Next → Type 0
  IsCounted (ask_source run) = IsBalanced run
  IsCounted (ask_model run) = IsBalanced run
  IsCounted (finish status error run) = IsAccounted agent (create_result status error run)

  receive-IsCounted :
      (answer : Awaited (Option Text)) (run : Run)
      → IsBalanced run
      → IsCounted (receive agent env answer run)
  unfolding receive create_result error_for
  receive-IsCounted (controlled ControlReason.cancelled) run h = ground arith
  receive-IsCounted (controlled ControlReason.timed_out) run h = ground arith
  receive-IsCounted (thrown message) run h = ground arith
  receive-IsCounted (value none) run h = ground arith
  receive-IsCounted (value (some content)) run h = ground arith

  deliver-IsCounted :
      (answer : Awaited (Unit {0})) (content : Text) (terminal : Bool) (run : Run)
      → IsOpen run
      → IsCounted (deliver agent env answer content terminal run)
  unfolding deliver create_result error_for
  deliver-IsCounted (controlled ControlReason.cancelled) content terminal run h = ground arith
  deliver-IsCounted (controlled ControlReason.timed_out) content terminal run h = ground arith
  deliver-IsCounted (thrown message) content terminal run h = ground arith
  deliver-IsCounted (value _) content true run h = ground arith
  deliver-IsCounted (value _) content false run h = ground arith

  conclude-IsCounted :
      (answer : Awaited Text) (id name : Text) (metadata : ℕ → AgentTurnMetadata) (run : Run)
      → IsBalanced run
      → IsCounted (conclude agent env answer id name metadata run)
  unfolding conclude create_result error_for turn_event tool_event
  conclude-IsCounted (controlled ControlReason.cancelled) id name metadata run h = ground arith
  conclude-IsCounted (controlled ControlReason.timed_out) id name metadata run h = ground arith
  conclude-IsCounted (thrown message) id name metadata run h = ground arith
  conclude-IsCounted (value result) id name metadata run h = ground arith

  undeclared_step-IsCounted :
      (name : Text) (metadata : ℕ → AgentTurnMetadata) (run : Run)
      → IsOpen run
      → IsCounted (undeclared_step agent env name metadata run)
  unfolding undeclared_step create_result turn_event tool_event
  undeclared_step-IsCounted name metadata run h = ground arith

  message_step-IsCounted :
      (content : Text) (terminal : Bool) (metadata : ℕ → AgentTurnMetadata) (run : Run)
      → IsOpen run
      → IsCounted (message_step agent env content terminal metadata run)
  unfolding message_step turn_event
  message_step-IsCounted content terminal metadata run h =
      deliver-IsCounted (env.emit run.outputs) content terminal _
        (record { bounded = h.bounded; exact = h.exact })

  tool_step-IsCounted :
      (given : Option Text) (name : Text) (metadata : ℕ → AgentTurnMetadata) (run : Run)
      → IsOpen run
      → IsCounted (tool_step agent env given name metadata run)
  unfolding tool_step
  tool_step-IsCounted given name metadata run h =
      conclude-IsCounted (env.execute run.tool_calls) _ name metadata _
        (record { bounded = h.bounded; exact = let e = h.exact in omega arith })

  response_step-IsCounted :
      (response : AgentModelResponse) (metadata : ℕ → AgentTurnMetadata) (run : Run)
      → IsOpen run
      → IsCounted (response_step agent env response metadata run)
  unfolding response_step
  response_step-IsCounted (AgentModelResponse.message content terminal _) metadata run h =
      message_step-IsCounted content terminal metadata run h
  response_step-IsCounted (AgentModelResponse.tool_call given name args _) metadata run h =
      elim (Bool-cases (is_declared agent name)) [
        | inl declared ↦ rw declared (tool_step-IsCounted given name metadata run h)
        | inr undeclared ↦ rw undeclared (undeclared_step-IsCounted name metadata run h)
      ]

  answered_step-IsCounted :
      (answer : Awaited AgentModelResponse) (metadata : ℕ → AgentTurnMetadata) (run : Run)
      → IsOpen run
      → IsCounted (answered_step agent env answer metadata run)
  unfolding answered_step create_result error_for turn_event
  answered_step-IsCounted (controlled ControlReason.cancelled) metadata run h = ground arith
  answered_step-IsCounted (controlled ControlReason.timed_out) metadata run h = ground arith
  answered_step-IsCounted (thrown message) metadata run h = ground arith
  answered_step-IsCounted (value response) metadata run h =
      response_step-IsCounted response metadata run h

  unreported-IsCounted :
      (message : Text) (answer : Awaited AgentModelResponse) (run : Run)
      → IsOpen run
      → IsCounted (fail agent_model_error message (unreported agent env answer run))
  unfolding unreported create_result
  unreported-IsCounted message (controlled reason) run h = ground arith
  unreported-IsCounted message (thrown error) run h = ground arith
  unreported-IsCounted message (value (AgentModelResponse.message content terminal _)) run h =
      ground arith
  unreported-IsCounted message (value (AgentModelResponse.tool_call given name args _)) run h =
      elim (Bool-cases (is_declared agent name)) [
        | inl declared ↦ rw declared (unreported_call-IsCounted (env.execute run.tool_calls))
        | inr undeclared ↦ rw undeclared (ground arith)
      ]
    where
      unreported_call-IsCounted :
          (done : Awaited Text)
          → IsCounted (
              fail agent_model_error message (
                unreported_call agent env done
                  (tool_call_id_of agent env given run)
                  name
                  (record run { tool_calls = suc run.tool_calls })))
      unreported_call-IsCounted (value result) = ground arith
      unreported_call-IsCounted (thrown error) = ground arith
      unreported_call-IsCounted (controlled reason) = ground arith

  turn_step-IsCounted :
      (answer : Awaited AgentModelResponse) (run : Run)
      → IsOpen run
      → IsCounted (turn_step agent env answer run)
  unfolding turn_step
  turn_step-IsCounted answer run h =
      elim (Result-cases (estimated_cost agent.connector (answer_metadata answer))) [
        | inl (message, failed_) ↦
            rw (turn_step, failed_) (unreported-IsCounted message answer run h)
        | inr (cost, given) ↦
            rw (turn_step, given)
              (answered_step-IsCounted answer (reported agent env (answer_metadata answer) cost) run
                h)
      ]

  model_step-IsCounted : (run : Run) → IsBalanced run → IsCounted (model_step agent env run)
  unfolding model_step
  model_step-IsCounted run h = elim (Bool-cases (leb agent.max_turns run.turns)) [
    | inl spent ↦ rw spent (unfold create_result in ground arith)
    | inr left ↦
        rw left (turn_step-IsCounted (env.turn run.turns) _ (unfold emit_event in ground arith))
  ]

  step-IsCounted : (next : Next) → IsCounted next → IsCounted (step agent env next)
  unfolding step source_step
  step-IsCounted (ask_source run) h = receive-IsCounted (env.next run.inputs) run h
  step-IsCounted (ask_model run) h = model_step-IsCounted run h
  step-IsCounted (finish status error run) h = h

  begin-IsCounted : (aborted : Option ControlReason) → IsCounted (begin aborted)
  unfolding begin create_result error_for emit_event
  begin-IsCounted none = ground arith
  begin-IsCounted (some reason) = ground arith

  -- The result of a run: at most `max_turns` turns; each turn delivered one output or called one
  -- tool, but for the last of a run that did not complete; `max_turns` only after that many turns;
  -- an error exactly when the run did not complete, and of the kind of its status.
  pub run_agent-IsAccounted :
      (session_id : Text) (aborted : Option ControlReason) {r : AgentRunResult × Run}
      → run_agent agent env session_id aborted ≡ ok (some r)
      → IsAccounted agent r.0
  run_agent-IsAccounted session_id aborted e =
      let (status, error, run, same, accounted) =
        run_agent_inv agent env IsCounted step-IsCounted session_id aborted
          (begin-IsCounted aborted) e in
      subst (λ (p : AgentRunResult × Run). IsAccounted agent p.0) same accounted
