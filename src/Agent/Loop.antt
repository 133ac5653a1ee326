-- ===== src/Agent/Loop.antt =====
-- The run of packages/sdk/src/define-agent.ts. Everything that the run awaits is answered by an
-- environment: the k-th input of the source, the k-th turn of the model, the k-th tool execution and
-- the k-th output each give a value, fail, or are cut off by the abort signal (`runWithSignal`).
-- A step runs from one `while` head to the next.
pub mod Termination
pub mod Induction
pub mod Counts
pub mod Brackets
pub mod Redaction
pub mod Transcript
use kitstack.Base.{
  ℕ, zero, suc, ◌+◌, ◌*◌, ◌≡◌, refl, Bool, true, false, Option, none, some, List, [], ◌∷◌, ◌++◌,
  Text, codes, decimal, any, or_else, leb, if◌then◌else◌, ◌==◌, text_instance, is_blank, Result, ok,
  err, reverse,
}
use kitstack.Agent.Types.{
  Field, Number, AgentMessage, AgentModelResponse, AgentRunStatus, ErrorCode, AgentRunError,
  AgentLifecycleEvent, AgentTurnMetadata, AgentRunResult, TurnOutcome, ToolOutcome, run_started,
  turn_started, turn_finished, tool_called, run_finished, agent_cancelled, agent_timeout,
  agent_max_turns, agent_model_error, agent_tool_error, agent_undeclared_tool, agent_output_error,
  agent_source_error, present,
}
use kitstack.Agent.Metadata.{AgentModelConnector, estimated_cost, metadata_with}

pub data ControlReason : Type 0 where
  cancelled timed_out : ControlReason

-- What an await gives.
pub data Awaited {ℓ} (A : Type ℓ) : Type ℓ where
  value : A → Awaited A
  thrown : (message : Text) → Awaited A
  controlled : ControlReason → Awaited A

pub record Environment : Type 0 where
  pub next : ℕ → Awaited (Option Text)
  pub turn : ℕ → Awaited AgentModelResponse
  pub execute : ℕ → Awaited Text
  pub emit : ℕ → Awaited (Unit {0})
  -- the clock's readings for the n-th event
  pub duration : ℕ → ℕ
  pub latency : ℕ → ℕ

-- The configuration that the loop reads.
pub record Agent : Type 0 where
  pub tools : List Text
  pub connector : AgentModelConnector
  pub max_turns : ℕ

-- The local variables of `run`; the events stand newest first, with their number.
pub record Run : Type 0 where
  pub inputs : ℕ
  pub turns : ℕ
  pub tool_calls : ℕ
  pub outputs : ℕ
  pub final_output : Option Text
  pub history : List AgentMessage
  pub log : List AgentLifecycleEvent
  pub events : ℕ

pub data Next : Type 0 where
  ask_source ask_model : Run → Next
  finish : AgentRunStatus → Option AgentRunError → Run → Next

unfoldable pub error_for : ControlReason → AgentRunError
error_for timed_out = record {
  code = agent_timeout;
  message = codes "Agent run exceeded its wall-clock limit";
}
error_for cancelled = record { code = agent_cancelled; message = codes "Agent run was cancelled" }

abbrev status_for : ControlReason → AgentRunStatus
status_for timed_out = AgentRunStatus.timed_out
status_for cancelled = AgentRunStatus.cancelled

unfoldable pub control_metadata : ControlReason → AgentTurnMetadata → AgentTurnMetadata
control_metadata timed_out m = record m {
  timeout_reason = present (codes "max_duration_ms_exceeded");
}
control_metadata cancelled m = record m { cancellation_reason = present (codes "abort_signal") }

-- The `catch` of the whole loop.
abbrev stop : ControlReason → Run → Next
stop reason run = finish (status_for reason) (some (error_for reason)) run

abbrev fail : ErrorCode → Text → Run → Next
fail code message run =
    finish AgentRunStatus.failed (some (record { code = code; message = message })) run

-- `emitEvent`: a hook that throws changes nothing.
unfoldable pub emit_event : AgentLifecycleEvent → Run → Run
emit_event event run = record run { log = event ∷ run.log; events = suc run.events }

abbrev push : AgentMessage → Run → Run
push message run = record run { history = run.history ++ message ∷ [] }

-- The metadata of the response that there is.
abbrev pub answer_metadata : Awaited AgentModelResponse → Option AgentTurnMetadata
answer_metadata (value (AgentModelResponse.message content terminal metadata)) = metadata
answer_metadata (value (AgentModelResponse.tool_call given name args metadata)) = metadata
answer_metadata _ = none

-- `toolMap.get(name)`
unfoldable pub is_declared : Agent → Text → Bool
is_declared agent name = any (λ tool. tool == name) agent.tools

module _ (agent : Agent) (env : Environment) where
  -- `metadataFor`, where the estimate does not throw: what it gives by the duration that it is told.
  unfoldable pub reported : Option AgentTurnMetadata → Field Number → ℕ → AgentTurnMetadata
  unfolding metadata_with
  reported response cost duration_ms = metadata_with agent.connector response cost duration_ms

  abbrev metadata_now : (ℕ → AgentTurnMetadata) → Run → AgentTurnMetadata
  metadata_now metadata run = metadata (env.latency run.events)

  turn_event : TurnOutcome → AgentTurnMetadata → Run → Run
  unfolding emit_event
  turn_event outcome metadata run =
      emit_event (turn_finished run.turns outcome (env.duration run.events) metadata) run

  tool_event : Text → ToolOutcome → ℕ → AgentTurnMetadata → Run → Run
  unfolding emit_event
  tool_event name outcome duration_ms metadata run =
      emit_event (tool_called run.turns name outcome duration_ms metadata) run

  -- What the source gave: nothing is an end, an input goes to the model.
  unfoldable pub receive : Awaited (Option Text) → Run → Next
  unfolding error_for
  receive (controlled reason) run = stop reason run
  receive (thrown message) run = fail agent_source_error message run
  receive (value none) run = finish AgentRunStatus.completed none run
  receive (value (some content)) run =
      ask_model (push (AgentMessage.user content) (record run { inputs = suc run.inputs }))

  unfoldable pub source_step : Run → Next
  unfolding receive
  source_step run = receive (env.next run.inputs) run

  -- How the output of a message went.
  unfoldable pub deliver : Awaited (Unit {0}) → Text → Bool → Run → Next
  unfolding error_for
  deliver (controlled reason) content terminal run = stop reason run
  deliver (thrown message) content terminal run = fail agent_output_error message run
  deliver (value _) content terminal run =
      let delivered = record run { outputs = suc run.outputs; final_output = some content } in
      if terminal then finish AgentRunStatus.completed none delivered else ask_source delivered

  unfoldable pub message_step : Text → Bool → (ℕ → AgentTurnMetadata) → Run → Next
  unfolding deliver turn_event
  message_step content terminal metadata run =
      let said = push (AgentMessage.assistant content) run in
      deliver (env.emit run.outputs) content terminal
        (turn_event TurnOutcome.message (metadata_now metadata said) said)

  unfoldable pub tool_call_id_of : Option Text → Run → Text
  unfolding decimal
  tool_call_id_of given run =
      or_else given
        (codes "turn-" ++ (decimal run.turns ++ (codes "-tool-" ++ decimal (suc run.tool_calls))))

  unfoldable pub undeclared_step : Text → (ℕ → AgentTurnMetadata) → Run → Next
  unfolding turn_event tool_event
  undeclared_step name metadata run =
      let told = turn_event TurnOutcome.tool_call (metadata_now metadata run) run in
      let rejected = tool_event name ToolOutcome.rejected 0 (metadata_now metadata told) told in
      fail agent_undeclared_tool
        (codes "Model requested undeclared tool \"" ++ (name ++ codes "\"")) rejected

  -- The events after an execution, and the message that records it.
  abbrev executed :
      Text
      → Text
      → Option Text
      → Bool
      → ToolOutcome
      → TurnOutcome
      → (AgentTurnMetadata → AgentTurnMetadata)
      → (ℕ → AgentTurnMetadata)
      → Run
      → Run
  executed id name result is_error tool_outcome turn_outcome mark metadata run =
      let noted = push (AgentMessage.tool id name result is_error) run in
      let called =
        tool_event name tool_outcome (env.duration noted.events)
          (mark (metadata_now metadata noted)) noted in
      turn_event turn_outcome (mark (metadata_now metadata called)) called

  -- How the execution of a tool went.
  unfoldable pub conclude : Awaited Text → Text → Text → (ℕ → AgentTurnMetadata) → Run → Next
  unfolding error_for turn_event tool_event control_metadata
  conclude (controlled reason) id name metadata run = stop reason (
      executed id name none true ToolOutcome.failed TurnOutcome.error (control_metadata reason)
        metadata run)
  conclude (thrown message) id name metadata run =
      fail agent_tool_error message
        (executed id name none true ToolOutcome.failed TurnOutcome.error (λ m. m) metadata run)
  conclude (value result) id name metadata run = ask_model (
      executed id name (some result) false ToolOutcome.completed TurnOutcome.tool_call (λ m. m)
        metadata run)

  unfoldable pub tool_step : Option Text → Text → (ℕ → AgentTurnMetadata) → Run → Next
  unfolding conclude tool_call_id_of
  tool_step given name metadata run =
      conclude (env.execute run.tool_calls) (tool_call_id_of given run) name metadata
        (record run { tool_calls = suc run.tool_calls })

  unfoldable pub response_step : AgentModelResponse → (ℕ → AgentTurnMetadata) → Run → Next
  unfolding message_step undeclared_step tool_step is_declared
  response_step (AgentModelResponse.message content terminal _) metadata run =
      message_step content terminal metadata run
  response_step (AgentModelResponse.tool_call given name args _) metadata run =
      if is_declared agent name
      then tool_step given name metadata run
      else undeclared_step name metadata run

  -- What the model answered, or how the turn was cut off.
  unfoldable pub answered_step : Awaited AgentModelResponse → (ℕ → AgentTurnMetadata) → Run → Next
  unfolding response_step turn_event error_for control_metadata
  answered_step (controlled reason) metadata run =
      stop reason
        (turn_event TurnOutcome.error (control_metadata reason (metadata_now metadata run)) run)
  answered_step (thrown message) metadata run =
      fail agent_model_error message (turn_event TurnOutcome.error (metadata_now metadata run) run)
  answered_step (value response) metadata run = response_step response metadata run

  -- A tool that is executed although the events about it cannot be made: the `catch` behind the
  -- execution records an error, also behind a value.
  abbrev unreported_call : Awaited Text → Text → Text → Run → Run
  unreported_call (value result) id name run =
      push (AgentMessage.tool id name none true)
        (push (AgentMessage.tool id name (some result) false) run)
  unreported_call _ id name run = push (AgentMessage.tool id name none true) run

  -- What a turn leaves whose `metadataFor` throws, each time that it is called: no event, and the
  -- `catch` of the whole loop.
  unfoldable pub unreported : Awaited AgentModelResponse → Run → Run
  unfolding is_declared tool_call_id_of
  unreported (value (AgentModelResponse.message content terminal metadata)) run =
      push (AgentMessage.assistant content) run
  unreported (value (AgentModelResponse.tool_call given name args metadata)) run =
      if is_declared agent name
      then unreported_call (env.execute run.tool_calls) (tool_call_id_of given run) name
          (record run { tool_calls = suc run.tool_calls })
      else run
  unreported _ run = run

  -- The turn by the estimate of its cost: of a turn that failed, of no metadata.
  unfoldable pub turn_step : Awaited AgentModelResponse → Run → Next
  unfolding answered_step unreported reported estimated_cost
  turn_step answer run = elim (estimated_cost agent.connector (answer_metadata answer)) [
    | err message ↦ fail agent_model_error message (unreported answer run)
    | ok cost ↦ answered_step answer (reported (answer_metadata answer) cost) run
  ]

  unfoldable pub model_step : Run → Next
  unfolding turn_step emit_event
  model_step run =
      if leb agent.max_turns run.turns
      then finish AgentRunStatus.max_turns
          (some (record {
            code = agent_max_turns;
            message = codes "Agent run reached its maximum model turns";
          }))
          run
      else turn_step (env.turn run.turns)
          (emit_event (turn_started (suc run.turns)) (record run { turns = suc run.turns }))

  unfoldable pub step : Next → Next
  unfolding source_step model_step
  step (ask_source run) = source_step run
  step (ask_model run) = model_step run
  step (finish status error run) = finish status error run

  -- The two loops, for at most so many steps.
  unfoldable pub drive : ℕ → Next → Next
  unfolding step
  drive zero next = next
  drive (suc fuel) next = drive fuel (step next)

unfoldable pub create_result : AgentRunStatus → Option AgentRunError → Run → AgentRunResult
create_result status error run = record {
  status = status;
  turns = run.turns;
  tool_calls = run.tool_calls;
  outputs = run.outputs;
  final_output = run.final_output;
  error = error;
}

-- `finish()`; `none` where the loop has not come to an end
unfoldable pub finished : Next → Option (AgentRunResult × Run)
unfolding create_result emit_event
finished (finish status error run) =
    some (
      create_result status error run,
      emit_event (run_finished status run.turns run.tool_calls) run,
    )
finished _ = none

abbrev pub initial : Run
initial = record {
  inputs = 0;
  turns = 0;
  tool_calls = 0;
  outputs = 0;
  final_output = none;
  history = [];
  log = [];
  events = 0;
}

-- The run after `run_started`: a signal that fired before then ends it, whatever its reason was.
unfoldable pub begin : Option ControlReason → Next
unfolding emit_event error_for
begin none = ask_source (emit_event run_started initial)
begin (some reason) =
    finish AgentRunStatus.cancelled (some (error_for cancelled)) (emit_event run_started initial)

-- Enough steps for `max_turns` turns: `drive-IsFinished` in Loop/Termination.
abbrev pub fuel_for : Agent → ℕ
fuel_for agent = 2 * agent.max_turns + 2

unfoldable pub run_agent :
    Agent
    → Environment
    → (session_id : Text) → Option ControlReason
    → Result Text (Option (AgentRunResult × Run))
unfolding drive finished begin is_blank
run_agent agent env session_id aborted =
    if is_blank session_id
    then err (codes "defineAgent.run: sessionId must be a non-empty string")
    else ok (finished (drive agent env (fuel_for agent) (begin aborted)))
