-- ===== src/Agent/Loop/Brackets.antt =====
-- What the hooks see of a run: which events come, and in which order.
use mathlib.Core.Path.{subst}
use kitstack.Base.{
  Result-cases, ◌⊎◌, ◌∙◌, err, ℕ, suc, ◌≡◌, refl, ap, Bool, true, false, Option, none, some, List,
  [], ◌∷◌, Text, ok, leb, Bool-cases, inl, inr,
}
use kitstack.Agent.Types.{
  AgentRunStatus, AgentRunError, agent_model_error, AgentMessage, AgentModelResponse,
  AgentTurnMetadata, AgentRunResult, AgentLifecycleEvent, TurnOutcome, ToolOutcome, run_started,
  turn_started, turn_finished, tool_called, run_finished,
}
use kitstack.Agent.Metadata.{estimated_cost}
use kitstack.Agent.Loop.{
  Environment, Agent, Run, Next, ask_source, ask_model, finish, ControlReason, Awaited, source_step,
  message_step, tool_step, undeclared_step, response_step, model_step, step, begin, run_agent,
  create_result, value, thrown, controlled, emit_event, push, metadata_now, tool_call_id_of,
  turn_event, tool_event, is_declared, turn_step, answered_step, unreported, unreported_call,
  reported, answer_metadata, fail, receive, deliver, conclude,
}
use kitstack.Agent.Loop.Induction.{run_agent_inv}

-- The events of n whole turns, newest first, in which k tools were executed. A turn starts once and
-- finishes once. In between, or after a refused call, stands the event of its tool.
pub data Turns : (n k : ℕ) → (log : List AgentLifecycleEvent) → Type 0 where
  opened :
      {n k : ℕ} {log : List AgentLifecycleEvent}
      → n ≡ 0
      → k ≡ 0
      → log ≡ run_started ∷ []
      → Turns n k log
  -- a message, or a model that failed
  spoke :
      {n k : ℕ} {log : List AgentLifecycleEvent} (m : ℕ) (before : List AgentLifecycleEvent)
      (outcome : TurnOutcome) (ms : ℕ) (data_ : AgentTurnMetadata)
      → Turns m k before
      → n ≡ suc m
      → log ≡ turn_finished n outcome ms data_ ∷ turn_started n ∷ before
      → Turns n k log
  -- a tool that was executed, whether it failed or not
  used :
      {n k : ℕ} {log : List AgentLifecycleEvent} (m j : ℕ) (before : List AgentLifecycleEvent)
      (outcome : TurnOutcome) (ms : ℕ) (data_ : AgentTurnMetadata) (name : Text)
      (tool_outcome : ToolOutcome) (tool_ms : ℕ) (tool_data : AgentTurnMetadata)
      → Turns m j before
      → n ≡ suc m
      → k ≡ suc j
      → log
        ≡ turn_finished n outcome ms data_
          ∷ tool_called n name tool_outcome tool_ms tool_data
          ∷ turn_started n
          ∷ before
      → Turns n k log
  -- a call of an undeclared tool: no execution
  refused :
      {n k : ℕ} {log : List AgentLifecycleEvent} (m : ℕ) (before : List AgentLifecycleEvent)
      (ms : ℕ) (data_ : AgentTurnMetadata) (name : Text) (tool_data : AgentTurnMetadata)
      → Turns m k before
      → n ≡ suc m
      → log
        ≡ tool_called n name ToolOutcome.rejected 0 tool_data
          ∷ turn_finished n TurnOutcome.tool_call ms data_
          ∷ turn_started n
          ∷ before
      → Turns n k log

abbrev IsWhole : Run → Type 0
IsWhole run = Turns run.turns run.tool_calls run.log

-- A turn has started and not finished.
record IsStarted (n k : ℕ) (log : List AgentLifecycleEvent) : Type 0 where
  earlier : ℕ
  before : List AgentLifecycleEvent
  whole : Turns earlier k before
  turns : n ≡ suc earlier
  events : log ≡ turn_started n ∷ before

abbrev IsOpen : Run → Type 0
IsOpen run = IsStarted run.turns run.tool_calls run.log

close :
    {n k ms : ℕ} {log : List AgentLifecycleEvent} {outcome : TurnOutcome}
    {data_ : AgentTurnMetadata}
    → IsStarted n k log
    → Turns n k (turn_finished n outcome ms data_ ∷ log)
close {n} {ms = ms} {outcome = outcome} {data_ = data_} s =
    spoke s.earlier s.before outcome ms data_ s.whole s.turns
      (ap (λ l. turn_finished n outcome ms data_ ∷ l) s.events)

close_used :
    {n k j ms tool_ms : ℕ} {log : List AgentLifecycleEvent} {outcome : TurnOutcome} {name : Text}
    {tool_outcome : ToolOutcome} {data_ tool_data : AgentTurnMetadata}
    → k ≡ suc j
    → IsStarted n j log
    → Turns n k
        (turn_finished n outcome ms data_ ∷ tool_called n name tool_outcome tool_ms tool_data ∷ log)
close_used {n} {j = j} {ms} {tool_ms} {outcome = outcome} {name} {tool_outcome} {data_} {tool_data}
      e s =
    used s.earlier j s.before outcome ms data_ name tool_outcome tool_ms tool_data s.whole s.turns e
      (ap
        (λ l.
          turn_finished n outcome ms data_ ∷ tool_called n name tool_outcome tool_ms tool_data ∷ l)
        s.events)

close_refused :
    {n k ms : ℕ} {log : List AgentLifecycleEvent} {name : Text}
    {data_ tool_data : AgentTurnMetadata}
    → IsStarted n k log
    → Turns n k (
        tool_called n name ToolOutcome.rejected 0 tool_data
        ∷ turn_finished n TurnOutcome.tool_call ms data_
        ∷ log)
close_refused {n} {ms = ms} {name = name} {data_} {tool_data} s =
    refused s.earlier s.before ms data_ name tool_data s.whole s.turns (
      ap
        (λ l.
          tool_called n name ToolOutcome.rejected 0 tool_data
          ∷ turn_finished n TurnOutcome.tool_call ms data_
          ∷ l)
        s.events)

-- The run has failed with the error of the cost estimate, which left the last turn without its end.
pub record IsBroken (agent : Agent) (status : AgentRunStatus) (error : Option AgentRunError)
    (n k : ℕ) (log : List AgentLifecycleEvent) : Type 0 where
  pub earlier : ℕ
  pub used_before : ℕ
  pub before : List AgentLifecycleEvent
  pub whole : Turns earlier used_before before
  pub turns : n ≡ suc earlier
  pub calls : (k ≡ used_before) ⊎ (k ≡ suc used_before)
  pub events : log ≡ turn_started n ∷ before
  pub response : Option AgentTurnMetadata
  pub message : Text
  pub thrown_by : estimated_cost agent.connector response ≡ err message
  pub failed_with : status ≡ AgentRunStatus.failed
  pub error_given : error ≡ some (record { code = agent_model_error; message = message })

module _ (agent : Agent) (env : Environment) where
  abbrev IsCutOff :
      AgentRunStatus → Option AgentRunError → (n k : ℕ) → List AgentLifecycleEvent → Type 0
  IsCutOff status error n k log = IsBroken agent status error n k log

  abbrev IsLogged : Next → Type 0
  IsLogged (ask_source run) = IsWhole run
  IsLogged (ask_model run) = IsWhole run
  IsLogged (finish status error run) =
      IsWhole run ⊎ IsCutOff status error run.turns run.tool_calls run.log

  receive-IsLogged :
      (answer : Awaited (Option Text)) (run : Run)
      → IsWhole run
      → IsLogged (receive agent env answer run)
  unfolding receive
  receive-IsLogged (controlled reason) run h = inl h
  receive-IsLogged (thrown message) run h = inl h
  receive-IsLogged (value none) run h = inl h
  receive-IsLogged (value (some content)) run h = h

  deliver-IsLogged :
      (answer : Awaited (Unit {0})) (content : Text) (terminal : Bool) (run : Run)
      → IsWhole run
      → IsLogged (deliver agent env answer content terminal run)
  unfolding deliver
  deliver-IsLogged (controlled reason) content terminal run h = inl h
  deliver-IsLogged (thrown message) content terminal run h = inl h
  deliver-IsLogged (value _) content true run h = inl h
  deliver-IsLogged (value _) content false run h = h

  message_step-IsLogged :
      (content : Text) (terminal : Bool) (metadata : ℕ → AgentTurnMetadata) (run : Run)
      → IsOpen run
      → IsLogged (message_step agent env content terminal metadata run)
  unfolding message_step turn_event emit_event
  message_step-IsLogged content terminal metadata run h =
      let said = push (AgentMessage.assistant content) run in
      deliver-IsLogged (env.emit run.outputs) content terminal
        (turn_event agent env TurnOutcome.message (metadata_now agent env metadata said) said)
        (close h)

  conclude-IsLogged :
      (answer : Awaited Text) (id name : Text) (metadata : ℕ → AgentTurnMetadata) (run : Run)
      (j : ℕ)
      → IsStarted run.turns j run.log
      → run.tool_calls ≡ suc j
      → IsLogged (conclude agent env answer id name metadata run)
  unfolding conclude turn_event tool_event emit_event
  conclude-IsLogged (controlled reason) id name metadata run j h k = inl (close_used k h)
  conclude-IsLogged (thrown message) id name metadata run j h k = inl (close_used k h)
  conclude-IsLogged (value result) id name metadata run j h k = close_used k h

  response_step-IsLogged :
      (response : AgentModelResponse) (metadata : ℕ → AgentTurnMetadata) (run : Run)
      → IsOpen run
      → IsLogged (response_step agent env response metadata run)
  unfolding response_step
  response_step-IsLogged (AgentModelResponse.message content terminal _) metadata run h =
      message_step-IsLogged content terminal metadata run h
  response_step-IsLogged (AgentModelResponse.tool_call given name args _) metadata run h =
      elim (Bool-cases (is_declared agent name)) [
        | inl declared ↦ rw declared (executes h)
        | inr undeclared ↦ rw undeclared (refuses h)
      ]
    where
      executes : IsOpen run → IsLogged (tool_step agent env given name metadata run)
      executes s =
          unfold tool_step in
          conclude-IsLogged (env.execute run.tool_calls) (tool_call_id_of agent env given run) name
            metadata (record run { tool_calls = suc run.tool_calls }) run.tool_calls s refl

      refuses : IsOpen run → IsLogged (undeclared_step agent env name metadata run)
      refuses s = unfold undeclared_step turn_event tool_event emit_event in inl (close_refused s)

  answered_step-IsLogged :
      (answer : Awaited AgentModelResponse) (metadata : ℕ → AgentTurnMetadata) (run : Run)
      → IsOpen run
      → IsLogged (answered_step agent env answer metadata run)
  unfolding answered_step turn_event emit_event
  answered_step-IsLogged (controlled reason) metadata run h = inl (close h)
  answered_step-IsLogged (thrown message) metadata run h = inl (close h)
  answered_step-IsLogged (value response) metadata run h =
      response_step-IsLogged response metadata run h

  cut_off :
      (message : Text) (response : Option AgentTurnMetadata) (run : Run) (k : ℕ)
      (log : List AgentLifecycleEvent) (s : IsOpen run)
      → estimated_cost agent.connector response ≡ err message
      → (k ≡ run.tool_calls) ⊎ (k ≡ suc run.tool_calls)
      → log ≡ run.log
      → IsBroken agent AgentRunStatus.failed
          (some (record { code = agent_model_error; message = message }))
          run.turns
          k
          log
  cut_off message response run k log s thrown_by calls same = record {
    earlier = s.earlier;
    used_before = run.tool_calls;
    before = s.before;
    whole = s.whole;
    turns = s.turns;
    calls = calls;
    events = same ∙ s.events;
    response = response;
    message = message;
    thrown_by = thrown_by;
    failed_with = refl;
    error_given = refl;
  }

  unreported-IsLogged :
      (message : Text) (answer : Awaited AgentModelResponse) (run : Run)
      → IsOpen run
      → estimated_cost agent.connector (answer_metadata answer) ≡ err message
      → IsLogged (fail agent_model_error message (unreported agent env answer run))
  unfolding unreported
  unreported-IsLogged message (controlled reason) run h e =
      inr (cut_off message _ run _ _ h e (inl refl) refl)
  unreported-IsLogged message (thrown error) run h e =
      inr (cut_off message _ run _ _ h e (inl refl) refl)
  unreported-IsLogged message (value (AgentModelResponse.message content terminal given)) run h e =
      inr (cut_off message given run _ _ h e (inl refl) refl)
  unreported-IsLogged message (value (AgentModelResponse.tool_call id name args given)) run h e =
      elim (Bool-cases (is_declared agent name)) [
        | inl declared ↦ rw declared (attempts (env.execute run.tool_calls))
        | inr undeclared ↦ rw undeclared (inr (cut_off message given run _ _ h e (inl refl) refl))
      ]
    where
      attempts :
          (done : Awaited Text)
          → IsLogged (
              fail agent_model_error message (
                unreported_call agent env done
                  (tool_call_id_of agent env id run)
                  name
                  (record run { tool_calls = suc run.tool_calls })))
      attempts (value result) = inr (cut_off message given run _ _ h e (inr refl) refl)
      attempts (thrown error) = inr (cut_off message given run _ _ h e (inr refl) refl)
      attempts (controlled reason) = inr (cut_off message given run _ _ h e (inr refl) refl)

  turn_step-IsLogged :
      (answer : Awaited AgentModelResponse) (run : Run)
      → IsOpen run
      → IsLogged (turn_step agent env answer run)
  unfolding turn_step
  turn_step-IsLogged answer run h =
      elim (Result-cases (estimated_cost agent.connector (answer_metadata answer))) [
        | inl (message, failed) ↦
            rw (turn_step, failed) (unreported-IsLogged message answer run h failed)
        | inr (cost, given) ↦
            rw (turn_step, given)
              (answered_step-IsLogged answer (reported agent env (answer_metadata answer) cost) run
                h)
      ]

  model_step-IsLogged : (run : Run) → IsWhole run → IsLogged (model_step agent env run)
  unfolding model_step emit_event
  model_step-IsLogged run h = elim (Bool-cases (leb agent.max_turns run.turns)) [
    | inl spent ↦ rw spent (inl h)
    | inr left ↦ rw left (
        turn_step-IsLogged (env.turn run.turns)
          (emit_event (turn_started (suc run.turns)) (record run { turns = suc run.turns }))
          (record {
            earlier = run.turns;
            before = run.log;
            whole = h;
            turns = refl;
            events = refl;
          }))
  ]

  step-IsLogged : (next : Next) → IsLogged next → IsLogged (step agent env next)
  unfolding step source_step
  step-IsLogged (ask_source run) h = receive-IsLogged (env.next run.inputs) run h
  step-IsLogged (ask_model run) h = model_step-IsLogged run h
  step-IsLogged (finish status error run) h = h

  begin-IsLogged : (aborted : Option ControlReason) → IsLogged (begin aborted)
  unfolding begin emit_event
  begin-IsLogged none = opened refl refl refl
  begin-IsLogged (some reason) = inl (opened refl refl refl)

  -- The events of a run that gave the result r: `run_started` first, then for each of its turns one
  -- `turn_started` and one `turn_finished` of that number, with one `tool_called` for each of its
  -- tool calls and for a refused one, then one `run_finished` with its status and counts. Only the
  -- last turn may have no more than its `turn_started`: then the estimate of a cost has thrown, and
  -- the run has failed with its error.
  pub run_agent-Turns :
      (session_id : Text) (aborted : Option ControlReason) {r : AgentRunResult × Run}
      → run_agent agent env session_id aborted ≡ ok (some r)
      → (before : List AgentLifecycleEvent) × (r.1.log
          ≡ run_finished r.0.status r.0.turns r.0.tool_calls ∷ before)
        × (Turns r.0.turns r.0.tool_calls before
            ⊎ IsBroken agent r.0.status r.0.error r.0.turns r.0.tool_calls before)
  run_agent-Turns session_id aborted e =
      let (status, error, run, same, logged) =
        run_agent_inv agent env IsLogged step-IsLogged session_id aborted (begin-IsLogged aborted)
          e in
      subst
        (λ (r : AgentRunResult × Run).
          (before : List AgentLifecycleEvent) × (r.1.log
            ≡ run_finished r.0.status r.0.turns r.0.tool_calls ∷ before)
          × (Turns r.0.turns r.0.tool_calls before
              ⊎ IsBroken agent r.0.status r.0.error r.0.turns r.0.tool_calls before))
        same (run.log, unfold emit_event create_result in refl, unfold create_result in logged)
