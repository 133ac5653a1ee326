-- ===== src/Agent/Loop/Redaction.antt =====
-- What the lifecycle events and the control of a run of packages/sdk/src/define-agent.ts depend on:
-- not on what is said, what a tool is given or returns, or how an error reads.
use mathlib.Core.Option.{map as option_map}
use kitstack.Base.{
  Result-cases, ℕ, zero, suc, ◌≡◌, refl, sym, ap, ◌∙◌, Bool, true, false, Option, none, some, List,
  [], ◌∷◌, ◌++◌, map, Text, Result, ok, err, leb, Bool-cases, inl, inr, is_blank,
}
use kitstack.Agent.Types.{
  Field, missing, null, present, Number, AgentMessage, AgentModelResponse, AgentTurnMetadata,
  AgentRunResult, AgentRunError, TurnOutcome, ToolOutcome, ErrorCode, agent_model_error,
  agent_tool_error, agent_output_error, agent_source_error,
}
use kitstack.Agent.Metadata.{estimated_cost, estimate, metadata_with}
use kitstack.Agent.Loop.{
  Environment, Agent, Run, Next, ask_source, ask_model, finish, ControlReason, Awaited, source_step,
  message_step, tool_step, undeclared_step, response_step, model_step, step, begin, run_agent,
  create_result, error_for, drive, finished, fuel_for, value, thrown, controlled, emit_event,
  turn_event, tool_event, is_declared, turn_step, answered_step, unreported, unreported_call,
  reported, answer_metadata, receive, deliver, conclude, push, metadata_now, executed,
  tool_call_id_of, stop, fail, control_metadata,
}

-- The errors whose message comes from outside.
abbrev erase_text : ErrorCode → Text → Text
erase_text agent_model_error message = []
erase_text agent_tool_error message = []
erase_text agent_output_error message = []
erase_text agent_source_error message = []
erase_text _ message = message

abbrev erase_error : AgentRunError → AgentRunError
erase_error error = record error { message = erase_text error.code error.message }

abbrev erase_answer {ℓ κ} : {A : Type ℓ} {B : Type κ} → (A → B) → Awaited A → Awaited B
erase_answer f (value a) = value (f a)
erase_answer f (thrown message) = thrown []
erase_answer f (controlled reason) = controlled reason

abbrev erase_response : AgentModelResponse → AgentModelResponse
erase_response (AgentModelResponse.message content terminal metadata) =
    AgentModelResponse.message [] terminal metadata
erase_response (AgentModelResponse.tool_call id name args metadata) =
    AgentModelResponse.tool_call id name [] metadata

abbrev same : Unit {0} → Unit {0}
same u = u

abbrev forget : Text → Text
forget content = []

abbrev erase_message : AgentMessage → AgentMessage
erase_message (AgentMessage.user content) = AgentMessage.user []
erase_message (AgentMessage.assistant content) = AgentMessage.assistant []
erase_message (AgentMessage.tool id name result is_error) =
    AgentMessage.tool id name (option_map forget result) is_error

-- The same environment with the content of messages, the arguments and results of tools and the texts
-- of errors left empty.
abbrev pub erase : Environment → Environment
erase env = record {
  next = λ k. erase_answer (option_map forget) (env.next k);
  turn = λ k. erase_answer erase_response (env.turn k);
  execute = λ k. erase_answer forget (env.execute k);
  emit = λ k. erase_answer same (env.emit k);
  duration = env.duration;
  latency = env.latency;
}

-- The same agent, whose cost estimate throws errors without a text.
abbrev erase_thrown : {A : Type 0} → Result Text A → Result Text A
erase_thrown (ok a) = ok a
erase_thrown (err message) = err []

abbrev pub erase_agent : Agent → Agent
erase_agent agent = record agent {
  connector = record (agent.connector) {
    estimate_cost_usd =
        option_map (λ f. λ requests responses. erase_thrown (f requests responses))
          agent.connector.estimate_cost_usd;
  };
}

estimate-erase :
    (estimator : Option (Field Number → Field Number → Result Text (Field Number)))
    (cost requests responses : Field Number)
    → estimate
        (option_map (λ f. λ requests responses. erase_thrown (f requests responses)) estimator)
        cost
        requests
        responses
      ≡ erase_thrown (estimate estimator cost requests responses)
estimate-erase none missing requests responses = refl
estimate-erase (some f) missing requests responses = refl
estimate-erase estimator null requests responses = refl
estimate-erase estimator (present n) requests responses = refl

abbrev erase_run : Run → Run
erase_run run = record run {
  history = map erase_message run.history;
  final_output = option_map forget run.final_output;
}

abbrev erase_next : Next → Next
erase_next (ask_source run) = ask_source (erase_run run)
erase_next (ask_model run) = ask_model (erase_run run)
erase_next (finish status error run) = finish status (option_map erase_error error) (erase_run run)

abbrev pub erase_outcome : AgentRunResult × Run → AgentRunResult × Run
erase_outcome (result, run) = (
  record result {
    final_output = option_map forget result.final_output;
    error = option_map erase_error result.error;
  },
  erase_run run,
)

map-push :
    (history : List AgentMessage) (m : AgentMessage)
    → map erase_message (history ++ m ∷ []) ≡ map erase_message history ++ erase_message m ∷ []
map-push [] m = refl
map-push (x ∷ xs) m = ap (λ l. erase_message x ∷ l) (map-push xs m)

erase_run-push :
    (m : AgentMessage) (run : Run) → erase_run (push m run) ≡ push (erase_message m) (erase_run run)
erase_run-push m run = ap (λ l. record (erase_run run) { history = l }) (map-push run.history m)

stop-erase :
    (reason : ControlReason) (run : Run)
    → stop reason (erase_run run) ≡ erase_next (stop reason run)
unfolding error_for
stop-erase ControlReason.cancelled run = refl
stop-erase ControlReason.timed_out run = refl

module _ (agent : Agent) (env : Environment) where
  receive-erase :
      (answer : Awaited (Option Text)) (run : Run)
      → receive
          (erase_agent agent)
          (erase env)
          (erase_answer (option_map forget) answer)
          (erase_run run)
        ≡ erase_next (receive agent env answer run)
  unfolding receive error_for
  receive-erase (controlled ControlReason.cancelled) run = refl
  receive-erase (controlled ControlReason.timed_out) run = refl
  receive-erase (thrown message) run = refl
  receive-erase (value none) run = refl
  receive-erase (value (some content)) run =
      ap ask_model
        (sym (erase_run-push (AgentMessage.user content) (record run { inputs = suc run.inputs })))

  deliver-erase :
      (answer : Awaited (Unit {0})) (content : Text) (terminal : Bool) (run : Run)
      → deliver
          (erase_agent agent)
          (erase env)
          (erase_answer same answer)
          []
          terminal
          (erase_run run)
        ≡ erase_next (deliver agent env answer content terminal run)
  unfolding deliver error_for
  deliver-erase (controlled ControlReason.cancelled) content terminal run = refl
  deliver-erase (controlled ControlReason.timed_out) content terminal run = refl
  deliver-erase (thrown message) content terminal run = refl
  deliver-erase (value u) content true run = refl
  deliver-erase (value u) content false run = refl

  message_step-erase :
      (content : Text) (terminal : Bool) (metadata : ℕ → AgentTurnMetadata) (run : Run)
      → message_step (erase_agent agent) (erase env) [] terminal metadata (erase_run run)
        ≡ erase_next (message_step agent env content terminal metadata run)
  unfolding message_step turn_event emit_event
  message_step-erase content terminal metadata run =
      let said = push (AgentMessage.assistant content) run in
      let told =
        turn_event agent env TurnOutcome.message (metadata_now agent env metadata said) said in
      ap
        (λ l.
          deliver (erase_agent agent) (erase env) (erase_answer same (env.emit run.outputs)) []
            terminal (record (erase_run told) { history = l }))
        (sym (map-push run.history (AgentMessage.assistant content)))
      ∙ deliver-erase (env.emit run.outputs) content terminal told

  conclude-erase :
      (answer : Awaited Text) (id name : Text) (metadata : ℕ → AgentTurnMetadata) (run : Run)
      → conclude
          (erase_agent agent)
          (erase env)
          (erase_answer forget answer)
          id
          name
          metadata
          (erase_run run)
        ≡ erase_next (conclude agent env answer id name metadata run)
  unfolding conclude turn_event tool_event emit_event error_for
  conclude-erase (controlled reason) id name metadata run =
      ap
        (λ l.
          stop reason
            (record (erase_run (
              executed agent env id name none true ToolOutcome.failed TurnOutcome.error
                (control_metadata reason) metadata run)) { history = l }))
        (sym (map-push run.history (AgentMessage.tool id name none true)))
      ∙ stop-erase reason _
  conclude-erase (thrown message) id name metadata run =
      ap
        (λ l.
          fail agent_tool_error []
            (record (erase_run (
              executed agent env id name none true ToolOutcome.failed TurnOutcome.error (λ m. m)
                metadata run)) { history = l }))
        (sym (map-push run.history (AgentMessage.tool id name none true)))
  conclude-erase (value result) id name metadata run =
      ap
        (λ l.
          ask_model
            (record (erase_run (
              executed agent env id name (some result) false ToolOutcome.completed
                TurnOutcome.tool_call (λ m. m) metadata run)) { history = l }))
        (sym (map-push run.history (AgentMessage.tool id name (some result) false)))

  response_step-erase :
      (response : AgentModelResponse) (metadata : ℕ → AgentTurnMetadata) (run : Run)
      → response_step
          (erase_agent agent)
          (erase env)
          (erase_response response)
          metadata
          (erase_run run)
        ≡ erase_next (response_step agent env response metadata run)
  unfolding response_step
  response_step-erase (AgentModelResponse.message content terminal _) metadata run =
      message_step-erase content terminal metadata run
  response_step-erase (AgentModelResponse.tool_call given name args _) metadata run =
      elim (Bool-cases (is_declared agent name)) [
        | inl declared ↦ rw declared (
            unfold tool_step in
            conclude-erase (env.execute run.tool_calls) (tool_call_id_of agent env given run) name
              metadata (record run { tool_calls = suc run.tool_calls }))
        | inr undeclared ↦
            rw undeclared (unfold undeclared_step turn_event tool_event emit_event in refl)
      ]

  answered_step-erase :
      (answer : Awaited AgentModelResponse) (metadata : ℕ → AgentTurnMetadata) (run : Run)
      → answered_step
          (erase_agent agent)
          (erase env)
          (erase_answer erase_response answer)
          metadata
          (erase_run run)
        ≡ erase_next (answered_step agent env answer metadata run)
  unfolding answered_step turn_event emit_event
  answered_step-erase (controlled reason) metadata run = stop-erase reason _
  answered_step-erase (thrown message) metadata run = refl
  answered_step-erase (value response) metadata run = response_step-erase response metadata run

  unreported_call-erase :
      (done : Awaited Text) (id name : Text) (run : Run)
      → unreported_call
          (erase_agent agent)
          (erase env)
          (erase_answer forget done)
          id
          name
          (erase_run run)
        ≡ erase_run (unreported_call agent env done id name run)
  unreported_call-erase (value result) id name run =
      let noted = AgentMessage.tool id name (some result) false in
      let failed = AgentMessage.tool id name none true in
      sym (erase_run-push failed (push noted run) ∙ ap (push failed) (erase_run-push noted run))
  unreported_call-erase (thrown message) id name run =
      sym (erase_run-push (AgentMessage.tool id name none true) run)
  unreported_call-erase (controlled reason) id name run =
      sym (erase_run-push (AgentMessage.tool id name none true) run)

  is_declared-erase : (name : Text) → is_declared (erase_agent agent) name ≡ is_declared agent name
  unfolding is_declared
  is_declared-erase name = refl

  answer_metadata-erase :
      (answer : Awaited AgentModelResponse)
      → answer_metadata (erase_answer erase_response answer) ≡ answer_metadata answer
  answer_metadata-erase (controlled reason) = refl
  answer_metadata-erase (thrown message) = refl
  answer_metadata-erase (value (AgentModelResponse.message content terminal _)) = refl
  answer_metadata-erase (value (AgentModelResponse.tool_call id name args _)) = refl

  estimated_cost-erase :
      (response : Option AgentTurnMetadata)
      → estimated_cost (erase_agent agent).connector response
        ≡ erase_thrown (estimated_cost agent.connector response)
  unfolding estimated_cost
  estimated_cost-erase response = estimate-erase agent.connector.estimate_cost_usd _ _ _

  reported-erase :
      (response : Option AgentTurnMetadata) (cost : Field Number)
      → reported (erase_agent agent) (erase env) response cost ≡ reported agent env response cost
  unfolding reported metadata_with
  reported-erase response cost = refl

  unreported-erase :
      (answer : Awaited AgentModelResponse) (run : Run)
      → unreported
          (erase_agent agent)
          (erase env)
          (erase_answer erase_response answer)
          (erase_run run)
        ≡ erase_run (unreported agent env answer run)
  unfolding unreported
  unreported-erase (controlled reason) run = refl
  unreported-erase (thrown message) run = refl
  unreported-erase (value (AgentModelResponse.message content terminal _)) run =
      sym (erase_run-push (AgentMessage.assistant content) run)
  unreported-erase (value (AgentModelResponse.tool_call id name args _)) run =
      elim (Bool-cases (is_declared agent name)) [
        | inl declared ↦
            rw (is_declared-erase name, declared)
              (unreported_call-erase (env.execute run.tool_calls) (tool_call_id_of agent env id run)
                name (record run { tool_calls = suc run.tool_calls }))
        | inr undeclared ↦ rw (is_declared-erase name, undeclared) refl
      ]

  turn_step-erase :
      (answer : Awaited AgentModelResponse) (run : Run)
      → turn_step
          (erase_agent agent)
          (erase env)
          (erase_answer erase_response answer)
          (erase_run run)
        ≡ erase_next (turn_step agent env answer run)
  unfolding turn_step
  turn_step-erase answer run =
      let same_data = answer_metadata-erase answer in
      elim (Result-cases (estimated_cost agent.connector (answer_metadata answer))) [
        | inl (message, failed) ↦
            let failed' = estimated_cost-erase (answer_metadata answer) ∙ ap erase_thrown failed in
            rw (turn_step, same_data, failed', failed)
              (ap (fail agent_model_error []) (unreported-erase answer run))
        | inr (cost, given) ↦
            let given' = estimated_cost-erase (answer_metadata answer) ∙ ap erase_thrown given in
            rw (turn_step, same_data, given', given)
              (ap
                  (λ response.
                    answered_step (erase_agent agent) (erase env)
                      (erase_answer erase_response answer)
                      (reported (erase_agent agent) (erase env) response cost) (erase_run run))
                  same_data
                ∙ rw (reported-erase (answer_metadata answer) cost) (
                    answered_step-erase answer (reported agent env (answer_metadata answer) cost)
                      run))
      ]

  model_step-erase :
      (run : Run)
      → model_step (erase_agent agent) (erase env) (erase_run run)
        ≡ erase_next (model_step agent env run)
  unfolding model_step emit_event
  model_step-erase run = elim (Bool-cases (leb agent.max_turns run.turns)) [
    | inl spent ↦ rw spent refl
    | inr left ↦ rw left (turn_step-erase (env.turn run.turns) _)
  ]

  step-erase :
      (next : Next)
      → step (erase_agent agent) (erase env) (erase_next next) ≡ erase_next (step agent env next)
  unfolding step source_step
  step-erase (ask_source run) = receive-erase (env.next run.inputs) run
  step-erase (ask_model run) = model_step-erase run
  step-erase (finish status error run) = refl

  drive-erase :
      (fuel : ℕ) (next : Next)
      → drive (erase_agent agent) (erase env) fuel (erase_next next)
        ≡ erase_next (drive agent env fuel next)
  unfolding drive
  drive-erase zero next = refl
  drive-erase (suc fuel) next =
      ap (drive (erase_agent agent) (erase env) fuel) (step-erase next)
      ∙ drive-erase fuel (step agent env next)

finished-erase :
    (next : Next) → finished (erase_next next) ≡ option_map erase_outcome (finished next)
unfolding finished create_result emit_event
finished-erase (ask_source run) = refl
finished-erase (ask_model run) = refl
finished-erase (finish status error run) = refl

begin-erase : (aborted : Option ControlReason) → erase_next (begin aborted) ≡ begin aborted
unfolding begin emit_event error_for
begin-erase none = refl
begin-erase (some reason) = refl

abbrev pub erase_result :
    Result Text (Option (AgentRunResult × Run)) → Result Text (Option (AgentRunResult × Run))
erase_result (ok outcome) = ok (option_map erase_outcome outcome)
erase_result (err message) = err message

-- A run in which the content of every message, the arguments and the results of every tool and the
-- text of every error are replaced by the empty text gives the same result, with those texts empty:
-- the same status, counts and error code, and exactly the same lifecycle events. So none of them
-- reaches a hook or steers the run. What the model says besides is kept: the name and the id of a
-- tool call, whether a message ends the run, and the metadata of its response.
pub run_agent-erase :
    (agent : Agent) (env : Environment) (session_id : Text) (aborted : Option ControlReason)
    → run_agent (erase_agent agent) (erase env) session_id aborted
      ≡ erase_result (run_agent agent env session_id aborted)
unfolding run_agent
run_agent-erase agent env session_id aborted = elim (Bool-cases (is_blank session_id)) [
  | inl blank ↦ rw blank refl
  | inr named ↦ rw named (
      ap ok (
        ap (λ n. finished (drive (erase_agent agent) (erase env) (fuel_for agent) n))
          (sym (begin-erase aborted))
        ∙ ap finished (drive-erase agent env (fuel_for agent) (begin aborted))
        ∙ finished-erase (drive agent env (fuel_for agent) (begin aborted))))
]
