-- ===== src/Agent/Loop/Transcript.antt =====
-- The history that the model of packages/sdk/src/define-agent.ts is asked with: where each of its
-- messages comes from.
use mathlib.Core.Path.{subst}
use kitstack.Base.{
  Result-cases, ℕ, suc, ◌≡◌, refl, Bool, true, false, Option, none, some, [], ◌∷◌, Text, ok, leb,
  Bool-cases, inl, inr, All, All-append,
}
use kitstack.Agent.Types.{
  AgentMessage, AgentModelResponse, AgentTurnMetadata, AgentRunResult, TurnOutcome,
}
use kitstack.Agent.Metadata.{estimated_cost}
use kitstack.Agent.Loop.{
  Environment, Agent, Run, Next, ask_source, ask_model, finish, ControlReason, Awaited, value,
  thrown, controlled, push, metadata_now, tool_call_id_of, receive, source_step, deliver,
  message_step, conclude, tool_step, undeclared_step, response_step, turn_step, answered_step,
  unreported, unreported_call, reported, answer_metadata, model_step, step, begin, run_agent,
  is_declared, turn_event, tool_event, emit_event,
}
use kitstack.Agent.Loop.Induction.{run_agent_inv}

module _ (agent : Agent) (env : Environment) where
  -- What a user says came from the source, what the assistant says from the model, and a tool's
  -- message is of a declared tool: the value that its execution gave, or an error without a value.
  abbrev pub IsSourced : AgentMessage → Type 0
  IsSourced (AgentMessage.user content) = (k : ℕ) × (env.next k ≡ value (some content))
  IsSourced (AgentMessage.assistant content) =
      (k : ℕ) × (terminal : Bool) × (metadata : Option AgentTurnMetadata) × (env.turn k
        ≡ value (AgentModelResponse.message content terminal metadata))
  IsSourced (AgentMessage.tool id name (some result) is_error) =
      (is_declared agent name ≡ true)
      × (is_error ≡ false)
      × ((k : ℕ) × (env.execute k ≡ value result))
  IsSourced (AgentMessage.tool id name none is_error) =
      (is_declared agent name ≡ true) × (is_error ≡ true)

  abbrev IsGenuine : Run → Type 0
  IsGenuine run = All IsSourced run.history

  abbrev IsAllGenuine : Next → Type 0
  IsAllGenuine (ask_source run) = IsGenuine run
  IsAllGenuine (ask_model run) = IsGenuine run
  IsAllGenuine (finish status error run) = IsGenuine run

  grown : (m : AgentMessage) (run : Run) → IsSourced m → IsGenuine run → IsGenuine (push m run)
  grown m run s h = All-append IsSourced run.history (m ∷ []) h (s, tt)

  receive-IsAllGenuine :
      (k : ℕ) (answer : Awaited (Option Text)) (run : Run)
      → env.next k ≡ answer
      → IsGenuine run
      → IsAllGenuine (receive agent env answer run)
  unfolding receive
  receive-IsAllGenuine k (controlled reason) run e h = h
  receive-IsAllGenuine k (thrown message) run e h = h
  receive-IsAllGenuine k (value none) run e h = h
  receive-IsAllGenuine k (value (some content)) run e h =
      grown (AgentMessage.user content) run (k, e) h

  deliver-IsAllGenuine :
      (answer : Awaited (Unit {0})) (content : Text) (terminal : Bool) (run : Run)
      → IsGenuine run
      → IsAllGenuine (deliver agent env answer content terminal run)
  unfolding deliver
  deliver-IsAllGenuine (controlled reason) content terminal run h = h
  deliver-IsAllGenuine (thrown message) content terminal run h = h
  deliver-IsAllGenuine (value _) content true run h = h
  deliver-IsAllGenuine (value _) content false run h = h

  message_step-IsAllGenuine :
      (k : ℕ) (content : Text) (terminal : Bool) (given : Option AgentTurnMetadata)
      (metadata : ℕ → AgentTurnMetadata) (run : Run)
      → env.turn k ≡ value (AgentModelResponse.message content terminal given)
      → IsGenuine run
      → IsAllGenuine (message_step agent env content terminal metadata run)
  unfolding message_step turn_event emit_event
  message_step-IsAllGenuine k content terminal given metadata run e h =
      let said = push (AgentMessage.assistant content) run in
      deliver-IsAllGenuine (env.emit run.outputs) content terminal
        (turn_event agent env TurnOutcome.message (metadata_now agent env metadata said) said)
        (grown (AgentMessage.assistant content) run (k, terminal, given, e) h)

  conclude-IsAllGenuine :
      (k : ℕ) (answer : Awaited Text) (id name : Text) (metadata : ℕ → AgentTurnMetadata)
      (run : Run)
      → env.execute k ≡ answer
      → is_declared agent name ≡ true
      → IsGenuine run
      → IsAllGenuine (conclude agent env answer id name metadata run)
  unfolding conclude turn_event tool_event emit_event
  conclude-IsAllGenuine k (controlled reason) id name metadata run e d h =
      grown (AgentMessage.tool id name none true) run (d, refl) h
  conclude-IsAllGenuine k (thrown message) id name metadata run e d h =
      grown (AgentMessage.tool id name none true) run (d, refl) h
  conclude-IsAllGenuine k (value result) id name metadata run e d h =
      grown (AgentMessage.tool id name (some result) false) run (d, refl, (k, e)) h

  response_step-IsAllGenuine :
      (k : ℕ) (response : AgentModelResponse) (metadata : ℕ → AgentTurnMetadata) (run : Run)
      → env.turn k ≡ value response
      → IsGenuine run
      → IsAllGenuine (response_step agent env response metadata run)
  unfolding response_step
  response_step-IsAllGenuine k (AgentModelResponse.message content terminal given) metadata run e
        h =
      message_step-IsAllGenuine k content terminal given metadata run e h
  response_step-IsAllGenuine k (AgentModelResponse.tool_call given name args _) metadata run e h =
      elim (Bool-cases (is_declared agent name)) [
        | inl declared ↦ rw declared (executes declared)
        | inr undeclared ↦
            rw undeclared (unfold undeclared_step turn_event tool_event emit_event in h)
      ]
    where
      executes :
          is_declared agent name ≡ true → IsAllGenuine (tool_step agent env given name metadata run)
      executes declared =
          unfold tool_step in
          conclude-IsAllGenuine run.tool_calls (env.execute run.tool_calls)
            (tool_call_id_of agent env given run) name metadata
            (record run { tool_calls = suc run.tool_calls }) refl declared h

  answered_step-IsAllGenuine :
      (k : ℕ) (answer : Awaited AgentModelResponse) (metadata : ℕ → AgentTurnMetadata) (run : Run)
      → env.turn k ≡ answer
      → IsGenuine run
      → IsAllGenuine (answered_step agent env answer metadata run)
  unfolding answered_step turn_event emit_event
  answered_step-IsAllGenuine k (controlled reason) metadata run e h = h
  answered_step-IsAllGenuine k (thrown message) metadata run e h = h
  answered_step-IsAllGenuine k (value response) metadata run e h =
      response_step-IsAllGenuine k response metadata run e h

  unreported_call-IsGenuine :
      (k : ℕ) (done : Awaited Text) (id name : Text) (run : Run)
      → env.execute k ≡ done
      → is_declared agent name ≡ true
      → IsGenuine run
      → IsGenuine (unreported_call agent env done id name run)
  unreported_call-IsGenuine k (value result) id name run e d h =
      grown (AgentMessage.tool id name none true)
        (push (AgentMessage.tool id name (some result) false) run) (d, refl)
        (grown (AgentMessage.tool id name (some result) false) run (d, refl, (k, e)) h)
  unreported_call-IsGenuine k (thrown message) id name run e d h =
      grown (AgentMessage.tool id name none true) run (d, refl) h
  unreported_call-IsGenuine k (controlled reason) id name run e d h =
      grown (AgentMessage.tool id name none true) run (d, refl) h

  unreported-IsGenuine :
      (k : ℕ) (answer : Awaited AgentModelResponse) (run : Run)
      → env.turn k ≡ answer
      → IsGenuine run
      → IsGenuine (unreported agent env answer run)
  unfolding unreported
  unreported-IsGenuine k (controlled reason) run e h = h
  unreported-IsGenuine k (thrown message) run e h = h
  unreported-IsGenuine k (value (AgentModelResponse.message content terminal given)) run e h =
      grown (AgentMessage.assistant content) run (k, terminal, given, e) h
  unreported-IsGenuine k (value (AgentModelResponse.tool_call given name args _)) run e h =
      elim (Bool-cases (is_declared agent name)) [
        | inl declared ↦ rw declared (
            unreported_call-IsGenuine run.tool_calls (env.execute run.tool_calls)
              (tool_call_id_of agent env given run) name
              (record run { tool_calls = suc run.tool_calls }) refl declared h)
        | inr undeclared ↦ rw undeclared h
      ]

  turn_step-IsAllGenuine :
      (k : ℕ) (answer : Awaited AgentModelResponse) (run : Run)
      → env.turn k ≡ answer
      → IsGenuine run
      → IsAllGenuine (turn_step agent env answer run)
  unfolding turn_step
  turn_step-IsAllGenuine k answer run e h =
      elim (Result-cases (estimated_cost agent.connector (answer_metadata answer))) [
        | inl (message, failed) ↦ rw (turn_step, failed) (unreported-IsGenuine k answer run e h)
        | inr (cost, given) ↦
            rw (turn_step, given)
              (answered_step-IsAllGenuine k answer
                (reported agent env (answer_metadata answer) cost) run e h)
      ]

  model_step-IsAllGenuine : (run : Run) → IsGenuine run → IsAllGenuine (model_step agent env run)
  unfolding model_step emit_event
  model_step-IsAllGenuine run h = elim (Bool-cases (leb agent.max_turns run.turns)) [
    | inl spent ↦ rw spent h
    | inr left ↦ rw left (turn_step-IsAllGenuine run.turns (env.turn run.turns) _ refl h)
  ]

  step-IsAllGenuine : (next : Next) → IsAllGenuine next → IsAllGenuine (step agent env next)
  unfolding step source_step
  step-IsAllGenuine (ask_source run) h =
      receive-IsAllGenuine run.inputs (env.next run.inputs) run refl h
  step-IsAllGenuine (ask_model run) h = model_step-IsAllGenuine run h
  step-IsAllGenuine (finish status error run) h = h

  begin-IsAllGenuine : (aborted : Option ControlReason) → IsAllGenuine (begin aborted)
  unfolding begin emit_event
  begin-IsAllGenuine none = tt
  begin-IsAllGenuine (some reason) = tt

  -- In the history of a run that gave a result, every user message came from the source and every
  -- assistant message from the model; every tool message names a declared tool, and holds the value
  -- that an execution gave, or is marked as an error and holds none.
  pub run_agent-IsSourced :
      (session_id : Text) (aborted : Option ControlReason) {r : AgentRunResult × Run}
      → run_agent agent env session_id aborted ≡ ok (some r)
      → All IsSourced r.1.history
  run_agent-IsSourced session_id aborted e =
      let (status, error, run, same, genuine) =
        run_agent_inv agent env IsAllGenuine step-IsAllGenuine session_id aborted
          (begin-IsAllGenuine aborted) e in
      subst (λ (r : AgentRunResult × Run). All IsSourced r.1.history) same
        (unfold emit_event in genuine)
