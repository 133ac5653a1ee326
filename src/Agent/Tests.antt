-- ===== src/Agent/Tests.antt =====
-- A run of an agent with one tool, and the properties of packages/sdk/src/define-agent.ts there.
use kitstack.Base.{
  ℕ, zero, suc, ◌≡◌, ◌↔◌, refl, true, false, Option, none, some, List, [], ◌∷◌, Text, codes, ok,
  text_eq, decide, is_blank, All, Result, Ensures, ◌⊎◌, err,
}
use kitstack.Agent.Types.{
  AgentModelResponse, AgentRunResult, AgentRunStatus, AgentLifecycleEvent, run_finished,
  turn_started, run_started, present, nan, infinity, finite,
}
use kitstack.Agent.Metadata.{AgentModelConnector, metadata_for, empty_metadata}
use kitstack.Agent.Metadata.Bounded.{metadata_for-IsBounded, IsBounded}
use kitstack.Agent.Config.{DefineAgentConfig, Limits, validate_config, no_turns, no_time}
use kitstack.Agent.Config.Accepted.{validate_config_iff, IsValid, limits_of}
use kitstack.Agent.Loop.{Environment, Agent, Awaited, value, Run, run_agent, initial}
use kitstack.Agent.Loop.Termination.{run_agent_ends}
use kitstack.Agent.Loop.Counts.{run_agent-IsAccounted, IsAccounted}
use kitstack.Agent.Loop.Brackets.{run_agent-Turns, Turns, IsBroken}
use kitstack.Agent.Loop.Redaction.{run_agent-erase, erase, erase_agent, erase_result}
use kitstack.Agent.Loop.Transcript.{run_agent-IsSourced, IsSourced}

abbrev connector : AgentModelConnector
connector = record {
  provider = some (codes "acme");
  model = none;
  routing_reason = none;
  estimate_cost_usd = none;
}

abbrev agent : Agent
agent = record { tools = codes "search" ∷ []; connector = connector; max_turns = 3 }

-- The model calls the tool, then answers for good.
abbrev turn : ℕ → Awaited AgentModelResponse
turn zero = value (AgentModelResponse.tool_call none (codes "search") (codes "kits") none)
turn (suc k) = value (AgentModelResponse.message (codes "done") true none)

abbrev env : Environment
env = record {
  next = λ k. value (some (codes "hello"));
  turn = turn;
  execute = λ k. value (codes "found");
  emit = λ k. value tt;
  duration = λ k. 5;
  latency = λ k. 7;
}

abbrev outcome :
    Result Text (Option (AgentRunResult × Run)) → AgentRunResult × Run → AgentRunResult × Run
outcome (ok (some r)) other = r
outcome _ other = other

abbrev nothing : AgentRunResult × Run
nothing = (
  record {
    status = AgentRunStatus.failed;
    turns = 0;
    tool_calls = 0;
    outputs = 0;
    final_output = none;
    error = none;
  },
  initial,
)

abbrev session : Text
session = codes "s1"

abbrev run : AgentRunResult × Run
run = outcome (run_agent agent env session none) nothing

run_gives : run_agent agent env session none ≡ ok (some run)
unfolding run_agent text_eq decide
run_gives = refl

test_run : run.0 ≡ record {
  status = AgentRunStatus.completed;
  turns = 2;
  tool_calls = 1;
  outputs = 1;
  final_output = some (codes "done");
  error = none;
}
unfolding run_agent text_eq decide
test_run = refl

-- A cost estimate that throws: the first turn does not end, and the value of its tool is recorded as
-- an error as well.
abbrev broken : Agent
broken = record agent {
  connector = record connector {
    estimate_cost_usd = some (λ requests responses. err (codes "rates"));
  };
}

test_broken :
    (outcome (run_agent broken env session none) nothing).1.log
    ≡ run_finished AgentRunStatus.failed 1 1 ∷ turn_started 1 ∷ run_started ∷ []
unfolding run_agent text_eq decide
test_broken = refl

run_agent_ends_example :
    (r : AgentRunResult × Run) × (run_agent agent env session none ≡ ok (some r))
run_agent_ends_example = run_agent_ends agent env session none (unfold is_blank in refl)

run_agent-IsAccounted_example : IsAccounted agent run.0
run_agent-IsAccounted_example = run_agent-IsAccounted agent env session none run_gives

run_agent-Turns_example :
    (before : List AgentLifecycleEvent) × (run.1.log
      ≡ run_finished run.0.status run.0.turns run.0.tool_calls ∷ before)
    × (Turns run.0.turns run.0.tool_calls before
        ⊎ IsBroken agent run.0.status run.0.error run.0.turns run.0.tool_calls before)
run_agent-Turns_example = run_agent-Turns agent env session none run_gives

run_agent-IsSourced_example : All (IsSourced agent env) run.1.history
run_agent-IsSourced_example = run_agent-IsSourced agent env session none run_gives

run_agent-erase_example :
    run_agent (erase_agent agent) (erase env) session none
    ≡ erase_result (run_agent agent env session none)
run_agent-erase_example = run_agent-erase agent env session none

-- A model that answers with a number that is none.
metadata_for-IsBounded_example :
    Ensures IsBounded
      (metadata_for connector (some (record empty_metadata { cost_usd = present nan })) 9)
metadata_for-IsBounded_example =
    metadata_for-IsBounded connector (some (record empty_metadata { cost_usd = present nan })) 9

abbrev config : DefineAgentConfig
config = record {
  id = codes "a";
  kit_id = codes "k";
  trigger_id = codes "t";
  trigger_identity = codes "u";
  instructions_version = codes "1";
  instructions_content = codes "help";
  tools = codes "search" ∷ codes "post" ∷ [];
  max_turns = some (finite false 4 1);
  max_duration_ms = none;
}

abbrev limits : Limits
limits = record { max_turns = finite false 4 1; max_duration_ms = finite false 60000 0 }

-- One and a half turns, and a time without an end.
test_fraction :
    validate_config (record config { max_turns = some (finite false 3 1) }) ≡ err no_turns
unfolding validate_config is_blank text_eq
test_fraction = refl

test_endless :
    validate_config (record config { max_duration_ms = some (infinity false) }) ≡ err no_time
unfolding validate_config is_blank text_eq
test_endless = refl

test_config : validate_config config ≡ ok limits
unfolding validate_config is_blank text_eq decide
test_config = refl

validate_config_iff_example :
    (validate_config config ≡ ok limits) ↔ (IsValid config × (limits_of config ≡ limits))
validate_config_iff_example = validate_config_iff config limits
