-- ===== src/Agent/Types.antt =====
-- The agent types of packages/sdk/src/types.ts. What a model, a tool or a channel returns is opaque
-- text here. Of the events, the identifiers and times that are the same in every event of a run, or
-- that nothing depends on, are left out.
use kitstack.Base.{ℕ, Bool, Option, Text}

-- An optional field that may also be null.
pub data Field {ℓ} (A : Type ℓ) : Type ℓ where
  missing null : Field A
  present : A → Field A

-- A double: not a number, an infinity with its sign, or a signed mantissa over a power of two.
pub data Number : Type 0 where
  nan : Number
  infinity : (negative : Bool) → Number
  finite : (negative : Bool) (mantissa halvings : ℕ) → Number

pub record AgentTurnMetadata : Type 0 where
  pub provider : Field Text
  pub model : Field Text
  pub request_tokens : Field Number
  pub response_tokens : Field Number
  pub cost_usd : Field Number
  pub latency_ms : Field Number
  pub routing_reason : Field Text
  pub cancellation_reason : Field Text
  pub timeout_reason : Field Text

pub data AgentMessage : Type 0 where
  user : (content : Text) → AgentMessage
  assistant : (content : Text) → AgentMessage
  tool : (tool_call_id name : Text) (result : Option Text) (is_error : Bool) → AgentMessage

pub data AgentModelResponse : Type 0 where
  message :
      (content : Text) (terminal : Bool) (metadata : Option AgentTurnMetadata) → AgentModelResponse
  tool_call :
      (tool_call_id : Option Text) (name args : Text) (metadata : Option AgentTurnMetadata)
      → AgentModelResponse

pub data AgentRunStatus : Type 0 where
  completed cancelled timed_out max_turns failed : AgentRunStatus

pub data ErrorCode : Type 0 where
  agent_cancelled agent_timeout agent_max_turns agent_model_error : ErrorCode
  agent_tool_error agent_undeclared_tool agent_output_error agent_source_error : ErrorCode

pub record AgentRunError : Type 0 where
  pub code : ErrorCode
  pub message : Text

pub data TurnOutcome : Type 0 where
  message tool_call error : TurnOutcome

pub data ToolOutcome : Type 0 where
  completed failed rejected : ToolOutcome

pub data AgentLifecycleEvent : Type 0 where
  run_started : AgentLifecycleEvent
  turn_started : (turn : ℕ) → AgentLifecycleEvent
  turn_finished :
      (turn : ℕ) (outcome : TurnOutcome) (duration_ms : ℕ) (metadata : AgentTurnMetadata)
      → AgentLifecycleEvent
  tool_called :
      (turn : ℕ) (tool_name : Text) (outcome : ToolOutcome) (duration_ms : ℕ)
      (metadata : AgentTurnMetadata)
      → AgentLifecycleEvent
  run_finished : (status : AgentRunStatus) (turns tool_calls : ℕ) → AgentLifecycleEvent

pub record AgentRunResult : Type 0 where
  pub status : AgentRunStatus
  pub turns : ℕ
  pub tool_calls : ℕ
  pub outputs : ℕ
  pub final_output : Option Text
  pub error : Option AgentRunError
