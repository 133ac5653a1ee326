-- ===== src/Telemetry/Types.antt =====
-- The metadata of an event, in packages/sdk/src/telemetry.ts and kits/debrief/src/telemetry/index.ts.
use kitstack.Base.{
  ℕ, Bool, false, ◌||◌, Option, List, Text, codes, Equality, eq_of_discrete, any, ◌==◌,
  text_instance, [], ◌∷◌,
}
use kitstack.Agent.Types.{Number}

pub data TelemetryEventType : Type 0 where
  app_registered app_token_issued mcp_tool_call plugin_registered plugin_invoked memory_read :
      TelemetryEventType
  memory_write instruction_served voice_call inference model_route session_completed :
      TelemetryEventType

pub data TelemetryChannel : Type 0 where
  mcp proxy voice trigger system chat : TelemetryChannel

pub data TelemetryOutcome : Type 0 where
  success error started partial : TelemetryOutcome

unfoldable pub TelemetryEventType-discrete : Discrete TelemetryEventType
TelemetryEventType-discrete = hlevel

unfoldable pub TelemetryChannel-discrete : Discrete TelemetryChannel
TelemetryChannel-discrete = hlevel

instance abbrev pub telemetry_type_eq : Equality TelemetryEventType
telemetry_type_eq = eq_of_discrete TelemetryEventType-discrete

instance abbrev pub telemetry_channel_eq : Equality TelemetryChannel
telemetry_channel_eq = eq_of_discrete TelemetryChannel-discrete

-- The fields of the contract; one that is absent or null is stored as NULL.
pub record TelemetryMetadata : Type 0 where
  pub id : Text
  pub timestamp : Text
  pub org_id : Text
  pub customer_id : Option Text
  pub app_id : Option Text
  pub principal : Option Text
  pub actor : Option Text
  pub delegation : Option Text
  pub session_id : Option Text
  pub parent_id : Option Text
  pub trace_id : Option Text
  pub channel : TelemetryChannel
  pub plugin_id : Option Text
  pub kit_id : Option Text
  pub type : TelemetryEventType
  pub operation : Text
  pub model : Option Text
  pub provider : Option Text
  pub call_id : Option Text
  pub request_tokens : Option ℕ
  pub response_tokens : Option ℕ
  pub latency_ms : Option ℕ
  pub estimated_cost_usd : Option Number
  pub routing_reason : Option Text
  pub cancellation_reason : Option Text
  pub timeout_reason : Option Text
  pub outcome : TelemetryOutcome
  pub instruction_versions : Option (List Text)
  pub memory_ids : Option (List Text)

-- Any value that a property of an event may hold: a scalar, or an object or an array with its entries.
mutual
  pub data Value : Type 0 where
    scalar : Value
    nested : Entries → Value

  pub data Entries : Type 0 where
    no_entries : Entries
    entry : Text → Value → Entries → Entries

abbrev pub content_fields : List Text
content_fields =
    codes "prompt"
    ∷ codes "completion"
    ∷ codes "audio"
    ∷ codes "transcript"
    ∷ codes "toolPayload"
    ∷ codes "toolArgs"
    ∷ codes "toolArguments"
    ∷ codes "toolResult"
    ∷ codes "toolOutput"
    ∷ []

abbrev pub is_content_field : Text → Bool
is_content_field key = any (λ field. field == key) content_fields

unfoldable mutual
  contains_content : Value → Bool
  contains_content scalar = false
  contains_content (nested entries) = contains_content_field entries

  pub contains_content_field : Entries → Bool
  contains_content_field no_entries = false
  contains_content_field (entry key value rest) =
      is_content_field key || contains_content value || contains_content_field rest

-- An event as a caller gives it: the fields of the contract, and any others.
pub record TelemetryEventInput : Type 0 where
  pub metadata : TelemetryMetadata
  pub others : Entries

pub record TelemetryEvent : Type 0 where
  pub metadata : TelemetryMetadata
  pub sequence : ℕ

-- A query of `appId` or `parentId` may ask for NULL.
pub record TelemetryQuery : Type 0 where
  pub org_id : Option Text
  pub customer_id : Option Text
  pub app_id : Option (Option Text)
  pub session_id : Option Text
  pub trace_id : Option Text
  pub parent_id : Option (Option Text)
  pub plugin_id : Option Text
  pub kit_id : Option Text
  pub type : Option TelemetryEventType
  pub channel : Option TelemetryChannel
  pub from : Option Text
  pub until : Option Text
  pub limit : Option ℕ
