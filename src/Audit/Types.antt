-- ===== src/Audit/Types.antt =====
-- The events, records and queries of packages/sdk/src/audit.ts. A field that may be absent or null is
-- an option, since every reader takes an absent one as null.
use kitstack.Base.{ℕ, Bool, Option, List, Text}

-- A number is its text, as JSON prints it. That a value is one of these is what the type says.
pub data AuditAttributeValue : Type 0 where
  string number : Text → AuditAttributeValue
  boolean : Bool → AuditAttributeValue
  null : AuditAttributeValue

-- An object, by its entries in order.
abbrev pub AuditAttributes : Type 0
AuditAttributes = List (Text × AuditAttributeValue)

pub data AuditOutcome : Type 0 where
  success failure denied : AuditOutcome

-- The fields that an event and a record have in common.
pub record AuditEnvelope : Type 0 where
  pub org_id : Text
  pub app_id : Option Text
  pub principal : Text
  pub actor : Text
  pub delegation : Option Text
  pub session_id : Option Text
  pub trace_id : Option Text
  pub parent_id : Option Text
  pub channel : Option Text
  pub kit_id : Option Text
  pub plugin_id : Option Text
  pub action : Text
  pub outcome : AuditOutcome
  pub error_code : Option Text
  pub result_hash : Option Text
  pub attributes : AuditAttributes

-- An event, with the names of all its fields, which may be more than the type has.
pub record AuditEventInput : Type 0 where
  pub event_id : Option Text
  pub timestamp : Option Text
  pub envelope : AuditEnvelope
  pub keys : List Text

-- A record without its hash.
pub record Unhashed : Type 0 where
  pub sequence : ℕ
  pub event_id : Text
  pub timestamp : Text
  pub envelope : AuditEnvelope
  pub previous_hash : Option Text

pub record AuditRecord : Type 0 where
  pub body : Unhashed
  pub hash : Text

pub data Reason : Type 0 where
  sequence previous_hash hash duplicate_event_id : Reason

pub data AuditVerification : Type 0 where
  valid : (records : ℕ) → AuditVerification
  invalid : (records first_invalid_sequence : ℕ) → Reason → AuditVerification

-- Node's SHA-256 in hexadecimal, and `localeCompare`, as an order on keys.
pub record Platform : Type 0 where
  pub sha256 : Text → Text
  pub locale_leb : Text → Text → Bool
