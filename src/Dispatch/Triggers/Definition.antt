-- ===== src/Dispatch/Triggers/Definition.antt =====
-- The declarations of packages/sdk/src/trigger.ts, and `defineTrigger`.
use kitstack.Base.{
  Bool, true, false, ◌||◌, ◌&&◌, not, Option, none, some, List, Text, codes, ◌++◌, Result, ok, err,
  if◌then◌else◌, any, is_blank, length, nat_eq,
}
use kitstack.Dispatch.Types.{Action, Delegation, ChannelContext, SessionContext, DispatchEnvelope}

-- `TriggerKind`, or a text that a caller without types passes.
pub data TriggerKind : Type 0 where
  http webhook schedule stream : TriggerKind
  other : Text → TriggerKind

abbrev pub kind_text : TriggerKind → Text
kind_text TriggerKind.http = codes "http"
kind_text TriggerKind.webhook = codes "webhook"
kind_text TriggerKind.schedule = codes "schedule"
kind_text TriggerKind.stream = codes "stream"
kind_text (TriggerKind.other kind) = kind

pub data TriggerIdentityType : Type 0 where
  user service delegated : TriggerIdentityType
  other : Text → TriggerIdentityType

pub record TriggerIdentity : Type 0 where
  pub type : TriggerIdentityType
  pub principal : Text
  pub actor : Option Text
  pub delegation : Option Delegation

pub record TriggerVerificationRequest (Headers Payload : Type 0) : Type 0 where
  pub kit_id : Text
  pub trigger_id : Text
  pub method : Text
  pub path : Text
  pub headers : Headers
  pub payload : Payload

-- The handler's result is `Value`.
pub record TriggerDefinition (W Args Headers Payload Value : Type 0) : Type 0 where
  pub id : Text
  pub kind : TriggerKind
  pub identity : TriggerIdentity
  pub kits : List Text
  pub channel : Option ChannelContext
  pub verify : Option (TriggerVerificationRequest Headers Payload → Action W Bool)
  pub handler : DispatchEnvelope Args → Payload → Action W Value

pub record TriggerInvocation (Headers Payload : Type 0) : Type 0 where
  pub kit_id : Text
  pub payload : Payload
  pub method : Option Text
  pub path : Option Text
  pub headers : Option Headers
  pub channel : Option ChannelContext
  pub session : Option SessionContext

pub data TriggerOutcome : Type 0 where
  success denied error : TriggerOutcome

pub record TriggerAuditEvent : Type 0 where
  pub trigger_id : Text
  pub kit_id : Text
  pub channel : ChannelContext
  pub outcome : TriggerOutcome
  pub reason : Option Text

abbrev pub is_known_kind : TriggerKind → Bool
is_known_kind (TriggerKind.other kind) = false
is_known_kind _ = true

abbrev pub is_known_type : TriggerIdentityType → Bool
is_known_type (TriggerIdentityType.other type) = false
is_known_type _ = true

abbrev pub is_webhook : TriggerKind → Bool
is_webhook TriggerKind.webhook = true
is_webhook _ = false

abbrev pub is_absent : {A : Type 0} → Option A → Bool
is_absent none = true
is_absent (some a) = false

module _ {W Args Headers Payload Value : Type 0} where
  -- The definition, or the message of the `TypeError`.
  unfoldable pub define_trigger :
      TriggerDefinition W Args Headers Payload Value
      → Result Text (TriggerDefinition W Args Headers Payload Value)
  unfolding is_blank
  define_trigger definition =
      if is_blank definition.id
      then err (codes "defineTrigger: id must be a non-empty string")
      else if not (is_known_kind definition.kind)
      then err
          (codes "defineTrigger: unsupported kind \"" ++ (kind_text definition.kind ++ codes "\""))
      else if is_blank definition.identity.principal
      then err (codes "defineTrigger: identity.principal must be a non-empty string")
      else if not (is_known_type definition.identity.type)
      then err (codes "defineTrigger: identity.type must be user, service, or delegated")
      else if nat_eq (length definition.kits) 0 || any is_blank definition.kits
      then err (codes "defineTrigger: kits must contain at least one non-empty kit id")
      else if is_webhook definition.kind && is_absent definition.verify
      then err (codes "defineTrigger: webhook triggers require verify")
      else ok definition
