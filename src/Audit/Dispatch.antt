-- ===== src/Audit/Dispatch.antt =====
-- `createDispatchAuditSink` of packages/sdk/src/audit.ts: the audit entry of a dispatch event.
use kitstack.Base.{
  Option, none, some, List, [], ◌∷◌, ◌++◌, Text, codes, if◌then◌else◌, text_instance,
  option_instance, nat_instance, is_blank, Result, ok, err,
}
use kitstack.Audit.Types.{AuditAttributes, AuditAttributeValue, AuditOutcome, AuditEventInput}

-- What `createDispatchAuditSink` takes from a dispatch event; durations are printed numbers.
pub record DispatchAuditEvent : Type 0 where
  pub kit_id : Text
  pub command : Text
  pub principal : Text
  pub actor : Text
  pub delegation : Option Text
  pub channel : Text
  pub channel_id : Option Text
  pub session_id : Text
  pub trace_id : Text
  pub parent_id : Option Text
  pub outcome : AuditOutcome
  pub error_code : Option Text
  pub duration_ms : Text

pub record DispatchAuditSinkOptions : Type 0 where
  pub org_id : Text
  pub app_id : Option Text
  pub plugin_id : Option Text

-- `...(event.channelId ? { channelId: event.channelId } : {})`
abbrev channel_attribute : Option Text → AuditAttributes
channel_attribute none = []
channel_attribute (some []) = []
channel_attribute (some channel_id) =
    (codes "channelId", AuditAttributeValue.string channel_id) ∷ []

abbrev pub dispatch_keys : List Text
dispatch_keys =
    codes "orgId"
    ∷ codes "appId"
    ∷ codes "principal"
    ∷ codes "actor"
    ∷ codes "delegation"
    ∷ codes "sessionId"
    ∷ codes "traceId"
    ∷ codes "parentId"
    ∷ codes "channel"
    ∷ codes "kitId"
    ∷ codes "pluginId"
    ∷ codes "action"
    ∷ codes "outcome"
    ∷ codes "errorCode"
    ∷ codes "attributes"
    ∷ []

unfoldable pub dispatch_input : DispatchAuditSinkOptions → DispatchAuditEvent → AuditEventInput
dispatch_input options event = record {
  event_id = none;
  timestamp = none;
  envelope = record {
    org_id = options.org_id;
    app_id = options.app_id;
    principal = event.principal;
    actor = event.actor;
    delegation = event.delegation;
    session_id = some event.session_id;
    trace_id = some event.trace_id;
    parent_id = event.parent_id;
    channel = some event.channel;
    kit_id = some event.kit_id;
    plugin_id = options.plugin_id;
    action = codes "dispatch." ++ event.command;
    outcome = event.outcome;
    error_code = event.error_code;
    result_hash = none;
    attributes =
        (codes "command", AuditAttributeValue.string event.command)
        ∷ (codes "durationMs", AuditAttributeValue.number event.duration_ms)
        ∷ channel_attribute event.channel_id;
  };
  keys = dispatch_keys;
}

-- The function that makes the input of each dispatch event; or the error, for a blank organisation.
unfoldable pub create_dispatch_audit_sink :
    DispatchAuditSinkOptions → Result Text (DispatchAuditEvent → AuditEventInput)
unfolding is_blank dispatch_input
create_dispatch_audit_sink options =
    if is_blank options.org_id
    then err (codes "Dispatch audit orgId must be non-empty")
    else ok (dispatch_input options)
