-- ===== src/Audit/Tests.antt =====
-- The audit store of packages/sdk/src/audit.ts on a short log, and its properties there.
use kitstack.Base.{
  ◌≡◌, ◌⊎◌, ◌↔◌, refl, true, none, some, List, [], ◌∷◌, ◌++◌, Text, codes, ok, err, any, length,
  ◌==◌, text_instance, text_eq, text_leb, map, IsUnique,
}
use kitstack.Audit.Types.{
  AuditAttributeValue, AuditOutcome, AuditEnvelope, AuditEventInput, AuditRecord, valid, invalid,
  Reason, Platform,
}
use kitstack.Audit.Json.{json_string}
use kitstack.Audit.Store.{append, verify, AuditQuery, new_body, hashed, already_exists}
use kitstack.Audit.Sensitive.{assert_metadata_only_audit}
use kitstack.Audit.Dispatch.{DispatchAuditEvent, DispatchAuditSinkOptions}
use kitstack.Audit.Chain.{id_of, IsChained, verify_iff}
use kitstack.Audit.Chain.Appended.{append_cases}

-- A hash that hides nothing.
abbrev platform : Platform
platform = record { sha256 = λ t. t; locale_leb = text_leb }

abbrev envelope : AuditEnvelope
envelope = record {
  org_id = codes "o";
  app_id = none;
  principal = codes "p";
  actor = codes "a";
  delegation = none;
  session_id = none;
  trace_id = none;
  parent_id = none;
  channel = none;
  kit_id = none;
  plugin_id = none;
  action = codes "x";
  outcome = AuditOutcome.success;
  error_code = none;
  result_hash = none;
  attributes = (codes "n", AuditAttributeValue.number (codes "1")) ∷ [];
}

abbrev event : AuditEventInput
event = record {
  event_id = some (codes "e1");
  timestamp = none;
  envelope = envelope;
  keys = codes "orgId" ∷ [];
}

abbrev first : AuditRecord
first = hashed platform (new_body (codes "t0") (codes "id") event [])

abbrev log : List AuditRecord
log = first ∷ []

log_valid : verify platform log ≡ valid (length log)
unfolding verify hashed new_body text_eq
log_valid = refl

test_json : json_string (codes "a\"b") ≡ codes "\"a\\\"b\""
unfolding json_string
test_json = refl

test_sensitive :
    append platform (codes "t0") (codes "id") (record event { keys = codes "Tool-Args" ∷ [] }) []
    ≡ err (codes "Audit store accepts metadata only; field \"Tool-Args\" is not allowed")
unfolding append text_eq
test_sensitive = refl

-- A record whose content was changed under its hash.
abbrev forged : AuditRecord
forged = record first { body = record first.body { event_id = codes "e2" } }

test_forged : verify platform (forged ∷ []) ≡ invalid 1 1 Reason.hash
unfolding verify hashed new_body text_eq
test_forged = refl

verify_iff_example :
    (verify platform log ≡ valid (length log))
    ↔ (IsUnique (map id_of log) × IsChained platform 0 none log)
verify_iff_example = verify_iff platform log

abbrev second : AuditEventInput
second = record event { event_id = none }

append_cases_example :
    ((message : Text) × (assert_metadata_only_audit second ≡ err message)
      × (append platform (codes "t1") (codes "e2") second log ≡ err message))
    ⊎ ((any (λ r. id_of r == (new_body (codes "t1") (codes "e2") second log).event_id) log ≡ true)
        × (append platform (codes "t1") (codes "e2") second log
            ≡ err (already_exists (new_body (codes "t1") (codes "e2") second log).event_id)))
    ⊎ ((r : AuditRecord) × (assert_metadata_only_audit second ≡ ok tt)
        × (append platform (codes "t1") (codes "e2") second log ≡ ok (r, log ++ r ∷ []))
        × (verify platform (log ++ r ∷ []) ≡ valid (length (log ++ r ∷ []))))
append_cases_example = append_cases platform (codes "t1") (codes "e2") second log log_valid

abbrev all_of_org : AuditQuery
all_of_org = record {
  org_id = some (codes "o");
  app_id = none;
  session_id = none;
  trace_id = none;
  action = none;
  outcome = none;
  from = none;
  to = none;
  limit = none;
}

abbrev options : DispatchAuditSinkOptions
options = record { org_id = codes "o"; app_id = none; plugin_id = none }

abbrev dispatched : DispatchAuditEvent
dispatched = record {
  kit_id = codes "k";
  command = codes "content";
  principal = codes "p";
  actor = codes "a";
  delegation = none;
  channel = codes "chat";
  channel_id = some (codes "c");
  session_id = codes "s";
  trace_id = codes "t";
  parent_id = none;
  outcome = AuditOutcome.success;
  error_code = none;
  duration_ms = codes "5";
}
