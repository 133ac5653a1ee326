-- ===== src/Audit/Store.antt =====
-- `HashChainedAuditStore` of packages/sdk/src/audit.ts over its memory persistence, a list of records
-- in the order of their appends, which its queue makes one after the other. The clock's reading and the fresh id are arguments.
use kitstack.Base.{
  ℕ, suc, ◌+◌, Bool, true, ◌&&◌, not, Option, none, some, List, [], ◌∷◌, ◌++◌, Text, codes, any,
  keep, take, length, or_else, nat_eq, min, max, if◌then◌else◌, ◌==◌, text_instance,
  option_instance, nat_instance, Equality, eq_of_discrete, text_leb, Result, ok, err, ◌>>◌,
}
use kitstack.Audit.Types.{
  AuditOutcome, AuditEventInput, Unhashed, AuditRecord, AuditVerification, Reason, Platform,
}
use kitstack.Audit.Json.{hash_audit_record}
use kitstack.Audit.Sensitive.{assert_metadata_only_audit}

abbrev pub last? : List AuditRecord → Option AuditRecord
last? [] = none
last? (r ∷ []) = some r
last? (r ∷ s ∷ rest) = last? (s ∷ rest)

abbrev pub next_sequence : Option AuditRecord → ℕ
next_sequence none = 1
next_sequence (some previous) = previous.body.sequence + 1

abbrev pub hash_of : Option AuditRecord → Option Text
hash_of none = none
hash_of (some previous) = some previous.hash

unfoldable pub new_body : (now fresh_id : Text) → AuditEventInput → List AuditRecord → Unhashed
new_body now fresh_id input records = record {
  sequence = next_sequence (last? records);
  event_id = or_else input.event_id fresh_id;
  timestamp = or_else input.timestamp now;
  envelope = input.envelope;
  previous_hash = hash_of (last? records);
}

unfoldable pub hashed : Platform → Unhashed → AuditRecord
unfolding hash_audit_record
hashed platform body = record { body = body; hash = hash_audit_record platform body }

abbrev pub already_exists : Text → Text
already_exists event_id = codes "Audit event already exists: " ++ event_id

-- `append`: the record, and the records after it; or the error.
unfoldable pub append :
    Platform
    → (now fresh_id : Text) → AuditEventInput
    → List AuditRecord
    → Result Text (AuditRecord × List AuditRecord)
unfolding assert_metadata_only_audit new_body hashed
append platform now fresh_id input records =
    let body = new_body now fresh_id input records in
    let appended = hashed platform body in
    assert_metadata_only_audit input
    >> (if any (λ r. r.body.event_id == body.event_id) records
        then err (already_exists body.event_id)
        else ok (appended, records ++ appended ∷ []))

-- The loop of `verify`, at an index, with the ids seen and the last hash.
unfoldable pub verify_from :
    Platform
    → (total index : ℕ) → (ids : List Text) → (previous_hash : Option Text) → List AuditRecord
    → AuditVerification
unfolding hash_audit_record
verify_from platform total index ids previous_hash [] = AuditVerification.valid total
verify_from platform total index ids previous_hash (r ∷ rest) =
    let later = verify_from platform total (suc index) (r.body.event_id ∷ ids) (some r.hash) rest in
    if any (λ id. id == r.body.event_id) ids
    then AuditVerification.invalid total r.body.sequence Reason.duplicate_event_id
    else if not (nat_eq r.body.sequence (index + 1))
    then AuditVerification.invalid total r.body.sequence Reason.sequence
    else if not (r.body.previous_hash == previous_hash)
    then AuditVerification.invalid total r.body.sequence Reason.previous_hash
    else if not (r.hash == hash_audit_record platform r.body)
    then AuditVerification.invalid total r.body.sequence Reason.hash
    else later

unfoldable pub verify : Platform → List AuditRecord → AuditVerification
unfolding verify_from
verify platform records = verify_from platform (length records) 0 [] none records

pub record AuditQuery : Type 0 where
  pub org_id : Option Text
  -- `null` asks for the records of no app
  pub app_id : Option (Option Text)
  pub session_id : Option Text
  pub trace_id : Option Text
  pub action : Option Text
  pub outcome : Option AuditOutcome
  pub from : Option Text
  pub to : Option Text
  pub limit : Option ℕ

unfoldable pub AuditOutcome-discrete : Discrete AuditOutcome
AuditOutcome-discrete = hlevel

instance abbrev pub outcome_eq : Equality AuditOutcome
outcome_eq = eq_of_discrete AuditOutcome-discrete

-- `query.field === undefined || test`
abbrev wanted {ℓ} : {A : Type ℓ} → Option A → (A → Bool) → Bool
wanted none test = true
wanted (some a) test = test a

unfoldable pub matches : AuditQuery → AuditRecord → Bool
matches query r =
    let e = r.body.envelope in
    wanted query.org_id (λ x. e.org_id == x)
    && wanted query.app_id (λ x. e.app_id == x)
    && wanted query.session_id (λ x. e.session_id == some x)
    && wanted query.trace_id (λ x. e.trace_id == some x)
    && wanted query.action (λ x. e.action == x)
    && wanted query.outcome (λ x. e.outcome == x)
    && wanted query.from (λ x. text_leb x r.body.timestamp)
    && wanted query.to (λ x. not (text_leb x r.body.timestamp))

-- Of a limit that is a whole number.
abbrev pub normalize_limit : Option ℕ → ℕ
normalize_limit none = 1000
normalize_limit (some value) = min 10000 (max 1 value)

unfoldable pub query : AuditQuery → List AuditRecord → List AuditRecord
unfolding matches keep
query wanted_ records = take (normalize_limit wanted_.limit) (keep (matches wanted_) records)
