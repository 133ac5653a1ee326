-- ===== src/Audit/Json.antt =====
-- `JSON.stringify` as `canonicalAuditRecord` of packages/sdk/src/audit.ts uses it: an object of
-- strings, numbers, Booleans and nulls, with one object inside.
use Prim.Native.Nat.{◌/◌, ◌%◌}
use kitstack.Base.{
  ℕ, ◌+◌, Bool, true, false, ◌||◌, ◌&&◌, Option, none, some, List, [], ◌∷◌, ◌++◌, map, Text, codes,
  decimal, leb, ltb, nat_eq, if◌then◌else◌,
}
use kitstack.Audit.Types.{AuditAttributeValue, AuditAttributes, AuditOutcome, Unhashed, Platform}

abbrev hex_digit : ℕ → ℕ
hex_digit d = if ltb d 10 then 48 + d else 87 + d

-- `\uXXXX`
abbrev unicode_escape : ℕ → Text
unicode_escape c =
    92
    ∷ 117
    ∷ hex_digit (c / 4096 % 16)
    ∷ hex_digit (c / 256 % 16)
    ∷ hex_digit (c / 16 % 16)
    ∷ hex_digit (c % 16)
    ∷ []

-- A code unit that needs no surrogate partner, inside the quotes.
unfoldable pub escaped : ℕ → Text
escaped c =
    if nat_eq c 34 || nat_eq c 92
    then 92 ∷ c ∷ []
    else if nat_eq c 8
    then codes "\\b"
    else if nat_eq c 9
    then codes "\\t"
    else if nat_eq c 10
    then codes "\\n"
    else if nat_eq c 12
    then codes "\\f"
    else if nat_eq c 13
    then codes "\\r"
    else if ltb c 32
    then unicode_escape c
    else c ∷ []

abbrev is_lead : ℕ → Bool
is_lead c = leb 0xd800 c && ltb c 0xdc00

abbrev is_trail : ℕ → Bool
is_trail c = leb 0xdc00 c && ltb c 0xe000

-- A leading surrogate waits for its partner; a surrogate without one is escaped.
abbrev waiting : ℕ → Option ℕ
waiting c = if is_lead c then some c else none

abbrev shown : ℕ → Text
shown c = if is_lead c then [] else if is_trail c then unicode_escape c else escaped c

unfoldable pub quoted_after : Option ℕ → Text → Text
unfolding escaped
quoted_after none [] = []
quoted_after (some lead) [] = unicode_escape lead
quoted_after none (c ∷ s) = shown c ++ quoted_after (waiting c) s
quoted_after (some lead) (c ∷ s) =
    (if is_trail c then lead ∷ c ∷ [] else unicode_escape lead ++ shown c)
    ++ quoted_after (if is_trail c then none else waiting c) s

unfoldable pub json_string : Text → Text
unfolding quoted_after
json_string s = 34 ∷ (quoted_after none s ++ 34 ∷ [])

abbrev json_option : Option Text → Text
json_option none = codes "null"
json_option (some s) = json_string s

abbrev json_value : AuditAttributeValue → Text
json_value (AuditAttributeValue.string s) = json_string s
json_value (AuditAttributeValue.number printed) = printed
json_value (AuditAttributeValue.boolean true) = codes "true"
json_value (AuditAttributeValue.boolean false) = codes "false"
json_value AuditAttributeValue.null = codes "null"

abbrev members : List (Text × Text) → Text
members [] = []
members ((key, value) ∷ []) = json_string key ++ (58 ∷ value)
members ((key, value) ∷ rest) = json_string key ++ (58 ∷ (value ++ (44 ∷ members rest)))

-- An object of values that are already JSON.
abbrev pub json_object : List (Text × Text) → Text
json_object entries = 123 ∷ (members entries ++ 125 ∷ [])

abbrev outcome_text : AuditOutcome → Text
outcome_text AuditOutcome.success = codes "success"
outcome_text AuditOutcome.failure = codes "failure"
outcome_text AuditOutcome.denied = codes "denied"

unfoldable pub insert_attribute :
    (Text → Text → Bool) → Text × AuditAttributeValue → AuditAttributes → AuditAttributes
insert_attribute leb_ a [] = a ∷ []
insert_attribute leb_ a (b ∷ rest) =
    let later = insert_attribute leb_ a rest in if leb_ a.0 b.0 then a ∷ b ∷ rest else b ∷ later

-- The sort of the entries, for keys that are no array indices.
unfoldable pub sort_attributes : (Text → Text → Bool) → AuditAttributes → AuditAttributes
unfolding insert_attribute
sort_attributes leb_ [] = []
sort_attributes leb_ (a ∷ rest) = insert_attribute leb_ a (sort_attributes leb_ rest)

unfoldable pub canonical_audit_record : Platform → Unhashed → Text
unfolding json_string sort_attributes decimal
canonical_audit_record platform r =
    let e = r.envelope in
    json_object (
      (codes "sequence", decimal r.sequence)
      ∷ (codes "eventId", json_string r.event_id)
      ∷ (codes "timestamp", json_string r.timestamp)
      ∷ (codes "orgId", json_string e.org_id)
      ∷ (codes "appId", json_option e.app_id)
      ∷ (codes "principal", json_string e.principal)
      ∷ (codes "actor", json_string e.actor)
      ∷ (codes "delegation", json_option e.delegation)
      ∷ (codes "sessionId", json_option e.session_id)
      ∷ (codes "traceId", json_option e.trace_id)
      ∷ (codes "parentId", json_option e.parent_id)
      ∷ (codes "channel", json_option e.channel)
      ∷ (codes "kitId", json_option e.kit_id)
      ∷ (codes "pluginId", json_option e.plugin_id)
      ∷ (codes "action", json_string e.action)
      ∷ (codes "outcome", json_string (outcome_text e.outcome))
      ∷ (codes "errorCode", json_option e.error_code)
      ∷ (codes "resultHash", json_option e.result_hash)
      ∷ (
        codes "attributes",
        json_object
            (map (λ a. (a.0, json_value a.1)) (sort_attributes platform.locale_leb e.attributes)),
      )
      ∷ (codes "previousHash", json_option r.previous_hash)
      ∷ [])

unfoldable pub hash_audit_record : Platform → Unhashed → Text
unfolding canonical_audit_record
hash_audit_record platform r = platform.sha256 (canonical_audit_record platform r)
