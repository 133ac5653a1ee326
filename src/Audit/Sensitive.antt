-- ===== src/Audit/Sensitive.antt =====
-- `assertMetadataOnlyAudit` of packages/sdk/src/audit.ts.
use kitstack.Base.{
  ℕ, ◌+◌, Bool, ◌||◌, ◌&&◌, List, [], ◌∷◌, ◌++◌, map, Text, codes, any, leb, nat_eq, if◌then◌else◌,
  ◌==◌, text_instance, option_instance, nat_instance, Result, ok, err, ◌>>◌,
}
use kitstack.Audit.Types.{AuditEventInput}

abbrev is_key_gap : ℕ → Bool
is_key_gap c =
    (leb 9 c && leb c 13)
    || nat_eq c 32
    || nat_eq c 45
    || nat_eq c 160
    || nat_eq c 0x1680
    || (leb 0x2000 c && leb c 0x200a)
    || nat_eq c 0x2028
    || nat_eq c 0x2029
    || nat_eq c 0x202f
    || nat_eq c 0x205f
    || nat_eq c 0x3000
    || nat_eq c 0xfeff

-- Lower case of the ASCII letters; no other letter becomes one that a sensitive key has.
unfoldable pub normalize_key : Text → Text
normalize_key key =
    map (λ c. if is_key_gap c then 95 else if leb 65 c && leb c 90 then c + 32 else c) key

abbrev pub sensitive_keys : List Text
sensitive_keys =
    codes "prompt"
    ∷ codes "completion"
    ∷ codes "transcript"
    ∷ codes "audio"
    ∷ codes "recording"
    ∷ codes "toolargs"
    ∷ codes "tool_args"
    ∷ codes "toolpayload"
    ∷ codes "tool_payload"
    ∷ codes "toolresult"
    ∷ codes "tool_result"
    ∷ codes "arguments"
    ∷ codes "payload"
    ∷ codes "body"
    ∷ codes "content"
    ∷ []

unfoldable pub is_sensitive : Text → Bool
unfolding normalize_key
is_sensitive key = any (λ s. s == normalize_key key) sensitive_keys

-- A loop over keys that throws at the first sensitive one.
unfoldable pub refuse_sensitive : Text → List Text → Result Text (Unit {0})
unfolding is_sensitive
refuse_sensitive what [] = ok tt
refuse_sensitive what (key ∷ keys) =
    let rest = refuse_sensitive what keys in
    if is_sensitive key
    then err (
        codes "Audit store accepts metadata only; "
        ++ (what ++ (codes " \"" ++ (key ++ codes "\" is not allowed"))))
    else rest

unfoldable pub assert_metadata_only_audit : AuditEventInput → Result Text (Unit {0})
unfolding refuse_sensitive
assert_metadata_only_audit input =
    refuse_sensitive (codes "field") input.keys
    >> refuse_sensitive (codes "attribute") (map (λ a. a.0) input.envelope.attributes)
