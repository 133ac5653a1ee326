-- ===== src/Router/Trace.antt =====
-- packages/mcp-server/src/router/trace-context.ts: the W3C `traceparent` header. A header that is
-- not a string is `none`; the hexadecimal texts of `randomBytes` are arguments.
pub mod RoundTrip
use kitstack.Base.{
  ℕ, Bool, true, false, ◌&&◌, ◌||◌, not, Option, none, some, List, [], ◌∷◌, ◌++◌, Text, codes, trim,
  length, all, any, leb, ltb, nat_eq, if◌then◌else◌, ◌==◌, text_instance,
}

pub record TraceparentContext : Type 0 where
  pub trace_id : Text
  pub parent_id : Option Text
  pub traceparent : Text

-- `[0-9a-f]`
unfoldable pub is_hex : ℕ → Bool
is_hex c = (leb 48 c && leb c 57) || (leb 97 c && leb c 102)

-- `/^[0-9a-f]{n}$/`
unfoldable pub is_hex_text : ℕ → Text → Bool
unfolding is_hex
is_hex_text n s = nat_eq (length s) n && all is_hex s

-- `/^[0-9a-f]+$/`
unfoldable pub is_hex_field : Text → Bool
unfolding is_hex
is_hex_field s = ltb 0 (length s) && all is_hex s

-- `/^0+$/`
unfoldable pub is_zero : Text → Bool
is_zero s = ltb 0 (length s) && all (nat_eq 48) s

-- `value.split("-")`, from the end of the text.
unfoldable pub add_to : ℕ → List Text → List Text
add_to c [] = (c ∷ []) ∷ []
add_to c (part ∷ parts) = if nat_eq c 45 then [] ∷ part ∷ parts else (c ∷ part) ∷ parts

unfoldable pub split_dashes : Text → List Text
unfolding add_to
split_dashes [] = [] ∷ []
split_dashes (c ∷ s) = add_to c (split_dashes s)

-- What is wrong with the four fields and those that follow them.
unfoldable pub is_malformed : Text → Text → Text → Text → List Text → Bool
unfolding is_hex_text is_hex_field is_zero
is_malformed version trace_id parent_id flags extra =
    not (is_hex_text 2 version)
    || version == codes "ff"
    || not (is_hex_text 32 trace_id)
    || is_zero trace_id
    || not (is_hex_text 16 parent_id)
    || is_zero parent_id
    || not (is_hex_text 2 flags)
    || (version == codes "00" && ltb 0 (length extra))
    || any (λ field. not (is_hex_field field)) extra

unfoldable pub parse_parts : Text → List Text → Option TraceparentContext
unfolding is_malformed
parse_parts input (version ∷ trace_id ∷ parent_id ∷ flags ∷ extra) =
    if is_malformed version trace_id parent_id flags extra
    then none
    else some (record { trace_id = trace_id; parent_id = some parent_id; traceparent = input })
parse_parts input _ = none

unfoldable pub parse_traceparent : Option Text → Option TraceparentContext
unfolding trim split_dashes parse_parts
parse_traceparent none = none
parse_traceparent (some value) =
    let input = trim value in
    if nat_eq (length input) 0 || ltb 512 (length input)
    then none
    else parse_parts input (split_dashes input)

unfoldable pub valid_trace_id : Option Text → Option Text
unfolding is_hex_text is_zero
valid_trace_id none = none
valid_trace_id (some value) =
    if is_hex_text 32 value && not (is_zero value) then some value else none

unfoldable pub valid_parent_id : Option Text → Option Text
unfolding is_hex_text is_zero
valid_parent_id none = none
valid_parent_id (some value) =
    if is_hex_text 16 value && not (is_zero value) then some value else none

-- `00-${traceId}-${parentId}-01`
unfoldable pub traceparent_text : Text → Text → Text
traceparent_text trace_id parent_id =
    codes "00-" ++ (trace_id ++ (codes "-" ++ (parent_id ++ codes "-01")))

unfoldable pub traceparent_from_ids : Option Text → Option Text → Option Text
unfolding valid_trace_id valid_parent_id traceparent_text
traceparent_from_ids trace_id parent_id = elim (valid_trace_id trace_id) [
  | none ↦ none
  | some t ↦ elim (valid_parent_id parent_id) [ none ↦ none | some p ↦ some (traceparent_text t p) ]
]

-- A new root: `random_trace` and `random_parent` are the results of the two calls of `randomHex`.
unfoldable pub fresh_context : Text → Text → TraceparentContext
unfolding traceparent_text
fresh_context trace_id parent_id = record {
  trace_id = trace_id;
  parent_id = some parent_id;
  traceparent = traceparent_text trace_id parent_id;
}

unfoldable pub resolve_traceparent : Text → Text → Option Text → Option Text → TraceparentContext
unfolding parse_traceparent fresh_context valid_trace_id
resolve_traceparent random_trace random_parent inbound legacy = elim (parse_traceparent inbound) [
  | some parsed ↦ parsed
  | none ↦ elim (valid_trace_id legacy) [
    | some trace_id ↦ fresh_context trace_id random_parent
    | none ↦ fresh_context random_trace random_parent
  ]
]
