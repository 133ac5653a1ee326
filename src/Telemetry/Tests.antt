-- ===== src/Telemetry/Tests.antt =====
-- The telemetry of kits/debrief/src/telemetry/index.ts on a few events, and its properties there.
use kitstack.Base.{
  ℕ, suc, ◌≡◌, ◌↔◌, refl, true, none, some, List, [], ◌∷◌, ◌++◌, Text, codes, ok, err, arith,
  text_eq, decide,
}
use kitstack.Dispatch.Types.{Action}
use kitstack.Telemetry.Types.{
  TelemetryMetadata, TelemetryEventInput, TelemetryEvent, TelemetryQuery, TelemetryChannel,
  TelemetryEventType, TelemetryOutcome, Value, Entries, TelemetryEventType-discrete,
  contains_content_field,
}
use kitstack.Telemetry.{TelemetryTable, is_selected, query_events, append_event}
use kitstack.Telemetry.Newest.{IsNumbered, IsNewest}
use kitstack.Telemetry.Wanted.{IsWanted}
use kitstack.Telemetry.History.{
  TelemetryCall, append_call, recorded_all, recorded, recorded_all-IsNewest,
  append_event-query_events,
}

-- An exporter that always fails, and a handler that counts the failures.
abbrev failing : TelemetryEvent → Action ℕ (Unit {0})
failing event n = (err (codes "down"), n)

abbrev counting : Text → TelemetryEvent → Action ℕ (Unit {0})
counting message event n = (ok tt, suc n)

abbrev metadata_of : Text → TelemetryMetadata
metadata_of id = record {
  id = id;
  timestamp = codes "2026";
  org_id = codes "org";
  customer_id = none;
  app_id = none;
  principal = none;
  actor = none;
  delegation = none;
  session_id = none;
  parent_id = none;
  trace_id = none;
  channel = TelemetryChannel.mcp;
  plugin_id = none;
  kit_id = none;
  type = TelemetryEventType.mcp_tool_call;
  operation = codes "call";
  model = none;
  provider = none;
  call_id = none;
  request_tokens = some 3;
  response_tokens = none;
  latency_ms = none;
  estimated_cost_usd = none;
  routing_reason = none;
  cancellation_reason = none;
  timeout_reason = none;
  outcome = TelemetryOutcome.success;
  instruction_versions = none;
  memory_ids = none;
}

abbrev input_with : Text → TelemetryEventInput
input_with id = record { metadata = metadata_of id; others = Entries.no_entries }

abbrev event_of : Text → ℕ → TelemetryEvent
event_of id sequence = record { metadata = metadata_of id; sequence = sequence }

abbrev query : TelemetryQuery
query = record {
  org_id = some (codes "org");
  customer_id = none;
  app_id = some none;
  session_id = none;
  trace_id = none;
  parent_id = none;
  plugin_id = none;
  kit_id = none;
  type = some TelemetryEventType.mcp_tool_call;
  channel = none;
  from = some (codes "2025");
  until = none;
  limit = some 2;
}

abbrev table : TelemetryTable
table = record { rows = event_of (codes "a") 1 ∷ event_of (codes "b") 2 ∷ []; next_sequence = 3 }

abbrev calls : List TelemetryCall
calls =
    append_call (codes "UNIQUE") (input_with (codes "a"))
    ∷ append_call (codes "UNIQUE") (input_with (codes "b"))
    ∷ append_call (codes "UNIQUE") (input_with (codes "a"))
    ∷ append_call (codes "UNIQUE") (input_with (codes "c"))
    ∷ []

-- Three of the four are stored, and the last two of them are given.
test_query :
    query_events query
      (recorded_all
        (some failing)
        (some counting)
        calls
        (record { rows = []; next_sequence = 1 }, 0)).0.rows
    ≡ event_of (codes "b") 2 ∷ event_of (codes "c") 3 ∷ []
unfolding query_events recorded text_eq decide TelemetryEventType-discrete
test_query = refl

-- A content field below an object and an array is found.
test_content :
    contains_content_field (
      Entries.entry
        (codes "a")
        (Value.nested (
          Entries.entry
            (codes "0")
            (Value.nested (Entries.entry (codes "toolArgs") Value.scalar Entries.no_entries))
            Entries.no_entries))
        Entries.no_entries)
    ≡ true
unfolding contains_content_field text_eq
test_content = refl

stored :
    (append_event
      (some failing)
      (some counting)
      (codes "UNIQUE")
      (input_with (codes "c"))
      (table, 0)).0
    ≡ ok (event_of (codes "c") 3)
unfolding append_event text_eq contains_content_field
stored = refl

selected : is_selected query (event_of (codes "c") 3) ≡ true
unfolding is_selected text_eq decide TelemetryEventType-discrete
selected = refl

table-IsNumbered : IsNumbered table
table-IsNumbered = record {
  ascending = ((omega arith, tt), (tt, tt));
  below = (omega arith, (omega arith, tt));
}

recorded_all-IsNewest_example :
    IsNewest query
      (recorded_all
        (some failing)
        (some counting)
        calls
        (record { rows = []; next_sequence = 1 }, 0)).0.rows
      (query_events query
        (recorded_all
          (some failing)
          (some counting)
          calls
          (record { rows = []; next_sequence = 1 }, 0)).0.rows)
    × ((row : TelemetryEvent) → (is_selected query row ≡ true) ↔ IsWanted query row)
recorded_all-IsNewest_example = recorded_all-IsNewest (some failing) (some counting) calls 1 0 query

append_event-query_events_example :
    (earlier : List TelemetryEvent) × (query_events query
        (append_event
          (some failing)
          (some counting)
          (codes "UNIQUE")
          (input_with (codes "c"))
          (table, 0)).1.0.rows
      ≡ earlier ++ event_of (codes "c") 3 ∷ [])
append_event-query_events_example =
    append_event-query_events (some failing) (some counting) (codes "UNIQUE")
      (input_with (codes "c")) table 0 (event_of (codes "c") 3) query table-IsNumbered stored
      selected
