-- ===== src/Telemetry.antt =====
-- `TelemetryStore` of kits/debrief/src/telemetry/index.ts over its table, with `createTelemetryEvent` of
-- packages/sdk/src/telemetry.ts. The rows stand in the order of their insertion; lists of texts are shown
-- as the lists that their JSON encodes. The exporter and the handler of its errors are actions.
pub mod Types
pub mod Newest
pub mod Wanted
mod Tests
pub mod History
pub mod Appended
use kitstack.Base.{
  ℕ, suc, ltb, Bool, true, false, ◌||◌, ◌&&◌, not, Option, none, some, List, [], ◌∷◌, ◌++◌, reverse,
  Text, codes, Result, ok, err, or_else, if◌then◌else◌, ◌==◌, Equality, text_instance,
  option_instance, any, keep, take, head?, min, max, text_leb, order_by,
}
use kitstack.Dispatch.Types.{Action}
use kitstack.Telemetry.Types.{
  telemetry_type_eq, telemetry_channel_eq, TelemetryMetadata, TelemetryEventInput, TelemetryEvent,
  TelemetryQuery, contains_content_field,
}

-- `column = ?`, which no NULL answers, where the query names the column.
abbrev pub equals_if : {A : Type 0} ⦃e : Equality A⦄ → Option A → Option A → Bool
equals_if none column = true
equals_if (some wanted) column = column == some wanted

-- `column IS NULL` or `column = ?`
abbrev pub equals_or_null : Option (Option Text) → Option Text → Bool
equals_or_null none column = true
equals_or_null (some wanted) column = column == wanted

abbrev pub from_on : Option Text → Text → Bool
from_on none timestamp = true
from_on (some start) timestamp = text_leb start timestamp

abbrev pub before_end : Option Text → Text → Bool
before_end none timestamp = true
before_end (some stop) timestamp = not (text_leb stop timestamp)

-- `buildWhere`
unfoldable pub is_selected : TelemetryQuery → TelemetryEvent → Bool
unfolding text_leb
is_selected query row =
    let m = row.metadata in
    equals_if query.org_id (some m.org_id)
    && equals_or_null query.app_id m.app_id
    && equals_if query.customer_id m.customer_id
    && equals_if query.session_id m.session_id
    && equals_if query.trace_id m.trace_id
    && equals_or_null query.parent_id m.parent_id
    && equals_if query.plugin_id m.plugin_id
    && equals_if query.kit_id m.kit_id
    && equals_if query.type (some m.type)
    && equals_if query.channel (some m.channel)
    && from_on query.from m.timestamp
    && before_end query.until m.timestamp

-- Of a limit that is a whole number.
abbrev pub query_limit : Option ℕ → ℕ
query_limit none = 1000
query_limit (some value) = min 10000 (max 1 value)

-- `ORDER BY sequence DESC`
abbrev pub later_first : TelemetryEvent → TelemetryEvent → Bool
later_first a b = ltb b.sequence a.sequence

unfoldable pub query_events : TelemetryQuery → List TelemetryEvent → List TelemetryEvent
unfolding is_selected keep order_by
query_events query rows =
    reverse (take (query_limit query.limit) (order_by later_first (keep (is_selected query) rows)))

-- The table, with the number that AUTOINCREMENT gives next, and the world of the exporter.
pub record TelemetryTable : Type 0 where
  pub rows : List TelemetryEvent
  pub next_sequence : ℕ

abbrev pub TelemetryState : Type 0 → Type 0
TelemetryState X = TelemetryTable × X

abbrev pub content_error : Text
content_error =
    codes
      "Telemetry events must contain metadata only; prompts, completions, audio, transcripts, and tool payloads are not accepted"

unfoldable pub create_telemetry_event : TelemetryEventInput → Result Text TelemetryMetadata
unfolding contains_content_field
create_telemetry_event input =
    if contains_content_field input.others then err content_error else ok input.metadata

module _ {X : Type 0} (exporter : Option (TelemetryEvent → Action X (Unit {0})))
    (on_export_error : Option (Text → TelemetryEvent → Action X (Unit {0}))) where
  abbrev pub report : Text → TelemetryEvent → X → Result Text TelemetryEvent × X
  report message stored x = elim on_export_error [
    | none ↦ (ok stored, x)
    | some handler ↦
        let out = handler message stored x in
        elim out.0 [ ok _ ↦ (ok stored, out.1) | err other ↦ (err other, out.1) ]
  ]

  abbrev pub exported : TelemetryEvent → X → Result Text TelemetryEvent × X
  exported stored x = elim exporter [
    | none ↦ (ok stored, x)
    | some export ↦
        let out = export stored x in
        elim out.0 [ ok _ ↦ (ok stored, out.1) | err message ↦ report message stored out.1 ]
  ]

  -- `constraint` is the error of the database on an id that is there already.
  unfoldable pub append_event :
      (constraint : Text) → TelemetryEventInput → Action (TelemetryState X) TelemetryEvent
  unfolding create_telemetry_event keep
  append_event constraint input (table, x) = elim (create_telemetry_event input) [
    | err message ↦ (err message, (table, x))
    | ok event ↦
        if any (λ r. r.metadata.id == event.id) table.rows
        then (err constraint, (table, x))
        else (let added : TelemetryTable = record {
          rows = table.rows ++ (record { metadata = event; sequence = table.next_sequence }) ∷ [];
          next_sequence = suc table.next_sequence;
        } in
            elim (head? (keep (λ r. r.metadata.id == event.id) added.rows)) [
              | none ↦ (
                err (codes "Telemetry event was not readable after append: " ++ event.id),
                (added, x),
              )
              | some stored ↦ let out = exported stored x in (out.0, (added, out.1))
            ])
  ]

abbrev pub reset_table : TelemetryTable → TelemetryTable
reset_table table = record table { rows = [] }
