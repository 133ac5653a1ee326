-- ===== src/Telemetry/History.antt =====
-- The store of kits/debrief/src/telemetry/index.ts after any appends and resets.
use mathlib.Core.List.{reverse-append, reverse-cons}
use kitstack.Base.{
  ℕ, suc, ◌≡◌, ◌↔◌, inl, inr, refl, sym, ap, ◌∙◌, ◌<◌, ◌-◌, min, max, Bool, true, Option, none,
  some, List, [], ◌∷◌, ◌++◌, reverse, Text, ok, Bool-cases, Option-cases, Result-cases,
  ok_injective, arith, take, keep, All, All-append, order_by, text_instance,
}
use kitstack.Dispatch.Types.{Action}
use kitstack.Telemetry.Types.{
  TelemetryEventInput, TelemetryEvent, TelemetryQuery, TelemetryMetadata,
}
use kitstack.Telemetry.{
  is_selected, query_limit, later_first, query_events, TelemetryTable, TelemetryState, append_event,
  exported, report, reset_table,
}
use kitstack.Telemetry.Newest.{
  IsAscending, IsNumbered, IsNewest, query_events-IsNewest, IsAscending-keep, order_by-ascending,
}
use kitstack.Telemetry.Wanted.{IsWanted, is_selected_iff}
use kitstack.Telemetry.Appended.{new_event, with_event, append_event_cases}

pub data TelemetryCall : Type 0 where
  append_call : (constraint : Text) → TelemetryEventInput → TelemetryCall
  reset_call : TelemetryCall

IsAscending-append :
    (rows : List TelemetryEvent) (y : TelemetryEvent)
    → IsAscending rows
    → All (λ r. r.sequence < y.sequence) rows
    → IsAscending (rows ++ y ∷ [])
IsAscending-append [] y h below = (tt, tt)
IsAscending-append (x ∷ xs) y (first, rest) (b, bs) = (
  All-append (λ r. x.sequence < r.sequence) xs (y ∷ []) first (b, tt),
  IsAscending-append xs y rest bs,
)

All-raise :
    (n : ℕ) (rows : List TelemetryEvent)
    → All (λ r. r.sequence < n) rows
    → All (λ r. r.sequence < suc n) rows
All-raise n [] h = tt
All-raise n (x ∷ xs) (h, hs) = (omega (arith, h), All-raise n xs hs)

with_event-IsNumbered :
    (table : TelemetryTable) (event : TelemetryMetadata)
    → IsNumbered table
    → IsNumbered (with_event table event)
with_event-IsNumbered table event h = record {
  ascending = IsAscending-append table.rows (new_event table event) h.ascending h.below;
  below =
      All-append (λ r. r.sequence < suc table.next_sequence) table.rows (new_event table event ∷ [])
        (All-raise table.next_sequence table.rows h.below) (omega arith, tt);
}

module _ {X : Type 0} (exporter : Option (TelemetryEvent → Action X (Unit {0})))
    (on_export_error : Option (Text → TelemetryEvent → Action X (Unit {0}))) where
  unfoldable pub recorded : TelemetryCall → TelemetryState X → TelemetryState X
  unfolding append_event
  recorded (append_call constraint input) s =
      (append_event exporter on_export_error constraint input s).1
  recorded reset_call (table, x) = (reset_table table, x)

  abbrev pub recorded_all : List TelemetryCall → TelemetryState X → TelemetryState X
  recorded_all [] s = s
  recorded_all (call ∷ rest) s = recorded_all rest (recorded call s)

  append_event-IsNumbered :
      (constraint : Text) (input : TelemetryEventInput) (table : TelemetryTable) (x : X)
      → IsNumbered table
      → IsNumbered (append_event exporter on_export_error constraint input (table, x)).1.0
  append_event-IsNumbered constraint input table x h =
      elim (append_event_cases exporter on_export_error constraint input table x) [
        | inl (why, (m, same)) ↦ rw same h
        | inr (clean, fresh, same) ↦ rw same (with_event-IsNumbered table input.metadata h)
      ]

  recorded_all-IsNumbered :
      (calls : List TelemetryCall) (s : TelemetryState X)
      → IsNumbered s.0
      → IsNumbered (recorded_all calls s).0
  unfolding recorded
  recorded_all-IsNumbered [] s h = h
  recorded_all-IsNumbered (append_call constraint input ∷ rest) (table, x) h =
      recorded_all-IsNumbered rest _ (append_event-IsNumbered constraint input table x h)
  recorded_all-IsNumbered (reset_call ∷ rest) (table, x) h =
      recorded_all-IsNumbered rest (reset_table table, x) (record { ascending = tt; below = tt })

  -- After any appends and resets on an empty table, whatever the exporter does, a query gives the last
  -- of the rows that it selects, in the order of their insertion: all of them, or as many as its
  -- limit, clamped to 1 to 10000, allows. A row is
  -- selected exactly when each column that the query names has the value named, and its time is not
  -- before the query's start and before its end, where these are named.
  pub recorded_all-IsNewest :
      (calls : List TelemetryCall) (next_sequence : ℕ) (x : X) (query : TelemetryQuery)
      → IsNewest query
          (recorded_all calls (record { rows = []; next_sequence = next_sequence }, x)).0.rows
          (query_events query
            (recorded_all calls (record { rows = []; next_sequence = next_sequence }, x)).0.rows)
        × ((row : TelemetryEvent) → (is_selected query row ≡ true) ↔ IsWanted query row)
  recorded_all-IsNewest calls next_sequence x query =
      let start : TelemetryTable = record { rows = []; next_sequence = next_sequence } in
      (
        query_events-IsNewest query (recorded_all calls (start, x)).0.rows
            (recorded_all-IsNumbered calls (start, x)
              (record { ascending = tt; below = tt })).ascending,
        is_selected_iff query,
      )

  exported_ok :
      (stored : TelemetryEvent) (x : X) (event : TelemetryEvent)
      → (exported exporter on_export_error stored x).0 ≡ ok event
      → event ≡ stored
  exported_ok stored x event h = elim (Option-cases exporter) [
    | inl silent ↦ sym (ok_injective (rw (exported, silent) at h))
    | inr (export, loud) ↦ elim (Result-cases (export stored x).0) [
      | inr (u, good) ↦ sym (ok_injective (rw (exported, loud, good) at h))
      | inl (m, bad) ↦ elim (Option-cases on_export_error) [
        | inl silent ↦ sym (ok_injective (rw (exported, loud, bad, report, silent) at h))
        | inr (handler, told) ↦ elim (Result-cases (handler m stored (export stored x).1).0) [
          | inr (u, good) ↦ sym (ok_injective (rw (exported, loud, bad, report, told, good) at h))
          | inl (n, worse) ↦ absurd (cc (rw (exported, loud, bad, report, told, worse) at h))
        ]
      ]
    ]
  ]

  keep-append_hit :
      (p : TelemetryEvent → Bool) (rows : List TelemetryEvent) (y : TelemetryEvent)
      → p y ≡ true
      → keep p (rows ++ y ∷ []) ≡ keep p rows ++ y ∷ []
  unfolding keep
  keep-append_hit p [] y hit = rw (keep, hit) refl
  keep-append_hit p (x ∷ xs) y hit = elim (Bool-cases (p x)) [
    | inl first ↦ rw (keep, first) (ap (λ zs. x ∷ zs) (keep-append_hit p xs y hit))
    | inr miss ↦ rw (keep, miss) (keep-append_hit p xs y hit)
  ]

  query_limit-suc : (limit : Option ℕ) → (k : ℕ) × (query_limit limit ≡ suc k)
  query_limit-suc none = (999, refl)
  query_limit-suc (some value) = (min 9999 (max 1 value - 1), omega arith)

  -- When an append returns an event, every query on the table that it leaves that selects this event
  -- gives it last.
  pub append_event-query_events :
      (constraint : Text) (input : TelemetryEventInput) (table : TelemetryTable) (x : X)
      (event : TelemetryEvent) (query : TelemetryQuery)
      → IsNumbered table
      → (append_event exporter on_export_error constraint input (table, x)).0 ≡ ok event
      → is_selected query event ≡ true
      → (earlier : List TelemetryEvent) × (query_events query
            (append_event exporter on_export_error constraint input (table, x)).1.0.rows
          ≡ earlier ++ event ∷ [])
  unfolding query_events
  append_event-query_events constraint input table x event query h answered selected =
      elim (append_event_cases exporter on_export_error constraint input table x) [
        | inl (why, (m, same)) ↦ absurd (cc (rw same at answered))
        | inr (clean, fresh, same) ↦
            let stored : event ≡ new_event table input.metadata =
              exported_ok (new_event table input.metadata) x event (rw same at answered) in
            let rows' = table.rows ++ new_event table input.metadata ∷ [] in
            let chosen = keep (is_selected query) table.rows in
            let kept : keep (is_selected query) rows'
                ≡ chosen ++ new_event table input.metadata ∷ [] =
              keep-append_hit (is_selected query) table.rows (new_event table input.metadata)
                (rw stored at selected) in
            let grown = (with_event-IsNumbered table input.metadata h).ascending in
            let sorted : order_by later_first (keep (is_selected query) rows')
                ≡ new_event table input.metadata ∷ reverse chosen =
              order_by-ascending (keep (is_selected query) rows')
                (IsAscending-keep (is_selected query) rows' grown)
              ∙ ap reverse kept
              ∙ reverse-append chosen (new_event table input.metadata ∷ []) in
            let (k, limit) = query_limit-suc query.limit in
            (
              reverse (take k (reverse chosen)),
              rw (same, stored, sorted, limit)
                  (reverse-cons (new_event table input.metadata) (take k (reverse chosen))),
            )
      ]
