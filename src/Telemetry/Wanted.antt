-- ===== src/Telemetry/Wanted.antt =====
-- What a query of kits/debrief/src/telemetry/index.ts asks of a row, column by column.
use mathlib.Core.Path.{subst}
use kitstack.Base.{
  ◌≡◌, ◌↔◌, ◌∙◌, refl, Bool, true, false, ◌&&◌, Option, none, some, Text, Equality, text_instance,
  option_instance, eq_iff, and_iff, arith, text_leb,
}
use kitstack.Telemetry.Types.{
  telemetry_type_eq, telemetry_channel_eq, TelemetryEvent, TelemetryQuery,
}
use kitstack.Telemetry.{is_selected, equals_if, equals_or_null, from_on, before_end}

-- Where the query names a value, the column has it.
abbrev Has : {A : Type 0} → Option A → Option A → Type 0
Has {A} asked column = (wanted : A) → asked ≡ some wanted → column ≡ some wanted

-- The same of a column for which the query may name NULL.
abbrev HasOrNull : Option (Option Text) → Option Text → Type 0
HasOrNull asked column = (wanted : Option Text) → asked ≡ some wanted → column ≡ wanted

-- Every column that the query names has the value named, and the time is in its half-open interval.
abbrev pub IsWanted : TelemetryQuery → TelemetryEvent → Type 0
IsWanted query row =
    Has query.org_id (some row.metadata.org_id)
    × HasOrNull query.app_id row.metadata.app_id
    × Has query.customer_id row.metadata.customer_id
    × Has query.session_id row.metadata.session_id
    × Has query.trace_id row.metadata.trace_id
    × HasOrNull query.parent_id row.metadata.parent_id
    × Has query.plugin_id row.metadata.plugin_id
    × Has query.kit_id row.metadata.kit_id
    × Has query.type (some row.metadata.type)
    × Has query.channel (some row.metadata.channel)
    × ((start : Text) → query.from ≡ some start → text_leb start row.metadata.timestamp ≡ true)
    × ((stop : Text) → query.until ≡ some stop → text_leb stop row.metadata.timestamp ≡ false)

Has-iff :
    {A : Type 0} ⦃e : Equality A⦄ (asked column : Option A)
    → (equals_if asked column ≡ true) ↔ Has asked column
Has-iff none column = (λ e wanted asked. absurd (cc asked), λ h. refl)
Has-iff (some x) column = (
  λ e wanted asked. (eq_iff column (some x)).0 e ∙ asked,
  λ h. (eq_iff column (some x)).1 (h x refl),
)

HasOrNull-iff :
    (asked : Option (Option Text)) (column : Option Text)
    → (equals_or_null asked column ≡ true) ↔ HasOrNull asked column
HasOrNull-iff none column = (λ e wanted asked. absurd (cc asked), λ h. refl)
HasOrNull-iff (some x) column =
    (λ e wanted asked. (eq_iff column x).0 e ∙ cc asked, λ h. (eq_iff column x).1 (h x refl))

from_on_iff :
    (asked : Option Text) (timestamp : Text)
    → (from_on asked timestamp ≡ true)
      ↔ ((start : Text) → asked ≡ some start → text_leb start timestamp ≡ true)
from_on_iff none timestamp = (λ e start asked. absurd (cc asked), λ h. refl)
from_on_iff (some x) timestamp = (
  λ e start asked. subst (λ z. text_leb z timestamp ≡ true) {x = x} {y = start} (cc asked) e,
  λ h. h x refl,
)

before_end_iff :
    (asked : Option Text) (timestamp : Text)
    → (before_end asked timestamp ≡ true)
      ↔ ((stop : Text) → asked ≡ some stop → text_leb stop timestamp ≡ false)
before_end_iff none timestamp = (λ e stop asked. absurd (cc asked), λ h. refl)
before_end_iff (some x) timestamp = (
  λ e stop asked.
      subst (λ z. text_leb z timestamp ≡ false) {x = x} {y = stop} (cc asked) (ground arith),
  λ h. rw (h x refl) refl,
)

both_iff :
    {P Q : Type 0} {a b : Bool} → (a ≡ true) ↔ P → (b ≡ true) ↔ Q → ((a && b) ≡ true) ↔ (P × Q)
both_iff {a = a} {b = b} p q = (
  λ e. let (x, y) = (and_iff a b).0 e in (p.0 x, q.0 y),
  λ (x, y). (and_iff a b).1 (p.1 x, q.1 y),
)

pub is_selected_iff :
    (query : TelemetryQuery) (row : TelemetryEvent)
    → (is_selected query row ≡ true) ↔ IsWanted query row
unfolding is_selected
is_selected_iff query row =
    let m = row.metadata in
    let all_columns =
      both_iff
        (both_iff
          (both_iff
            (both_iff
              (both_iff
                (both_iff
                  (both_iff
                    (both_iff
                      (both_iff
                        (both_iff
                          (both_iff (Has-iff query.org_id (some m.org_id))
                            (HasOrNull-iff query.app_id m.app_id))
                          (Has-iff query.customer_id m.customer_id))
                        (Has-iff query.session_id m.session_id))
                      (Has-iff query.trace_id m.trace_id))
                    (HasOrNull-iff query.parent_id m.parent_id))
                  (Has-iff query.plugin_id m.plugin_id))
                (Has-iff query.kit_id m.kit_id))
              (Has-iff query.type (some m.type)))
            (Has-iff query.channel (some m.channel)))
          (from_on_iff query.from m.timestamp))
        (before_end_iff query.until m.timestamp) in
    (
      λ e.
          let (((((((((((a, b), c), d), f), g), h), i), j), k), l), n) = all_columns.0 e in
          (a, b, c, d, f, g, h, i, j, k, l, n),
      λ (a, b, c, d, f, g, h, i, j, k, l, n).
          all_columns.1 (((((((((((a, b), c), d), f), g), h), i), j), k), l), n),
    )
