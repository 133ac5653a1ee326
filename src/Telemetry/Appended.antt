-- ===== src/Telemetry/Appended.antt =====
-- What an append of kits/debrief/src/telemetry/index.ts stores, and what a query gives afterwards.
use kitstack.Base.{
  suc, ◌≡◌, ◌⊎◌, inl, inr, refl, Bool, true, false, Option, some, List, [], ◌∷◌, ◌++◌, Text, err,
  Bool-cases, keep, any, head?, ◌==◌, text_instance, eq_refl,
}
use kitstack.Dispatch.Types.{Action}
use kitstack.Telemetry.Types.{
  TelemetryEventInput, TelemetryEvent, TelemetryMetadata, contains_content_field,
}
use kitstack.Telemetry.{
  TelemetryTable, create_telemetry_event, append_event, content_error, exported,
}

head-keep_last :
    {A : Type 0} (p : A → Bool) (xs : List A) (y : A)
    → any p xs ≡ false
    → p y ≡ true
    → head? (keep p (xs ++ y ∷ [])) ≡ some y
unfolding keep
head-keep_last p [] y none_before hit = rw (keep, hit) refl
head-keep_last p (x ∷ xs) y none_before hit = elim (Bool-cases (p x)) [
  | inl first ↦ absurd (cc (rw first at none_before))
  | inr miss ↦ rw (keep, miss) (head-keep_last p xs y (rw miss at none_before) hit)
]

abbrev pub new_event : TelemetryTable → TelemetryMetadata → TelemetryEvent
new_event table event = record { metadata = event; sequence = table.next_sequence }

abbrev pub with_event : TelemetryTable → TelemetryMetadata → TelemetryTable
with_event table event = record {
  rows = table.rows ++ new_event table event ∷ [];
  next_sequence = suc table.next_sequence;
}

module _ {X : Type 0} (exporter : Option (TelemetryEvent → Action X (Unit {0})))
    (on_export_error : Option (Text → TelemetryEvent → Action X (Unit {0}))) (constraint : Text)
    (input : TelemetryEventInput) where
  -- An append throws and changes nothing, since the input has a content field at some depth or an id
  -- that is there already, or it stores the metadata behind the rows, under the next sequence number,
  -- and answers with what the export of the stored event comes to.
  pub append_event_cases :
      (table : TelemetryTable) (x : X)
      → (((contains_content_field input.others ≡ true)
            ⊎ (any (λ r. r.metadata.id == input.metadata.id) table.rows ≡ true))
          × ((m : Text) × (append_event exporter on_export_error constraint input (table, x)
                ≡ (err m, (table, x)))))
        ⊎ ((contains_content_field input.others ≡ false)
            × (any (λ r. r.metadata.id == input.metadata.id) table.rows ≡ false)
            × (append_event exporter on_export_error constraint input (table, x) ≡ (
              (exported exporter on_export_error (new_event table input.metadata) x).0,
              (
                with_event table input.metadata,
                (exported exporter on_export_error (new_event table input.metadata) x).1,
              ),
            )))
  unfolding append_event create_telemetry_event
  append_event_cases table x = elim (Bool-cases (contains_content_field input.others)) [
    | inl content ↦ inl (inl content, (content_error, rw (append_event, content) refl))
    | inr clean ↦ elim (Bool-cases (any (λ r. r.metadata.id == input.metadata.id) table.rows)) [
      | inl there ↦ inl (inr there, (constraint, rw (append_event, clean, there) refl))
      | inr fresh ↦ inr (
        clean,
        fresh,
        rw
            (
              append_event,
              clean,
              fresh,
              head-keep_last (λ r. r.metadata.id == input.metadata.id) table.rows
                  (new_event table input.metadata) fresh (eq_refl input.metadata.id),
            )
            refl,
      )
    ]
  ]
