-- ===== src/Memory.antt =====
-- `MemoryStore` of kits/debrief/src/memory/plugin.ts: its table and the statements that it executes.
-- The column `context_json` is shown as the object that it encodes, with its keys in any order. The
-- generated ids and the clock's readings are arguments; the telemetry store is an action.
pub mod Types
pub mod Select
pub mod Approved
pub mod Operations
pub mod Answers
pub mod Complete
pub mod Readable
pub mod Fitting
mod Tests
use kitstack.Base.{
  order_by, ℕ, zero, suc, Bool, true, false, ◌||◌, ◌&&◌, not, Option, none, some, List, [], ◌∷◌,
  ◌++◌, map, Text, codes, Result, ok, err, if◌then◌else◌, ◌==◌, Equality, eq_of_discrete,
  text_instance, option_instance, or_else, any, all, keep, take, head?, is_blank, text_leb, min,
  max, update_where, delete_where, Dictionary, map_get,
}
use kitstack.Dispatch.Types.{Action, pure, bind}
use kitstack.Memory.Types.{
  MemoryStatus, MemoryStatus-discrete, memory_status_eq, MemoryWriteInput, MemoryRecord,
  MemoryContext, MemoryReadQuery, MemoryEvent, Telemetry,
}
use kitstack.Memory.Select.{
  context_matches, normalize_limit, newest_first, is_owned, find_owned, is_released, fits,
  is_relevant, in_context, relevant,
}

abbrev is_known : Text × Option Text → Bool
is_known (key, none) = false
is_known (key, some value) = not (is_blank key)

abbrev text_entries : Dictionary (Option Text) → Dictionary Text
text_entries [] = []
text_entries ((key, value) ∷ rest) = (key, or_else value []) ∷ text_entries rest

unfoldable pub assert_write_input : MemoryWriteInput → Option Text
unfolding is_blank
assert_write_input input =
    if is_blank input.correction
    then some (codes "Memory correction must not be empty")
    else if is_blank input.skill
    then some (codes "Memory skill must not be empty")
    else if all is_known input.context
    then none
    else some (codes "Memory context must contain non-empty string keys and values")

-- The store: the rows of its table, and the telemetry.
abbrev pub MemoryState : Type 0 → Type 0
MemoryState T = List MemoryRecord × T

abbrev pub told :
    {T A : Type 0}
    → A
    → List MemoryRecord
    → Result Text (Unit {0}) × T
    → Result Text A × MemoryState T
told value rows (ok _, t) = (ok value, (rows, t))
told value rows (err message, t) = (err message, (rows, t))

abbrev pub new_memory :
    (memory_id version_id created_at : Text) → MemoryWriteInput → MemoryContext → MemoryRecord
new_memory memory_id version_id created_at input context = record {
  memory_id = memory_id;
  version_id = version_id;
  org_id = context.org_id;
  customer_id = context.customer_id;
  kit_id = context.kit_id;
  session_id = some context.session_id;
  correction = input.correction;
  skill = input.skill;
  context = text_entries input.context;
  status = MemoryStatus.candidate;
  created_at = created_at;
  approved_at = none;
  published_at = none;
}

-- What a transition to `status` wants of the record that is there.
abbrev pub source_of : MemoryStatus → MemoryStatus
source_of MemoryStatus.published = MemoryStatus.approved
source_of _ = MemoryStatus.candidate

abbrev pub moved : MemoryStatus → Text → MemoryRecord → MemoryRecord
moved MemoryStatus.published timestamp r = record r {
  status = MemoryStatus.published;
  published_at = some timestamp;
}
moved status timestamp r = record r { status = status; approved_at = some timestamp }

abbrev pub operation_of : MemoryStatus → Text
operation_of MemoryStatus.published = codes "publish"
operation_of _ = codes "approve"

abbrev pub not_found : Text → Text
not_found memory_id =
    codes "Memory \"" ++ (memory_id ++ codes "\" was not found for this organization and kit")

abbrev pub wrong_status : MemoryStatus → Text → Text
wrong_status MemoryStatus.published memory_id =
    codes "Memory \"" ++ (memory_id ++ codes "\" must be approved before publishing")
wrong_status _ memory_id = codes "Memory \"" ++ (memory_id ++ codes "\" is not a candidate")

-- The record after the statement, which is read again.
abbrev pub updated :
    {T : Type 0}
    → Text
    → MemoryContext
    → Result Text (Unit {0}) × MemoryState T
    → Result Text MemoryRecord × MemoryState T
updated memory_id context (err message, s) = (err message, s)
updated memory_id context (ok _, (rows, t)) = elim (find_owned memory_id context rows) [
  | none ↦
      (err (codes "Memory \"" ++ (memory_id ++ codes "\" disappeared after transition")), (rows, t))
  | some r ↦ (ok r, (rows, t))
]

abbrev pub in_kit : MemoryContext → MemoryRecord → Bool
in_kit context r = r.org_id == context.org_id && r.kit_id == context.kit_id

-- `[...new Set(ids)]`
abbrev distinct : List Text → List Text → List Text
distinct seen [] = []
distinct seen (x ∷ xs) =
    if any (λ y. y == x) seen then distinct seen xs else x ∷ distinct (x ∷ seen) xs

abbrev oldest_first : MemoryRecord → MemoryRecord → Bool
oldest_first a b =
    not (text_leb b.created_at a.created_at)
    || (a.created_at == b.created_at
        && (not (text_leb b.memory_id a.memory_id)
            || (a.memory_id == b.memory_id && text_leb a.version_id b.version_id)))

module _ {T : Type 0} (telemetry : Telemetry T) where
  abbrev pub emit_write :
      {A : Type 0}
      → A
      → Text
      → List Text
      → MemoryContext
      → List MemoryRecord
      → T
      → Result Text A × MemoryState T
  emit_write value operation memory_ids context rows t = told value rows (
      telemetry
        (record {
          type = codes "memory.write";
          operation = operation;
          memory_ids = memory_ids;
          context = context;
        })
        t)

  abbrev pub emit_read :
      {A : Type 0}
      → A
      → List Text
      → MemoryContext
      → List MemoryRecord
      → T
      → Result Text A × MemoryState T
  emit_read value memory_ids context rows t = told value rows (
      telemetry
        (record {
          type = codes "memory.read";
          operation = codes "read_relevant";
          memory_ids = memory_ids;
          context = context;
        })
        t)

  -- `constraint` is the error of the database on a version that is there already.
  unfoldable pub write_candidate :
      (constraint memory_id version_id created_at : Text)
      → MemoryWriteInput
      → MemoryContext
      → Action (MemoryState T) MemoryRecord
  unfolding assert_write_input
  write_candidate constraint memory_id version_id created_at input context (rows, t) =
      let row = new_memory memory_id version_id created_at input context in
      elim (assert_write_input input) [
        | some message ↦ (err message, (rows, t))
        | none ↦
            if any (λ r. r.version_id == version_id) rows
            then (err constraint, (rows, t))
            else emit_write row (codes "write_candidate") (memory_id ∷ []) context
                (rows ++ row ∷ []) t
      ]

  unfoldable pub transition :
      MemoryStatus
      → (memory_id timestamp : Text) → MemoryContext
      → Action (MemoryState T) MemoryRecord
  unfolding find_owned update_where
  transition status memory_id timestamp context (rows, t) =
      elim (find_owned memory_id context rows) [
        | none ↦ (err (not_found memory_id), (rows, t))
        | some existing ↦
            if existing.status == source_of status
            then updated memory_id context (
                emit_write tt (operation_of status) (memory_id ∷ []) context
                  (update_where (is_owned memory_id context) (moved status timestamp) rows) t)
            else (err (wrong_status status memory_id), (rows, t))
      ]

  unfoldable pub read_relevant :
      MemoryReadQuery → MemoryContext → Action (MemoryState T) (List MemoryRecord)
  unfolding relevant
  read_relevant query context (rows, t) =
      if not (query.org_id == context.org_id) || not (query.kit_id == context.kit_id)
      then (err (codes "Memory query must match the event context organization and kit"), (rows, t))
      else (let records = relevant query rows in
          emit_read records (map (λ r. r.memory_id) records) context rows t)

  unfoldable pub reset : MemoryContext → Action (MemoryState T) (Unit {0})
  unfolding keep order_by text_leb
  reset context (rows, t) =
      emit_write tt (codes "reset")
        (distinct [] (map (λ r. r.memory_id) (order_by oldest_first (keep (in_kit context) rows))))
        context (keep (λ r. not (in_kit context r)) rows) t
