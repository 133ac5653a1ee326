-- ===== src/Memory/Tests.antt =====
-- `MemoryStore` of kits/debrief/src/memory/plugin.ts on a short run, and its properties there.
use kitstack.Base.{
  ◌≡◌, refl, none, some, List, [], ◌∷◌, Text, codes, ok, Memᴰ, ◌↔◌, length, ◌≤◌, arith, keep, All,
  text_eq, decide,
}
use kitstack.Memory.Types.{
  MemoryWriteInput, MemoryStatus, MemoryStatus-discrete, MemoryRecord, MemoryContext,
  MemoryReadQuery, Telemetry,
}
use kitstack.Memory.Select.{is_relevant, normalize_limit}
use kitstack.Memory.{MemoryState, read_relevant}
use kitstack.Memory.Operations.{MemoryRequest, served, served_all}
use kitstack.Memory.Readable.{IsReadable}
use kitstack.Memory.Fitting.{IsFitting}
use kitstack.Memory.Answers.{read_relevant-IsReadable, read_relevant_complete}

-- A telemetry that keeps the operations that it is told of, the latest first.
abbrev telemetry : Telemetry (List Text)
telemetry event operations = (ok tt, event.operation ∷ operations)

abbrev context : MemoryContext
context = record {
  org_id = codes "org";
  app_id = none;
  session_id = codes "s";
  trace_id = codes "t";
  parent_id = none;
  kit_id = codes "kit";
  customer_id = some (codes "c");
}

abbrev input : MemoryWriteInput
input = record {
  correction = codes "call later";
  skill = codes "sales";
  context = (codes "stage", some (codes "lead")) ∷ [];
}

-- Two candidates, of which the first is approved.
abbrev past : List MemoryRequest
past =
    MemoryRequest.approve (codes "m1") (codes "3") context
    ∷ MemoryRequest.write (codes "m2") (codes "v2") (codes "2") input context
    ∷ MemoryRequest.write (codes "m1") (codes "v1") (codes "1") input context
    ∷ []

abbrev query : MemoryReadQuery
query = record {
  org_id = codes "org";
  kit_id = codes "kit";
  customer_id = some (codes "c");
  session_id = none;
  context = some ((codes "stage", codes "lead") ∷ []);
  limit = some 0;
}

abbrev approved_memory : MemoryRecord
approved_memory = record {
  memory_id = codes "m1";
  version_id = codes "v1";
  org_id = codes "org";
  customer_id = some (codes "c");
  kit_id = codes "kit";
  session_id = some (codes "s");
  correction = codes "call later";
  skill = codes "sales";
  context = (codes "stage", codes "lead") ∷ [];
  status = MemoryStatus.approved;
  created_at = codes "1";
  approved_at = some (codes "3");
  published_at = none;
}

abbrev store : MemoryState (List Text)
store = served_all telemetry (codes "UNIQUE") past ([], [])

abbrev stored : List MemoryRecord
stored = store.0

abbrev after : MemoryState (List Text)
unfolding served read_relevant
after = (read_relevant telemetry query context store).1

answered : read_relevant telemetry query context store ≡ (ok (approved_memory ∷ []), after)
unfolding served read_relevant text_eq decide MemoryStatus-discrete
answered = refl

found_one : length (keep (is_relevant query) store.0) ≤ normalize_limit query.limit
unfolding served keep text_eq decide MemoryStatus-discrete
found_one = omega arith

read_relevant-IsReadable_example :
    (codes "org" ≡ codes "org")
    × (codes "kit" ≡ codes "kit")
    × (length (approved_memory ∷ []) ≤ normalize_limit query.limit)
    × All (IsReadable past query) (approved_memory ∷ [])
read_relevant-IsReadable_example =
    read_relevant-IsReadable telemetry (codes "UNIQUE") past [] query context (approved_memory ∷ [])
      after answered

read_relevant_complete_example :
    Memᴰ approved_memory (approved_memory ∷ [])
    ↔ (Memᴰ approved_memory store.0 × IsFitting query approved_memory)
read_relevant_complete_example =
    read_relevant_complete telemetry (codes "UNIQUE") past [] query context (approved_memory ∷ [])
      after approved_memory answered found_one
