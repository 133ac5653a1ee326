-- ===== src/Memory/Operations.antt =====
-- The public operations of `MemoryStore` in kits/debrief/src/memory/plugin.ts as one type.
use kitstack.Base.{List, [], ◌∷◌, Text}
use kitstack.Memory.Types.{
  MemoryStatus, MemoryWriteInput, MemoryContext, MemoryReadQuery, Telemetry,
}
use kitstack.Memory.{MemoryState, write_candidate, transition, read_relevant, reset}

-- Each with the generated ids and the reading of the clock that it takes.
pub data MemoryRequest : Type 0 where
  write :
      (memory_id version_id created_at : Text) → MemoryWriteInput → MemoryContext → MemoryRequest
  approve publish : (memory_id timestamp : Text) → MemoryContext → MemoryRequest
  search_for : MemoryReadQuery → MemoryContext → MemoryRequest
  clear_all : MemoryContext → MemoryRequest

module _ {T : Type 0} (telemetry : Telemetry T) (constraint : Text) where
  -- The store after an operation, whether it returns or throws.
  unfoldable pub served : MemoryRequest → MemoryState T → MemoryState T
  unfolding write_candidate transition read_relevant reset
  served (MemoryRequest.write memory_id version_id created_at input context) s =
      (write_candidate telemetry constraint memory_id version_id created_at input context s).1
  served (MemoryRequest.approve memory_id timestamp context) s =
      (transition telemetry MemoryStatus.approved memory_id timestamp context s).1
  served (MemoryRequest.publish memory_id timestamp context) s =
      (transition telemetry MemoryStatus.published memory_id timestamp context s).1
  served (MemoryRequest.search_for query context) s = (read_relevant telemetry query context s).1
  served (MemoryRequest.clear_all context) s = (reset telemetry context s).1

  -- The store after the operations, the latest first.
  abbrev pub served_all : List MemoryRequest → MemoryState T → MemoryState T
  served_all [] s = s
  served_all (r ∷ past) s = served r (served_all past s)
