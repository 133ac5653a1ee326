-- ===== src/Memory/Types.antt =====
-- The declarations of kits/debrief/src/memory/plugin.ts.
use kitstack.Base.{
  ℕ, Option, List, Text, Equality, eq_of_discrete, text_instance, option_instance, Dictionary,
}
use kitstack.Dispatch.Types.{Action}

pub data MemoryStatus : Type 0 where
  candidate approved published : MemoryStatus

unfoldable pub MemoryStatus-discrete : Discrete MemoryStatus
MemoryStatus-discrete = hlevel

instance abbrev pub memory_status_eq : Equality MemoryStatus
memory_status_eq = eq_of_discrete MemoryStatus-discrete

-- A value of the context of an input is a text, or of another type.
pub record MemoryWriteInput : Type 0 where
  pub correction : Text
  pub skill : Text
  pub context : Dictionary (Option Text)

pub record MemoryRecord : Type 0 where
  pub memory_id : Text
  pub version_id : Text
  pub org_id : Text
  pub customer_id : Option Text
  pub kit_id : Text
  pub session_id : Option Text
  pub correction : Text
  pub skill : Text
  pub context : Dictionary Text
  pub status : MemoryStatus
  pub created_at : Text
  pub approved_at : Option Text
  pub published_at : Option Text

pub record MemoryContext : Type 0 where
  pub org_id : Text
  pub app_id : Option Text
  pub session_id : Text
  pub trace_id : Text
  pub parent_id : Option Text
  pub kit_id : Text
  pub customer_id : Option Text

pub record MemoryReadQuery : Type 0 where
  pub org_id : Text
  pub kit_id : Text
  pub customer_id : Option Text
  pub session_id : Option Text
  pub context : Option (Dictionary Text)
  pub limit : Option ℕ

-- What `emitRead` and `emitWrite` append, besides its id and time.
pub record MemoryEvent : Type 0 where
  pub type : Text
  pub operation : Text
  pub memory_ids : List Text
  pub context : MemoryContext

abbrev pub Telemetry : Type 0 → Type 0
Telemetry T = MemoryEvent → Action T (Unit {0})
