-- ===== src/Scheduler/Types.antt =====
-- The records and inputs of kits/debrief/src/scheduler/index.ts.
use kitstack.Base.{ℕ, Option, Text, Bool, Result, Equality, eq_of_discrete}

pub data ScheduledCallStatus : Type 0 where
  scheduled starting started failed : ScheduledCallStatus

unfoldable pub ScheduledCallStatus-discrete : Discrete ScheduledCallStatus
ScheduledCallStatus-discrete = hlevel

instance abbrev pub status_eq : Equality ScheduledCallStatus
status_eq = eq_of_discrete ScheduledCallStatus-discrete

-- A row of `scheduled_calls`.
pub record ScheduledCallRecord : Type 0 where
  pub scheduled_call_id : Text
  pub org_id : Text
  pub session_id : Text
  pub scheduled_at : Text
  pub status : ScheduledCallStatus
  pub attempt_count : ℕ
  pub lease_owner : Option Text
  pub lease_expires_at : Option Text
  pub provider_call_id : Option Text
  pub error : Option Text
  pub created_at : Text
  pub updated_at : Text

pub record ScheduleCallInput : Type 0 where
  pub org_id : Text
  pub session_id : Text
  pub scheduled_at : Text
  pub scheduled_call_id : Option Text

pub record ClaimDueInput : Type 0 where
  pub org_id : Text
  pub now : Text
  pub worker_id : Text
  pub lease_ms : Option ℕ

pub record CompleteCallInput : Type 0 where
  pub org_id : Text
  pub scheduled_call_id : Text
  pub worker_id : Text
  pub provider_call_id : Option Text
  pub now : Text

pub record FailCallInput : Type 0 where
  pub org_id : Text
  pub scheduled_call_id : Text
  pub worker_id : Text
  pub reason : Text
  pub now : Text

-- What the store takes from its surroundings: `Date.parse` and `toISOString`, and which of its two
-- unique indexes SQLite looks at first when a row is in conflict with both.
pub record Platform : Type 0 where
  -- `Number.isFinite(Date.parse(value))`
  pub is_timestamp : Text → Bool
  -- `new Date(Date.parse(value) + ms).toISOString()`, which may be out of range
  pub add_ms : Text → ℕ → Result Text Text
  pub id_index_first : Bool
