-- ===== src/Scheduler/Operations.antt =====
-- The operations of kits/debrief/src/scheduler/index.ts as one type, what a well-formed
-- table is, and what the WHERE clauses say of a row's status.
pub mod Preserved
use mathlib.Core.Path.{subst, ◌∙◌}
use kitstack.Base.{
  ℕ, ◌+◌, ◌≡◌, ◌≢◌, ◌⊎◌, refl, sym, ap, Bool, true, false, not, ◌&&◌, ◌||◌, Option, none, some,
  List, [], ◌∷◌, ◌++◌, Text, map, any, keep, All, All-append, All-keep, if◌then◌else◌, ◌==◌,
  text_instance, option_instance, eq_iff, Bool-cases, Option-cases, inl, inr, Result, ok, err,
  arith, update_where, and_iff, map-update_where, All-update_where, IsUnique, IsUnique-append,
  IsUnique-map-keep, is_blank, ltb, or_else, Memᴰ,
}
use kitstack.Scheduler.Types.{
  ScheduledCallStatus, ScheduledCallRecord, ScheduleCallInput, ClaimDueInput, CompleteCallInput,
  FailCallInput, Platform, status_eq, scheduled, starting, started, failed,
}
use kitstack.Scheduler.Table.{Table, Answer, checked, earliest}
use kitstack.Scheduler.Store.{
  schedule, upsert, new_call, reschedules, rescheduled, claim_due, claim_now, claim, expire,
  expired, claimed, is_expired, is_chosen, is_due, settle, complete, may_complete, is_owned,
  completed, fail, given_up, reset, id_taken,
}

pub data Operation : Type 0 where
  schedule_call : (timestamp fresh_id : Text) → ScheduleCallInput → Operation
  claim_call : ClaimDueInput → Operation
  complete_call : CompleteCallInput → Operation
  fail_call : FailCallInput → Operation
  reset_calls : (org_id : Text) → Operation

-- The table after an operation, whether it threw or not.
unfoldable pub run : Platform → Operation → Table → Table
unfolding schedule claim_due complete fail reset
run platform (schedule_call timestamp fresh_id input) table =
    (schedule platform timestamp fresh_id input table).1
run platform (claim_call input) table = (claim_due platform input table).1
run platform (complete_call input) table = (complete input table).1
run platform (fail_call input) table = (fail input table).1
run platform (reset_calls org_id) table = reset org_id table

-- The columns that go with each status. A call is attempted once at most, and only a call that is
-- being started has a lease.
abbrev pub IsConsistentAt : ScheduledCallStatus → ScheduledCallRecord → Type 0
IsConsistentAt scheduled r =
    (r.attempt_count ≡ 0)
    × (r.lease_owner ≡ none)
    × (r.lease_expires_at ≡ none)
    × (r.provider_call_id ≡ none)
    × (r.error ≡ none)
IsConsistentAt starting r =
    (r.attempt_count ≡ 1)
    × ((w : Text) × (r.lease_owner ≡ some w))
    × ((t : Text) × (r.lease_expires_at ≡ some t))
    × (r.provider_call_id ≡ none)
    × (r.error ≡ none)
IsConsistentAt started r =
    (r.attempt_count ≡ 1) × (r.lease_owner ≡ none) × (r.lease_expires_at ≡ none) × (r.error ≡ none)
IsConsistentAt failed r =
    (r.attempt_count ≡ 1)
    × (r.lease_owner ≡ none)
    × (r.lease_expires_at ≡ none)
    × (r.provider_call_id ≡ none)
    × ((e : Text) × (r.error ≡ some e))

abbrev pub IsConsistent : ScheduledCallRecord → Type 0
IsConsistent r = IsConsistentAt r.status r

abbrev pub id_of : ScheduledCallRecord → Text
id_of r = r.scheduled_call_id

abbrev pub session_of : ScheduledCallRecord → Text
session_of r = r.session_id

pub record IsWellFormed (table : Table) : Type 0 where
  pub ids : IsUnique (map id_of table)
  pub sessions : IsUnique (map session_of table)
  pub consistent : All IsConsistent table

-- The statuses that the WHERE clauses ask for.
module _ (r : ScheduledCallRecord) where
  pub is_expired-status : (o now : Text) → is_expired o now r ≡ true → r.status ≡ starting
  unfolding is_expired
  is_expired-status o now h = ground (arith, eq_iff r.status starting)

  pub is_chosen-status :
      (input : ClaimDueInput) (id : Text) → is_chosen input id r ≡ true → r.status ≡ scheduled
  unfolding is_chosen
  is_chosen-status input id h = ground (arith, eq_iff r.status scheduled)

  pub is_owned-status : (o id w : Text) → is_owned o id w r ≡ true → r.status ≡ starting
  unfolding is_owned
  is_owned-status o id w h = ground (arith, eq_iff r.status starting)

  pub may_complete-is_owned :
      (input : CompleteCallInput)
      → may_complete input r ≡ true
      → is_owned input.org_id input.scheduled_call_id input.worker_id r ≡ true
  unfolding may_complete
  may_complete-is_owned input h = ground arith

pub reschedules-status :
    (new r : ScheduledCallRecord) → reschedules new r ≡ true → r.status ≡ scheduled
reschedules-status new r h = ground (arith, eq_iff r.status scheduled)

one_of_three :
    {X : Type 0} (session id first : Bool) (refused changed added : X)
    → let x =
        if id && (first || not session) then refused else if session then changed else added in
      (x ≡ refused)
      ⊎ ((session ≡ true) × (x ≡ changed))
      ⊎ ((session ≡ false) × (id ≡ false) × (x ≡ added))
one_of_three true true true refused changed added = inl refl
one_of_three true true false refused changed added = inr (inl (refl, refl))
one_of_three true false first refused changed added = inr (inl (refl, refl))
one_of_three false true true refused changed added = inl refl
one_of_three false true false refused changed added = inl refl
one_of_three false false first refused changed added = inr (inr (refl, refl, refl))

-- An insertion fails, reschedules the session's call, or adds the row.
pub upsert_cases :
    (platform : Platform) (new : ScheduledCallRecord) (table : Table)
    → (upsert platform new table ≡ (err id_taken, table))
      ⊎ ((any (λ r. r.session_id == new.session_id) table ≡ true)
          × (upsert platform new table
              ≡ (ok tt, update_where (reschedules new) (rescheduled new) table)))
      ⊎ ((any (λ r. r.session_id == new.session_id) table ≡ false)
          × (any (λ r. r.scheduled_call_id == new.scheduled_call_id) table ≡ false)
          × (upsert platform new table ≡ (ok tt, table ++ new ∷ [])))
unfolding upsert
upsert_cases platform new table =
    one_of_three (any (λ r. r.session_id == new.session_id) table)
      (any (λ r. r.scheduled_call_id == new.scheduled_call_id) table) platform.id_index_first
      (err id_taken, table) (ok tt, update_where (reschedules new) (rescheduled new) table)
      (ok tt, table ++ new ∷ [])
