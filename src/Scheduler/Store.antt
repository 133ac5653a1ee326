-- ===== src/Scheduler/Store.antt =====
-- `LibsqlScheduledCallStore` of kits/debrief/src/scheduler/index.ts. Each operation gives its answer, or the error that it throws, with the
-- table that it leaves. The readings of the clock and the fresh id are arguments.
use kitstack.Base.{
  ℕ, ◌+◌, Bool, true, false, ◌||◌, ◌&&◌, not, Option, none, some, [], ◌∷◌, ◌++◌, Text, codes, any,
  keep, head?, length, or_else, ltb, nat_eq, if◌then◌else◌, ◌==◌, text_instance, option_instance,
  is_blank, Result, ok, err, update_where, text_leb, ◌>>◌,
}
use kitstack.Scheduler.Types.{
  ScheduledCallRecord, ScheduleCallInput, ClaimDueInput, CompleteCallInput, FailCallInput, Platform,
  status_eq, scheduled, starting, started, failed,
}
use kitstack.Scheduler.Table.{
  Table, Answer, assert_non_empty, assert_timestamp, checked, find_by_session, get, earliest,
}

-- `ON CONFLICT(session_id) DO UPDATE … WHERE scheduled_calls.status = 'scheduled'`
abbrev pub reschedules : ScheduledCallRecord → ScheduledCallRecord → Bool
reschedules excluded r = r.session_id == excluded.session_id && r.status == scheduled

abbrev pub rescheduled : ScheduledCallRecord → ScheduledCallRecord → ScheduledCallRecord
rescheduled excluded r = record r {
  scheduled_at = excluded.scheduled_at;
  updated_at = excluded.updated_at;
}

abbrev pub id_taken : Text
id_taken = codes "UNIQUE constraint failed: scheduled_calls.scheduled_call_id"

-- The insertion under the primary key and the unique session.
unfoldable pub upsert : Platform → ScheduledCallRecord → Table → Answer (Unit {0})
unfolding update_where
upsert platform new table =
    let same_session = any (λ r. r.session_id == new.session_id) table in
    let same_id = any (λ r. r.scheduled_call_id == new.scheduled_call_id) table in
    if same_id && (platform.id_index_first || not same_session)
    then (err id_taken, table)
    else if same_session
    then (ok tt, update_where (reschedules new) (rescheduled new) table)
    else (ok tt, table ++ new ∷ [])

abbrev pub new_call : ScheduleCallInput → Text → Text → ScheduledCallRecord
new_call input timestamp fresh_id = record {
  scheduled_call_id = or_else input.scheduled_call_id fresh_id;
  org_id = input.org_id;
  session_id = input.session_id;
  scheduled_at = input.scheduled_at;
  status = scheduled;
  attempt_count = 0;
  lease_owner = none;
  lease_expires_at = none;
  provider_call_id = none;
  error = none;
  created_at = timestamp;
  updated_at = timestamp;
}

-- What was written, read back.
abbrev pub readable : Option ScheduledCallRecord → Text → Result Text ScheduledCallRecord
readable (some r) message = ok r
readable none message = err message

unfoldable pub schedule_checks : Platform → ScheduleCallInput → Result Text (Unit {0})
unfolding is_blank
schedule_checks platform input =
    assert_non_empty input.org_id (codes "orgId")
    >> assert_non_empty input.session_id (codes "sessionId")
    >> assert_timestamp platform input.scheduled_at

unfoldable pub schedule :
    Platform → (timestamp fresh_id : Text) → ScheduleCallInput → Table → Answer ScheduledCallRecord
unfolding schedule_checks upsert keep
schedule platform timestamp fresh_id input table =
    checked (schedule_checks platform input) table (λ _.
      let (written, after) = upsert platform (new_call input timestamp fresh_id) table in
      checked written after (λ _. (
        readable (find_by_session input.org_id input.session_id after) (
            codes "Scheduled call for session \""
            ++ (input.session_id ++ codes "\" was not readable after schedule")),
        after,
      )))

-- The WHERE clauses of `claimDue`.
unfoldable pub is_due : Text → Text → ScheduledCallRecord → Bool
is_due org_id now r = r.org_id == org_id && r.status == scheduled && text_leb r.scheduled_at now

abbrev pub at_most : Option Text → Text → Bool
at_most none now = false
at_most (some expires_at) now = text_leb expires_at now

unfoldable pub is_expired : Text → Text → ScheduledCallRecord → Bool
is_expired org_id now r =
    r.org_id == org_id && r.status == starting && at_most r.lease_expires_at now

abbrev pub expired : Text → ScheduledCallRecord → ScheduledCallRecord
expired now r = record r {
  status = failed;
  error = some (codes "Lease expired while starting call; operator action required");
  lease_owner = none;
  lease_expires_at = none;
  updated_at = now;
}

abbrev pub claimed : ClaimDueInput → Text → ScheduledCallRecord → ScheduledCallRecord
claimed input lease_expires_at r = record r {
  status = starting;
  attempt_count = r.attempt_count + 1;
  lease_owner = some input.worker_id;
  lease_expires_at = some lease_expires_at;
  updated_at = input.now;
}

-- The second statement's test, with the id that its subquery selects.
unfoldable pub is_chosen : ClaimDueInput → Text → ScheduledCallRecord → Bool
is_chosen input id r =
    r.org_id == input.org_id && r.status == scheduled && r.scheduled_call_id == id

-- One statement: the earliest due row, if there is one, is claimed and returned.
unfoldable pub claim :
    ClaimDueInput → Text → Option ScheduledCallRecord → Table → Answer (Option ScheduledCallRecord)
unfolding update_where keep is_chosen
claim input lease_expires_at none table = (ok none, table)
claim input lease_expires_at (some best) table =
    let chosen = is_chosen input best.scheduled_call_id in
    (
      ok (head? (update_where chosen (claimed input lease_expires_at) (keep chosen table))),
      update_where chosen (claimed input lease_expires_at) table,
    )

abbrev pub assert_lease : ℕ → Result Text (Unit {0})
assert_lease lease_ms =
    if ltb 0 lease_ms then ok tt else err (codes "leaseMs must be a positive integer")

unfoldable pub expire : ClaimDueInput → Table → Table
unfolding is_expired update_where
expire input table = update_where (is_expired input.org_id input.now) (expired input.now) table

unfoldable pub claim_now : ClaimDueInput → Text → Table → Answer (Option ScheduledCallRecord)
unfolding expire claim earliest keep is_due
claim_now input lease_expires_at table =
    let swept = expire input table in
    claim input lease_expires_at (earliest (keep (is_due input.org_id input.now) swept)) swept

-- The checks of `claimDue`: when the lease would end, or the error.
unfoldable pub lease_end : Platform → ClaimDueInput → Result Text Text
unfolding is_blank
lease_end platform input =
    assert_non_empty input.org_id (codes "orgId")
    >> assert_non_empty input.worker_id (codes "workerId")
    >> assert_timestamp platform input.now
    >> assert_lease (or_else input.lease_ms 30000)
    >> platform.add_ms input.now (or_else input.lease_ms 30000)

unfoldable pub claim_due : Platform → ClaimDueInput → Table → Answer (Option ScheduledCallRecord)
unfolding claim_now lease_end
claim_due platform input table =
    checked (lease_end platform input) table
      (λ lease_expires_at. claim_now input lease_expires_at table)

abbrev pub not_owned : Text → Text → Text
not_owned id worker_id =
    codes "Scheduled call \""
    ++ (id ++ (codes "\" is no longer owned by worker \"" ++ (worker_id ++ codes "\"")))

abbrev pub after_now : Option Text → Text → Bool
after_now none now = true
after_now (some expires_at) now = not (text_leb expires_at now)

unfoldable pub is_owned : Text → Text → Text → ScheduledCallRecord → Bool
is_owned org_id id worker_id r =
    r.org_id == org_id
    && r.scheduled_call_id == id
    && r.status == starting
    && r.lease_owner == some worker_id

unfoldable pub may_complete : CompleteCallInput → ScheduledCallRecord → Bool
unfolding is_owned
may_complete input r =
    is_owned input.org_id input.scheduled_call_id input.worker_id r
    && after_now r.lease_expires_at input.now

abbrev pub completed : CompleteCallInput → ScheduledCallRecord → ScheduledCallRecord
completed input r = record r {
  status = started;
  provider_call_id = input.provider_call_id;
  lease_owner = none;
  lease_expires_at = none;
  updated_at = input.now;
  error = none;
}

-- `UPDATE` of one row that the worker must own, and reading it back.
unfoldable pub settle :
    (ScheduledCallRecord → Bool)
    → (ScheduledCallRecord → ScheduledCallRecord)
    → (org_id id worker_id ending : Text) → Table
    → Answer ScheduledCallRecord
unfolding update_where keep get
settle p f org_id id worker_id ending table =
    let after = update_where p f table in
    (
      if nat_eq (length (keep p table)) 1
          then readable (get org_id id after)
              (codes "Scheduled call \"" ++ (id ++ (codes "\" disappeared after " ++ ending)))
          else err (not_owned id worker_id),
      after,
    )

unfoldable pub complete : CompleteCallInput → Table → Answer ScheduledCallRecord
unfolding settle may_complete
complete input table =
    settle (may_complete input) (completed input) input.org_id input.scheduled_call_id
      input.worker_id (codes "start") table

abbrev pub given_up : FailCallInput → ScheduledCallRecord → ScheduledCallRecord
given_up input r = record r {
  status = failed;
  error = some input.reason;
  lease_owner = none;
  lease_expires_at = none;
  updated_at = input.now;
}

unfoldable pub fail : FailCallInput → Table → Answer ScheduledCallRecord
unfolding settle is_owned is_blank
fail input table = checked (assert_non_empty input.reason (codes "reason")) table (λ _.
    settle (is_owned input.org_id input.scheduled_call_id input.worker_id) (given_up input)
      input.org_id input.scheduled_call_id input.worker_id (codes "failure") table)

unfoldable pub reset : Text → Table → Table
unfolding keep
reset org_id table = keep (λ r. not (r.org_id == org_id)) table
