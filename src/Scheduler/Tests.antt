-- ===== src/Scheduler/Tests.antt =====
-- Runs of the call scheduler of kits/debrief/src/scheduler/index.ts on a small table, and its
-- properties at those inputs.
use kitstack.Base.{
  ◌≡◌, ◌⊎◌, refl, true, not, none, some, List, [], ◌∷◌, ◌++◌, Text, codes, is_blank, ok, err,
  text_eq, decide, IsUnique, text_instance, Memᴰ, text_leb,
}
use kitstack.Scheduler.Types.{
  ScheduledCallRecord, ScheduleCallInput, ClaimDueInput, CompleteCallInput, FailCallInput, Platform,
  ScheduledCallStatus-discrete, scheduled, starting,
}
use kitstack.Scheduler.Table.{Table}
use kitstack.Scheduler.Store.{
  schedule, claim_due, complete, fail, given_up, lease_end, expire, claimed, completed, not_owned,
}
use kitstack.Scheduler.Operations.{Operation, run, claim_call, complete_call, IsWellFormed}
use kitstack.Scheduler.Operations.Preserved.{run-IsWellFormed}
use kitstack.Scheduler.Claims.{claim_due_cases, IsDue, IsTaken, taken}
use kitstack.Scheduler.Once.{claims, claims-IsUnique}
use kitstack.Scheduler.Leases.{IsHeld, IsRunning, Around, complete_cases, fail_cases}
use kitstack.Scheduler.Tenants.{run-others, others}

-- Dates that are not blank, with a later one for every lease.
abbrev platform : Platform
platform = record {
  is_timestamp = λ t. not (is_blank t);
  add_ms = λ t ms. ok (t ++ codes "+30s");
  id_index_first = true;
}

abbrev waiting : ScheduledCallRecord
waiting = record {
  scheduled_call_id = codes "c1";
  org_id = codes "a";
  session_id = codes "s1";
  scheduled_at = codes "10:00";
  status = scheduled;
  attempt_count = 0;
  lease_owner = none;
  lease_expires_at = none;
  provider_call_id = none;
  error = none;
  created_at = codes "09:00";
  updated_at = codes "09:00";
}

abbrev in_progress : ScheduledCallRecord
in_progress = record waiting {
  scheduled_call_id = codes "c2";
  session_id = codes "s2";
  status = starting;
  attempt_count = 1;
  lease_owner = some (codes "w");
  lease_expires_at = some (codes "10:30");
}

abbrev table : Table
table = waiting ∷ in_progress ∷ []

table-IsWellFormed : IsWellFormed table
unfolding text_eq decide ScheduledCallStatus-discrete
table-IsWellFormed = record {
  ids = (refl, (refl, tt));
  sessions = (refl, (refl, tt));
  consistent = (
    (refl, refl, refl, refl, refl),
    ((refl, (codes "w", refl), (codes "10:30", refl), refl, refl), tt),
  );
}

abbrev claim_input : ClaimDueInput
claim_input = record {
  org_id = codes "a";
  now = codes "10:05";
  worker_id = codes "w";
  lease_ms = none;
}

abbrev finish_input : CompleteCallInput
finish_input = record {
  org_id = codes "a";
  scheduled_call_id = codes "c2";
  worker_id = codes "w";
  provider_call_id = some (codes "p");
  now = codes "10:10";
}

abbrev stop_input : FailCallInput
stop_input = record {
  org_id = codes "a";
  scheduled_call_id = codes "c2";
  worker_id = codes "w";
  reason = codes "busy";
  now = codes "10:10";
}

abbrev other_org : ScheduleCallInput
other_org = record {
  org_id = codes "b";
  session_id = codes "s1";
  scheduled_at = codes "23:00";
  scheduled_call_id = none;
}

test_claim :
    (claim_due platform claim_input table).0
    ≡ ok (some (claimed claim_input (codes "10:05+30s") waiting))
unfolding claim_due is_blank text_eq text_leb decide ScheduledCallStatus-discrete
test_claim = refl

-- Scheduling a session that another organisation has throws, and yet moves that organisation's call.
test_other_org : schedule platform (codes "11:00") (codes "c3") other_org table ≡ (
  err (codes "Scheduled call for session \"s1\" was not readable after schedule"),
  record waiting { scheduled_at = codes "23:00"; updated_at = codes "11:00" } ∷ in_progress ∷ [],
)
unfolding schedule is_blank text_eq text_leb decide ScheduledCallStatus-discrete
test_other_org = refl

run-IsWellFormed_example : IsWellFormed (run platform (claim_call claim_input) table)
run-IsWellFormed_example =
    run-IsWellFormed platform (claim_call claim_input) table table-IsWellFormed

abbrev ops : List Operation
ops = claim_call claim_input ∷ complete_call finish_input ∷ claim_call claim_input ∷ []

claims-IsUnique_example : IsUnique (claims platform ops table)
claims-IsUnique_example = claims-IsUnique platform ops table table-IsWellFormed (tt, (tt, (tt, tt)))

claim_due_cases_example :
    ((message : Text) × (lease_end platform claim_input ≡ err message)
      × (claim_due platform claim_input table ≡ (err message, table)))
    ⊎ ((lease : Text) × (lease_end platform claim_input ≡ ok lease)
        × ((((y : ScheduledCallRecord) → Memᴰ y table → ¬ IsDue claim_input y)
              × (claim_due platform claim_input table ≡ (ok none, expire claim_input table)))
            ⊎ ((x : ScheduledCallRecord) × IsTaken claim_input table x
                × (claim_due platform claim_input table ≡ (
                  ok (some (claimed claim_input lease x)),
                  taken claim_input table lease x.scheduled_call_id,
                )))))
claim_due_cases_example = claim_due_cases claim_input table platform table-IsWellFormed

complete_cases_example :
    (((r : ScheduledCallRecord)
        → Memᴰ r table
        → ¬ (IsHeld (codes "a") (codes "c2") (codes "w") r × IsRunning finish_input.now r))
      × (complete finish_input table ≡ (err (not_owned (codes "c2") (codes "w")), table)))
    ⊎ ((x : ScheduledCallRecord) × (a : Around table x) × IsHeld
          (codes "a")
          (codes "c2")
          (codes "w")
          x
        × IsRunning finish_input.now x
        × (complete finish_input table
            ≡ (ok (completed finish_input x), a.before ++ completed finish_input x ∷ a.after)))
complete_cases_example = complete_cases finish_input table table-IsWellFormed

abbrev give_up_input : FailCallInput
give_up_input = record {
  org_id = codes "a";
  scheduled_call_id = codes "c2";
  worker_id = codes "w";
  now = codes "10:06";
  reason = codes "busy";
}

fail_cases_example :
    ((is_blank (codes "busy") ≡ true)
      × (fail give_up_input table ≡ (err (codes "reason must not be empty"), table)))
    ⊎ (((r : ScheduledCallRecord) → Memᴰ r table → ¬ IsHeld (codes "a") (codes "c2") (codes "w") r)
        × (fail give_up_input table ≡ (err (not_owned (codes "c2") (codes "w")), table)))
    ⊎ ((x : ScheduledCallRecord) × (a : Around table x) × IsHeld
          (codes "a")
          (codes "c2")
          (codes "w")
          x
        × (fail give_up_input table
            ≡ (ok (given_up give_up_input x), a.before ++ given_up give_up_input x ∷ a.after)))
fail_cases_example = fail_cases give_up_input table table-IsWellFormed

run-others_example :
    others (codes "a") (run platform (claim_call claim_input) table) ≡ others (codes "a") table
run-others_example = run-others platform (claim_call claim_input) table table-IsWellFormed tt
