-- ===== src/Scheduler/Operations/Preserved.antt =====
-- What each operation of kits/debrief/src/scheduler/index.ts keeps of the table: unique ids, unique
-- sessions, and columns that fit a row's status.
use mathlib.Core.Path.{subst, ◌∙◌}
use kitstack.Base.{
  ◌≡◌, refl, sym, ap, Bool, true, false, not, Option, none, some, [], ◌∷◌, ◌++◌, Text, map, any,
  keep, All-append, All-keep, ◌==◌, text_instance, option_instance, inl, inr, Result, ok, err,
  arith, update_where, map-update_where, All-update_where, IsUnique-append, IsUnique-map-keep,
}
use kitstack.Scheduler.Types.{
  ScheduledCallStatus, ScheduledCallRecord, ScheduleCallInput, ClaimDueInput, CompleteCallInput,
  FailCallInput, Platform, status_eq, scheduled, starting,
}
use kitstack.Scheduler.Table.{Table, Answer, checked, earliest}
use kitstack.Scheduler.Store.{
  schedule, upsert, new_call, reschedules, rescheduled, claim_due, claim_now, claim, expire,
  expired, claimed, is_expired, is_chosen, is_due, settle, complete, may_complete, is_owned,
  completed, fail, given_up, reset,
}
use kitstack.Scheduler.Operations.{
  Operation, run, schedule_call, claim_call, complete_call, fail_call, reset_calls, IsConsistentAt,
  IsConsistent, id_of, session_of, IsWellFormed, is_expired-status, is_chosen-status,
  is_owned-status, may_complete-is_owned, reschedules-status, upsert_cases,
}

-- An update that leaves the ids and sessions, and takes consistent rows to consistent rows.
update_where-IsWellFormed :
    (p : ScheduledCallRecord → Bool) (f : ScheduledCallRecord → ScheduledCallRecord) (table : Table)
    → ((r : ScheduledCallRecord) → id_of (f r) ≡ id_of r)
    → ((r : ScheduledCallRecord) → session_of (f r) ≡ session_of r)
    → ((r : ScheduledCallRecord) → p r ≡ true → IsConsistent r → IsConsistent (f r))
    → IsWellFormed table
    → IsWellFormed (update_where p f table)
update_where-IsWellFormed p f table same_id same_session step w = record {
  ids = rw (map-update_where p f id_of table same_id) w.ids;
  sessions = rw (map-update_where p f session_of table same_session) w.sessions;
  consistent = All-update_where p f IsConsistent table step w.consistent;
}

at_status :
    (r : ScheduledCallRecord) {s : ScheduledCallStatus}
    → r.status ≡ s
    → IsConsistent r
    → IsConsistentAt s r
at_status r {s} e c = subst (λ t. IsConsistentAt t r) e c

expired_lem :
    (now : Text) (r : ScheduledCallRecord)
    → r.status ≡ starting
    → IsConsistent r
    → IsConsistent (expired now r)
expired_lem now r e c =
    let (one, _, _, provider, _) = at_status r e c in (one, refl, refl, provider, (_, refl))

claimed_lem :
    (input : ClaimDueInput) (lease : Text) (r : ScheduledCallRecord)
    → r.status ≡ scheduled
    → IsConsistent r
    → IsConsistent (claimed input lease r)
claimed_lem input lease r e c =
    let (none_yet, _, _, provider, error) = at_status r e c in
    (omega (arith, none_yet), (_, refl), (_, refl), provider, error)

completed_lem :
    (input : CompleteCallInput) (r : ScheduledCallRecord)
    → r.status ≡ starting
    → IsConsistent r
    → IsConsistent (completed input r)
completed_lem input r e c = ((at_status r e c).0, refl, refl, refl)

given_up_lem :
    (input : FailCallInput) (r : ScheduledCallRecord)
    → r.status ≡ starting
    → IsConsistent r
    → IsConsistent (given_up input r)
given_up_lem input r e c =
    let (one, _, _, provider, _) = at_status r e c in (one, refl, refl, provider, (_, refl))

rescheduled_lem :
    (new r : ScheduledCallRecord)
    → r.status ≡ scheduled
    → IsConsistent r
    → IsConsistent (rescheduled new r)
rescheduled_lem new r e c =
    subst (λ t. IsConsistentAt t (rescheduled new r)) (sym e) (at_status r e c)

pub expire-IsWellFormed :
    (input : ClaimDueInput) (table : Table) → IsWellFormed table → IsWellFormed (expire input table)
unfolding expire
expire-IsWellFormed input table w =
    update_where-IsWellFormed (is_expired input.org_id input.now) (expired input.now) table
      (λ r. refl) (λ r. refl)
      (λ r hit c. expired_lem input.now r (is_expired-status r input.org_id input.now hit) c) w

claim-IsWellFormed :
    (input : ClaimDueInput) (lease : Text) (best : Option ScheduledCallRecord) (table : Table)
    → IsWellFormed table
    → IsWellFormed (claim input lease best table).1
unfolding claim
claim-IsWellFormed input lease none table w = w
claim-IsWellFormed input lease (some best) table w =
    update_where-IsWellFormed (is_chosen input best.scheduled_call_id) (claimed input lease) table
      (λ r. refl) (λ r. refl)
      (λ r hit c. claimed_lem input lease r (is_chosen-status r input best.scheduled_call_id hit) c)
      w

checked-IsWellFormed :
    {A B : Type 0} (r : Result Text A) (table : Table) (k : A → Answer B)
    → IsWellFormed table
    → ((a : A) → IsWellFormed (k a).1)
    → IsWellFormed (checked r table k).1
checked-IsWellFormed (ok a) table k w h = h a
checked-IsWellFormed (err message) table k w h = w

new_call_lem :
    (input : ScheduleCallInput) (timestamp fresh_id : Text)
    → IsConsistent (new_call input timestamp fresh_id)
new_call_lem input timestamp fresh_id = (refl, refl, refl, refl, refl)

any-map :
    {K : Type 0} (key : ScheduledCallRecord → K) (q : K → Bool) (table : Table)
    → any q (map key table) ≡ any (λ r. q (key r)) table
any-map key q [] = refl
any-map key q (x ∷ xs) = rw (any-map key q xs) refl

map-append :
    {K : Type 0} (key : ScheduledCallRecord → K) (table : Table) (r : ScheduledCallRecord)
    → map key (table ++ r ∷ []) ≡ map key table ++ key r ∷ []
map-append key [] r = refl
map-append key (x ∷ xs) r = ap (λ l. key x ∷ l) (map-append key xs r)

appended :
    (new : ScheduledCallRecord) (table : Table)
    → IsConsistent new
    → any (λ r. r.session_id == new.session_id) table ≡ false
    → any (λ r. r.scheduled_call_id == new.scheduled_call_id) table ≡ false
    → IsWellFormed table
    → IsWellFormed (table ++ new ∷ [])
appended new table c no_session no_id w = record {
  ids = rw (map-append id_of table new) (
      IsUnique-append (map id_of table) new.scheduled_call_id w.ids
        (any-map id_of (λ k. k == new.scheduled_call_id) table ∙ no_id));
  sessions = rw (map-append session_of table new) (
      IsUnique-append (map session_of table) new.session_id w.sessions
        (any-map session_of (λ k. k == new.session_id) table ∙ no_session));
  consistent = All-append IsConsistent table (new ∷ []) w.consistent (c, tt);
}

upsert-IsWellFormed :
    (platform : Platform) (new : ScheduledCallRecord) (table : Table)
    → IsConsistent new
    → IsWellFormed table
    → IsWellFormed (upsert platform new table).1
upsert-IsWellFormed platform new table c w = elim (upsert_cases platform new table) [
  | inl refused ↦ rw refused w
  | inr (inl (old, changed)) ↦ rw changed (
      update_where-IsWellFormed (reschedules new) (rescheduled new) table (λ r. refl) (λ r. refl)
        (λ r hit k. rescheduled_lem new r (reschedules-status new r hit) k) w)
  | inr (inr (fresh, free, added)) ↦ rw added (appended new table c fresh free w)
]

reset-IsWellFormed :
    (org_id : Text) (table : Table) → IsWellFormed table → IsWellFormed (reset org_id table)
unfolding reset
reset-IsWellFormed org_id table w =
    let p = λ (r : ScheduledCallRecord). not (r.org_id == org_id) in
    record {
      ids = IsUnique-map-keep id_of p table w.ids;
      sessions = IsUnique-map-keep session_of p table w.sessions;
      consistent = All-keep IsConsistent p table w.consistent;
    }

schedule-IsWellFormed :
    (platform : Platform) (timestamp fresh_id : Text) (input : ScheduleCallInput) (table : Table)
    → IsWellFormed table
    → IsWellFormed (schedule platform timestamp fresh_id input table).1
unfolding schedule
schedule-IsWellFormed platform timestamp fresh_id input table w =
    let new = new_call input timestamp fresh_id in
    let w' = upsert-IsWellFormed platform new table (new_call_lem input timestamp fresh_id) w in
    checked-IsWellFormed _ table _ w (λ _.
      checked-IsWellFormed (upsert platform new table).0 (upsert platform new table).1 _ w'
        (λ _. w'))

claim_due-IsWellFormed :
    (platform : Platform) (input : ClaimDueInput) (table : Table)
    → IsWellFormed table
    → IsWellFormed (claim_due platform input table).1
unfolding claim_due claim_now
claim_due-IsWellFormed platform input table w = checked-IsWellFormed _ table _ w (λ lease.
    claim-IsWellFormed input lease
      (earliest (keep (is_due input.org_id input.now) (expire input table))) (expire input table)
      (expire-IsWellFormed input table w))

complete-IsWellFormed :
    (input : CompleteCallInput) (table : Table)
    → IsWellFormed table
    → IsWellFormed (complete input table).1
unfolding complete settle
complete-IsWellFormed input table w =
    update_where-IsWellFormed (may_complete input) (completed input) table (λ r. refl) (λ r. refl)
      (λ r hit c.
        completed_lem input r
          (is_owned-status r input.org_id input.scheduled_call_id input.worker_id
            (may_complete-is_owned r input hit))
          c)
      w

fail-IsWellFormed :
    (input : FailCallInput) (table : Table) → IsWellFormed table → IsWellFormed (fail input table).1
unfolding fail settle
fail-IsWellFormed input table w = checked-IsWellFormed _ table _ w (λ _.
    update_where-IsWellFormed (is_owned input.org_id input.scheduled_call_id input.worker_id)
      (given_up input) table (λ r. refl) (λ r. refl)
      (λ r hit c.
        given_up_lem input r
          (is_owned-status r input.org_id input.scheduled_call_id input.worker_id hit) c)
      w)

-- Every operation, whether it succeeds or throws, keeps a table well-formed: ids and sessions are
-- unique, and the columns fit the status. In particular a call that is not scheduled has been
-- attempted exactly once, and only a call that is starting has a lease.
pub run-IsWellFormed :
    (platform : Platform) (op : Operation) (table : Table)
    → IsWellFormed table
    → IsWellFormed (run platform op table)
unfolding run
run-IsWellFormed platform (schedule_call timestamp fresh_id input) table w =
    schedule-IsWellFormed platform timestamp fresh_id input table w
run-IsWellFormed platform (claim_call input) table w = claim_due-IsWellFormed platform input table w
run-IsWellFormed platform (complete_call input) table w = complete-IsWellFormed input table w
run-IsWellFormed platform (fail_call input) table w = fail-IsWellFormed input table w
run-IsWellFormed platform (reset_calls org_id) table w = reset-IsWellFormed org_id table w
