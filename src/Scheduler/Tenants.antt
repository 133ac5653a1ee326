-- ===== src/Scheduler/Tenants.antt =====
-- What an operation for one organisation leaves of the others' calls, in
-- kits/debrief/src/scheduler/index.ts.
use mathlib.Core.Path.{subst, ◌∙◌}
use kitstack.Base.{
  ◌≡◌, refl, sym, ap, Bool, true, false, not, ◌&&◌, Option, none, some, Text, codes, keep, ◌==◌,
  text_instance, eq_iff, List-cases, inl, inr, Result, ok, err, arith, update_where, Memᴰ,
  same_of_key, mem-keep, keep-update_where, keep-append_miss, keep-keep, mem-update_where,
  Result-cases,
}
use kitstack.Scheduler.Types.{
  ScheduledCallRecord, ScheduleCallInput, ClaimDueInput, Platform, status_eq,
}
use kitstack.Scheduler.Table.{Table, Answer, checked, earliest, assert_non_empty, find_by_session}
use kitstack.Scheduler.Store.{
  schedule, new_call, reschedules, rescheduled, readable, schedule_checks, claim_due, lease_end,
  is_due, claim_now, claim, expire, expired, claimed, is_expired, is_chosen, complete, settle,
  completed, may_complete, fail, is_owned, given_up, reset,
}
use kitstack.Scheduler.Operations.{
  Operation, run, schedule_call, claim_call, complete_call, fail_call, reset_calls, IsWellFormed,
  session_of, upsert_cases, may_complete-is_owned,
}

-- The rows of the other organisations.
abbrev pub is_other : Text → ScheduledCallRecord → Bool
is_other org_id r = not (r.org_id == org_id)

abbrev pub others : Text → Table → Table
others org_id table = keep (is_other org_id) table

own : (org_id : Text) (r : ScheduledCallRecord) → r.org_id ≡ org_id → is_other org_id r ≡ false
own org_id r e = ground (arith, eq_iff r.org_id org_id)

-- An update of the organisation's own rows.
others-update_where :
    (org_id : Text) (p : ScheduledCallRecord → Bool) (f : ScheduledCallRecord → ScheduledCallRecord)
    (table : Table)
    → ((r : ScheduledCallRecord) → (f r).org_id ≡ r.org_id)
    → ((r : ScheduledCallRecord) → Memᴰ r table → p r ≡ true → r.org_id ≡ org_id)
    → others org_id (update_where p f table) ≡ others org_id table
others-update_where org_id p f table same theirs =
    keep-update_where p f (is_other org_id) table
      (λ r m hit. (own org_id r (theirs r m hit), own org_id (f r) (same r ∙ theirs r m hit)))

reschedules-session :
    (new r : ScheduledCallRecord) → reschedules new r ≡ true → r.session_id ≡ new.session_id
reschedules-session new r h = ground (arith, eq_iff r.session_id new.session_id)

is_expired-org : (o now : Text) (r : ScheduledCallRecord) → is_expired o now r ≡ true → r.org_id ≡ o
unfolding is_expired
is_expired-org o now r h = ground (arith, eq_iff r.org_id o)

is_chosen-org :
    (input : ClaimDueInput) (id : Text) (r : ScheduledCallRecord)
    → is_chosen input id r ≡ true
    → r.org_id ≡ input.org_id
unfolding is_chosen
is_chosen-org input id r h = ground (arith, eq_iff r.org_id input.org_id)

is_owned-org : (o id w : Text) (r : ScheduledCallRecord) → is_owned o id w r ≡ true → r.org_id ≡ o
unfolding is_owned
is_owned-org o id w r h = ground (arith, eq_iff r.org_id o)

others-checked :
    {A B : Type 0} (org_id : Text) (r : Result Text A) (table : Table) (k : A → Answer B)
    → ((a : A) → others org_id (k a).1 ≡ others org_id table)
    → others org_id (checked r table k).1 ≡ others org_id table
others-checked org_id (ok a) table k h = h a
others-checked org_id (err message) table k h = refl

others-expire :
    (input : ClaimDueInput) (table : Table)
    → others input.org_id (expire input table) ≡ others input.org_id table
unfolding expire
others-expire input table =
    others-update_where input.org_id (is_expired input.org_id input.now) (expired input.now) table
      (λ r. refl) (λ r _ hit. is_expired-org input.org_id input.now r hit)

others-claim :
    (input : ClaimDueInput) (lease : Text) (best : Option ScheduledCallRecord) (table : Table)
    → others input.org_id (claim input lease best table).1 ≡ others input.org_id table
unfolding claim
others-claim input lease none table = refl
others-claim input lease (some best) table =
    others-update_where input.org_id (is_chosen input best.scheduled_call_id) (claimed input lease)
      table (λ r. refl) (λ r _ hit. is_chosen-org input best.scheduled_call_id r hit)

abbrev org_of : Operation → Text
org_of (schedule_call timestamp fresh_id input) = input.org_id
org_of (claim_call input) = input.org_id
org_of (complete_call input) = input.org_id
org_of (fail_call input) = input.org_id
org_of (reset_calls org_id) = org_id

-- A scheduling that gives an answer; every other operation.
abbrev pub IsAnswered : Platform → Operation → Table → Type 0
IsAnswered platform (schedule_call timestamp fresh_id input) table =
    (r : ScheduledCallRecord) × ((schedule platform timestamp fresh_id input table).0 ≡ ok r)
IsAnswered platform _ table = Unit

-- The row that was read back after a scheduling.
mem_of_readable :
    (org_id session_id message : Text) (table : Table) {r : ScheduledCallRecord}
    → readable (find_by_session org_id session_id table) message ≡ ok r
    → (x : ScheduledCallRecord) × Memᴰ x table × (x.org_id ≡ org_id) × (x.session_id ≡ session_id)
mem_of_readable org_id session_id message table e =
    let p = λ (x : ScheduledCallRecord). x.org_id == org_id && x.session_id == session_id in
    elim (List-cases (keep p table)) [
      | inl nothing ↦ absurd (cc (rw nothing at e))
      | inr (x, rest, found) ↦
          let (m, h) = mem-keep p table (subst (Memᴰ x) (sym found) (Memᴰ.head refl)) in
          (
            x,
            m,
            ground (arith, eq_iff x.org_id org_id),
            ground (arith, eq_iff x.session_id session_id),
          )
    ]

-- A row of the table before with the same session and organisation.
before_reschedule :
    (new : ScheduledCallRecord) (table : Table) (x : ScheduledCallRecord)
    → Memᴰ x (update_where (reschedules new) (rescheduled new) table)
    → (y : ScheduledCallRecord) × Memᴰ y table
      × (y.org_id ≡ x.org_id)
      × (y.session_id ≡ x.session_id)
before_reschedule new table x m =
    elim (mem-update_where (reschedules new) (rescheduled new) table m) [
      | inl (k, _) ↦ (x, k, refl, refl)
      | inr (y, k, _, same) ↦
          (y, k, ap (λ r. r.org_id) (sym same), ap (λ r. r.session_id) (sym same))
    ]

others-rescheduled :
    (new : ScheduledCallRecord) (table : Table) (x : ScheduledCallRecord)
    → IsWellFormed table
    → Memᴰ x (update_where (reschedules new) (rescheduled new) table)
    → x.org_id ≡ new.org_id
    → x.session_id ≡ new.session_id
    → others new.org_id (update_where (reschedules new) (rescheduled new) table)
      ≡ others new.org_id table
others-rescheduled new table x w m org session =
    let (y, k, same_org, same_session) = before_reschedule new table x m in
    others-update_where new.org_id (reschedules new) (rescheduled new) table (λ r. refl)
      (λ r n hit.
        let e =
          same_of_key session_of table w.sessions n k
            (reschedules-session new r hit ∙ sym (same_session ∙ session)) in
        ap (λ z. z.org_id) e ∙ same_org ∙ org)

schedule-others :
    (platform : Platform) (timestamp fresh_id : Text) (input : ScheduleCallInput) (table : Table)
    → IsWellFormed table
    → IsAnswered platform (schedule_call timestamp fresh_id input) table
    → others input.org_id (schedule platform timestamp fresh_id input table).1
      ≡ others input.org_id table
unfolding schedule
schedule-others platform timestamp fresh_id input table w (r, e) =
    let new = new_call input timestamp fresh_id in
    elim (Result-cases (schedule_checks platform input)) [
      | inl (message, bad) ↦ rw bad refl
      | inr (_, good) ↦ elim (upsert_cases platform new table) [
        | inl refused ↦ rw (good, refused) refl
        | inr (inl (old, changed)) ↦
            let (x, m, org, session) =
              mem_of_readable input.org_id input.session_id _
                (update_where (reschedules new) (rescheduled new) table)
                (rw (good, changed) at e) in
            rw (good, changed) (others-rescheduled new table x w m org session)
        | inr (inr (fresh, free, added)) ↦
            rw (good, added)
              (keep-append_miss (is_other input.org_id) table new (own input.org_id new refl))
      ]
    ]

-- An operation for an organisation leaves the calls of all others as they are; a scheduling, if it
-- gives an answer.
pub run-others :
    (platform : Platform) (op : Operation) (table : Table)
    → IsWellFormed table
    → IsAnswered platform op table
    → others (org_of op) (run platform op table) ≡ others (org_of op) table
unfolding run claim_due claim_now complete settle fail reset
run-others platform (schedule_call timestamp fresh_id input) table w a =
    schedule-others platform timestamp fresh_id input table w a
run-others platform (claim_call input) table w a =
    others-checked input.org_id (lease_end platform input) table
      (λ lease. claim_now input lease table)
      (λ lease.
        others-claim input lease
          (earliest (keep (is_due input.org_id input.now) (expire input table)))
          (expire input table)
        ∙ others-expire input table)
run-others platform (complete_call input) table w a =
    others-update_where input.org_id (may_complete input) (completed input) table (λ r. refl)
      (λ r _ hit.
        is_owned-org input.org_id input.scheduled_call_id input.worker_id r
          (may_complete-is_owned r input hit))
run-others platform (fail_call input) table w a =
    others-checked input.org_id (assert_non_empty input.reason (codes "reason")) table
      (λ _.
        settle (is_owned input.org_id input.scheduled_call_id input.worker_id) (given_up input)
          input.org_id input.scheduled_call_id input.worker_id (codes "failure") table)
      (λ _.
        others-update_where input.org_id
          (is_owned input.org_id input.scheduled_call_id input.worker_id) (given_up input) table
          (λ r. refl)
          (λ r _ hit. is_owned-org input.org_id input.scheduled_call_id input.worker_id r hit))
run-others platform (reset_calls org_id) table w a = keep-keep (is_other org_id) table
