-- ===== src/Scheduler/Once.antt =====
-- No call is started twice, in kits/debrief/src/scheduler/index.ts.
use mathlib.Core.Path.{subst, ◌∙◌}
use mathlib.Core.List.Memᴰ.{append_left}
use kitstack.Base.{
  ◌≡◌, ◌≢◌, ◌⊎◌, refl, sym, ap, Bool, true, false, Option, some, List, [], ◌∷◌, ◌++◌, Text, any,
  All, ◌==◌, text_instance, eq_iff, Bool-cases, inl, inr, Result, ok, err, update_where, Memᴰ,
  IsUnique, same_of_key, mem_update_where_of_mem,
}
use kitstack.Scheduler.Types.{ScheduledCallRecord, ClaimDueInput, Platform, status_eq, scheduled}
use kitstack.Scheduler.Table.{Table, Answer, checked}
use kitstack.Scheduler.Store.{
  schedule, upsert, new_call, reschedules, rescheduled, claim_due, expire, expired, claimed,
  is_expired, is_chosen, complete, settle, completed, may_complete, fail, is_owned, given_up,
}
use kitstack.Scheduler.Operations.{
  Operation, run, schedule_call, claim_call, complete_call, fail_call, reset_calls, IsWellFormed,
  id_of, upsert_cases,
}
use kitstack.Scheduler.Operations.Preserved.{run-IsWellFormed}
use kitstack.Scheduler.Claims.{IsTaken, taken, claim_due_cases, IsDue-is_chosen}

-- The call with this id is no longer waiting.
pub record IsSpent (id : Text) (table : Table) : Type 0 where
  pub row : ScheduledCallRecord
  pub stored : Memᴰ row table
  pub same : row.scheduled_call_id ≡ id
  pub spent : row.status ≢ scheduled

-- An update that keeps ids and never goes back to `scheduled`.
update_where-IsSpent :
    (p : ScheduledCallRecord → Bool) (f : ScheduledCallRecord → ScheduledCallRecord) (table : Table)
    (id : Text)
    → ((r : ScheduledCallRecord) → id_of (f r) ≡ id_of r)
    → ((r : ScheduledCallRecord) → p r ≡ true → r.status ≢ scheduled → (f r).status ≢ scheduled)
    → IsSpent id table
    → IsSpent id (update_where p f table)
update_where-IsSpent p f table id same_id stays s =
    let m = mem_update_where_of_mem p f table s.stored in
    elim (Bool-cases (p s.row)) [
      | inl hit ↦ record {
        row = f s.row;
        stored = rw hit at m;
        same = same_id s.row ∙ s.same;
        spent = stays s.row hit s.spent;
      }
      | inr miss ↦ record { row = s.row; stored = rw miss at m; same = s.same; spent = s.spent }
    ]

expire-IsSpent :
    (input : ClaimDueInput) (table : Table) (id : Text)
    → IsSpent id table
    → IsSpent id (expire input table)
unfolding expire
expire-IsSpent input table id =
    update_where-IsSpent (is_expired input.org_id input.now) (expired input.now) table id
      (λ r. refl) (λ r _ _ e. cc)

taken-IsSpent :
    (input : ClaimDueInput) (table : Table) (lease other id : Text)
    → IsSpent id table
    → IsSpent id (taken input table lease other)
taken-IsSpent input table lease other id s =
    update_where-IsSpent (is_chosen input other) (claimed input lease) (expire input table) id
      (λ r. refl) (λ r _ _ e. cc) (expire-IsSpent input table id s)

-- The operations that delete nothing.
abbrev pub IsLasting : Operation → Type 0
IsLasting (reset_calls org_id) = ⊥
IsLasting _ = Unit

append-IsSpent :
    (new : ScheduledCallRecord) (table : Table) (id : Text)
    → IsSpent id table
    → IsSpent id (table ++ new ∷ [])
append-IsSpent new table id s = record {
  row = s.row;
  stored = append_left (new ∷ []) s.stored;
  same = s.same;
  spent = s.spent;
}

upsert-IsSpent :
    (platform : Platform) (new : ScheduledCallRecord) (table : Table) (id : Text)
    → IsSpent id table
    → IsSpent id (upsert platform new table).1
upsert-IsSpent platform new table id s = elim (upsert_cases platform new table) [
  | inl refused ↦ rw refused s
  | inr (inl (old, changed)) ↦
      rw changed (
        update_where-IsSpent (reschedules new) (rescheduled new) table id (λ r. refl) (λ r _ h. h)
          s)
  | inr (inr (fresh, free, added)) ↦ rw added (append-IsSpent new table id s)
]

checked-IsSpent :
    {A B : Type 0} (r : Result Text A) (table : Table) (k : A → Answer B) (id : Text)
    → IsSpent id table
    → ((a : A) → IsSpent id (k a).1)
    → IsSpent id (checked r table k).1
checked-IsSpent (ok a) table k id s h = h a
checked-IsSpent (err message) table k id s h = s

claim-IsSpent :
    (platform : Platform) (input : ClaimDueInput) (table : Table) (id : Text)
    → IsWellFormed table
    → IsSpent id table
    → IsSpent id (claim_due platform input table).1
claim-IsSpent platform input table id w s = elim (claim_due_cases input table platform w) [
  | inl (message, bad, same) ↦ rw same s
  | inr (lease, good, inl (nothing, same)) ↦ rw same (expire-IsSpent input table id s)
  | inr (lease, good, inr (x, t, same)) ↦
      rw same (taken-IsSpent input table lease x.scheduled_call_id id s)
]

-- A call that is no longer waiting is never waiting again.
run-IsSpent :
    (platform : Platform) (op : Operation) (table : Table) (id : Text)
    → IsWellFormed table
    → IsLasting op
    → IsSpent id table
    → IsSpent id (run platform op table)
unfolding run schedule complete fail settle
run-IsSpent platform (schedule_call timestamp fresh_id input) table id w lasting s =
    let new = new_call input timestamp fresh_id in
    let s' = upsert-IsSpent platform new table id s in
    checked-IsSpent _ table _ id s (λ _.
      checked-IsSpent (upsert platform new table).0 (upsert platform new table).1 _ id s' (λ _. s'))
run-IsSpent platform (claim_call input) table id w lasting s =
    claim-IsSpent platform input table id w s
run-IsSpent platform (complete_call input) table id w lasting s =
    update_where-IsSpent (may_complete input) (completed input) table id (λ r. refl) (λ r _ _ e. cc)
      s
run-IsSpent platform (fail_call input) table id w lasting s = checked-IsSpent _ table _ id s (λ _.
    update_where-IsSpent (is_owned input.org_id input.scheduled_call_id input.worker_id)
      (given_up input) table id (λ r. refl) (λ r _ _ e. cc) s)
run-IsSpent platform (reset_calls org_id) table id w lasting s = absurd lasting

-- The id of the call that an operation claims.
abbrev answered : Result Text (Option ScheduledCallRecord) → List Text
answered (ok (some r)) = r.scheduled_call_id ∷ []
answered _ = []

abbrev pub claimed_by : Platform → Operation → Table → List Text
claimed_by platform (claim_call input) table = answered (claim_due platform input table).0
claimed_by platform _ table = []

-- The ids of the calls that a sequence of operations claims, in order.
abbrev pub claims : Platform → List Operation → Table → List Text
claims platform [] table = []
claims platform (op ∷ ops) table =
    claimed_by platform op table ++ claims platform ops (run platform op table)

waiting_not-IsSpent :
    (input : ClaimDueInput) (table : Table) (x : ScheduledCallRecord)
    → IsWellFormed table
    → IsTaken input table x
    → ¬ IsSpent x.scheduled_call_id table
waiting_not-IsSpent input table x w t s =
    let e = same_of_key id_of table w.ids s.stored t.stored s.same in
    s.spent (ap (λ r. r.status) e ∙ t.due_now.status)

claimed-IsSpent :
    (input : ClaimDueInput) (table : Table) (lease : Text) (x : ScheduledCallRecord)
    → IsTaken input table x
    → IsSpent x.scheduled_call_id (taken input table lease x.scheduled_call_id)
claimed-IsSpent input table lease x t = record {
  row = claimed input lease x;
  stored = rw (IsDue-is_chosen input x t.due_now) at (
      mem_update_where_of_mem (is_chosen input x.scheduled_call_id) (claimed input lease)
        (expire input table) t.swept);
  same = refl;
  spent = λ e. cc;
}

claimed_by_cases :
    (platform : Platform) (op : Operation) (table : Table)
    → IsWellFormed table
    → (claimed_by platform op table ≡ [])
      ⊎ ((id : Text) × (claimed_by platform op table ≡ id ∷ [])
          × ¬ IsSpent id table
          × IsSpent id (run platform op table))
unfolding run
claimed_by_cases platform (schedule_call timestamp fresh_id input) table w = inl refl
claimed_by_cases platform (claim_call input) table w =
    elim (claim_due_cases input table platform w) [
      | inl (message, bad, same) ↦ inl (rw same refl)
      | inr (lease, good, inl (nothing, same)) ↦ inl (rw same refl)
      | inr (lease, good, inr (x, t, same)) ↦ inr (
        x.scheduled_call_id,
        rw same refl,
        waiting_not-IsSpent input table x w t,
        rw (run, same) (claimed-IsSpent input table lease x t),
      )
    ]
claimed_by_cases platform (complete_call input) table w = inl refl
claimed_by_cases platform (fail_call input) table w = inl refl
claimed_by_cases platform (reset_calls org_id) table w = inl refl

spent_unclaimed :
    (platform : Platform) (ops : List Operation) (table : Table) (id : Text)
    → IsWellFormed table
    → All IsLasting ops
    → IsSpent id table
    → any (λ k. k == id) (claims platform ops table) ≡ false
spent_unclaimed platform [] table id w lasting s = refl
spent_unclaimed platform (op ∷ ops) table id w (l, ls) s =
    let rest =
      spent_unclaimed platform ops (run platform op table) id (run-IsWellFormed platform op table w)
        ls (run-IsSpent platform op table id w l s) in
    elim (claimed_by_cases platform op table w) [
      | inl nothing ↦ rw nothing rest
      | inr (k, one, waiting, _) ↦ elim (Bool-cases (k == id)) [
        | inl equal ↦
            absurd (waiting (subst (λ i. IsSpent i table) (sym ((eq_iff k id).0 equal)) s))
        | inr apart ↦ rw (one, apart) rest
      ]
    ]

-- Whatever workers of whatever organisations schedule, claim, complete and fail, in any order and at
-- any times: as long as no calls are deleted, no call is claimed twice.
pub claims-IsUnique :
    (platform : Platform) (ops : List Operation) (table : Table)
    → IsWellFormed table
    → All IsLasting ops
    → IsUnique (claims platform ops table)
claims-IsUnique platform [] table w lasting = tt
claims-IsUnique platform (op ∷ ops) table w (l, ls) =
    let w' = run-IsWellFormed platform op table w in
    let rest = claims-IsUnique platform ops (run platform op table) w' ls in
    elim (claimed_by_cases platform op table w) [
      | inl nothing ↦ rw nothing rest
      | inr (id, one, _, spent) ↦
          rw one (spent_unclaimed platform ops (run platform op table) id w' ls spent, rest)
    ]
