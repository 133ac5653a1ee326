-- ===== src/Scheduler/Claims.antt =====
-- Which call a claim takes, in kits/debrief/src/scheduler/index.ts.
use mathlib.Core.Path.{subst, ◌∙◌}
use kitstack.Base.{
  ◌≡◌, ◌⊎◌, refl, sym, ap, true, false, Option, none, some, [], ◌∷◌, Text, keep, text_instance,
  option_instance, eq_iff, Bool-cases, Option-cases, inl, inr, ok, err, arith, update_where,
  text_leb, ◌↔◌, mem_keep_of_mem, text_leb_refl, text_leb_trans, text_leb_total, text_leb_antisym,
  Memᴰ, keep-update_where, keep_of_key, mem-keep, Result-cases, or_else,
}
use kitstack.Scheduler.Types.{
  ScheduledCallRecord, ClaimDueInput, Platform, status_eq, scheduled, failed,
}
use kitstack.Scheduler.Table.{Table, before, earliest}
use kitstack.Scheduler.Store.{
  claim_due, claim_now, lease_end, claim, expire, expired, claimed, is_expired, is_chosen, is_due,
}
use kitstack.Scheduler.Operations.{IsWellFormed, id_of, is_expired-status}
use kitstack.Scheduler.Operations.Preserved.{expire-IsWellFormed}

before_refl : (a : ScheduledCallRecord) → before a a ≡ true
unfolding before
before_refl a =
    ground (arith, eq_iff a.scheduled_at a.scheduled_at, text_leb_refl a.scheduled_call_id)

before_total : (a b : ScheduledCallRecord) → before a b ≡ false → before b a ≡ true
unfolding before
before_total a b h = ground (
  arith,
  eq_iff a.scheduled_at b.scheduled_at,
  eq_iff b.scheduled_at a.scheduled_at,
  text_leb_total a.scheduled_at b.scheduled_at,
  text_leb_total a.scheduled_call_id b.scheduled_call_id,
)

before_trans :
    (a b c : ScheduledCallRecord) → before a b ≡ true → before b c ≡ true → before a c ≡ true
unfolding before
before_trans a b c h k = ground (
  arith,
  eq_iff a.scheduled_at b.scheduled_at,
  eq_iff b.scheduled_at c.scheduled_at,
  eq_iff a.scheduled_at c.scheduled_at,
  text_leb_trans a.scheduled_at b.scheduled_at c.scheduled_at,
  text_leb_trans a.scheduled_call_id b.scheduled_call_id c.scheduled_call_id,
  text_leb_antisym a.scheduled_at b.scheduled_at,
)

some_injective :
    {a b : ScheduledCallRecord} → ◌≡◌ {A = Option ScheduledCallRecord} (some a) (some b) → a ≡ b
some_injective {a} h = ap (λ o. or_else o a) h

-- The row comes first in the order of `ORDER BY`.
abbrev pub IsFirst : Table → ScheduledCallRecord → Type 0
IsFirst table best = (y : ScheduledCallRecord) → Memᴰ y table → before best y ≡ true

IsFirst-kept :
    (r b : ScheduledCallRecord) (rest : Table)
    → before r b ≡ true
    → IsFirst rest b
    → IsFirst (r ∷ rest) r
IsFirst-kept r b rest h least y (Memᴰ.head same) =
    subst (λ z. before r z ≡ true) (sym same) (before_refl r)
IsFirst-kept r b rest h least y (Memᴰ.tail m) = before_trans r b y h (least y m)

IsFirst-found :
    (r b : ScheduledCallRecord) (rest : Table)
    → before r b ≡ false
    → IsFirst rest b
    → IsFirst (r ∷ rest) b
IsFirst-found r b rest h least y (Memᴰ.head same) =
    subst (λ z. before b z ≡ true) (sym same) (before_total r b h)
IsFirst-found r b rest h least y (Memᴰ.tail m) = least y m

pub earliest-none : (table : Table) → earliest table ≡ none → table ≡ []
unfolding earliest
earliest-none [] e = refl
earliest-none (r ∷ rest) e = absurd (cc e)

IsFirst-alone :
    (r : ScheduledCallRecord) (rest : Table) → earliest rest ≡ none → IsFirst (r ∷ rest) r
IsFirst-alone r rest e y (Memᴰ.head same) =
    subst (λ z. before r z ≡ true) (sym same) (before_refl r)
IsFirst-alone r rest e y (Memᴰ.tail m) = elim (subst (Memᴰ y) (earliest-none rest e) m) [ ]

pub earliest-IsFirst :
    (table : Table) {best : ScheduledCallRecord}
    → earliest table ≡ some best
    → Memᴰ best table × IsFirst table best
unfolding earliest
earliest-IsFirst [] e = absurd (cc e)
earliest-IsFirst (r ∷ rest) {best} e = elim (Option-cases (earliest rest)) [
  | inl nothing ↦
      let same = some_injective (rw nothing at e) in
      (Memᴰ.head (sym same), subst (IsFirst (r ∷ rest)) same (IsFirst-alone r rest nothing))
  | inr (b, found) ↦
      let (m, least) = earliest-IsFirst rest found in
      elim (Bool-cases (before r b)) [
        | inl h ↦
            let same = some_injective (rw (found, h) at e) in
            (Memᴰ.head (sym same), subst (IsFirst (r ∷ rest)) same (IsFirst-kept r b rest h least))
        | inr h ↦
            let same = some_injective (rw (found, h) at e) in
            (
              subst (λ z. Memᴰ z (r ∷ rest)) same (Memᴰ.tail m),
              subst (IsFirst (r ∷ rest)) same (IsFirst-found r b rest h least),
            )
      ]
]

-- A call that is due, column by column.
pub record IsDue (input : ClaimDueInput) (r : ScheduledCallRecord) : Type 0 where
  pub org : r.org_id ≡ input.org_id
  pub status : r.status ≡ scheduled
  pub time : text_leb r.scheduled_at input.now ≡ true

is_due_iff :
    (input : ClaimDueInput) (r : ScheduledCallRecord)
    → (is_due input.org_id input.now r ≡ true) ↔ IsDue input r
unfolding is_due
is_due_iff input r = (
  λ h. record {
    org = ground (arith, eq_iff r.org_id input.org_id);
    status = ground (arith, eq_iff r.status scheduled);
    time = ground arith;
  },
  λ h. ground (
    arith,
    (eq_iff r.org_id input.org_id).1 h.org,
    (eq_iff r.status scheduled).1 h.status,
    h.time,
  ),
)

-- Sweeping expired leases neither takes calls that are due nor adds any.
keep-expire :
    (input : ClaimDueInput) (table : Table)
    → keep (is_due input.org_id input.now) (expire input table)
      ≡ keep (is_due input.org_id input.now) table
unfolding expire
keep-expire input table =
    keep-update_where (is_expired input.org_id input.now) (expired input.now)
      (is_due input.org_id input.now) table
      (λ r _ hit.
        let starts = is_expired-status r input.org_id input.now hit in
        (
          unfold is_due in ground (arith, starts, eq_iff r.status scheduled),
          unfold is_due in ground (arith, eq_iff failed scheduled),
        ))

pub IsDue-is_chosen :
    (input : ClaimDueInput) (x : ScheduledCallRecord)
    → IsDue input x
    → is_chosen input x.scheduled_call_id x ≡ true
unfolding is_chosen
IsDue-is_chosen input x h = ground (
  arith,
  eq_iff x.scheduled_call_id x.scheduled_call_id,
  (eq_iff x.org_id input.org_id).1 h.org,
  (eq_iff x.status scheduled).1 h.status,
)

is_chosen-id :
    (input : ClaimDueInput) (id : Text) (x : ScheduledCallRecord)
    → is_chosen input id x ≡ true
    → x.scheduled_call_id ≡ id
unfolding is_chosen
is_chosen-id input id x h = ground (arith, eq_iff x.scheduled_call_id id)

module _ (input : ClaimDueInput) (table : Table) where
  abbrev due : Table → Table
  due t = keep (is_due input.org_id input.now) t

  -- The table after the call with an id is claimed.
  abbrev pub taken : Text → Text → Table
  taken lease id = update_where (is_chosen input id) (claimed input lease) (expire input table)

  -- The call that a claim takes.
  pub record IsTaken (x : ScheduledCallRecord) : Type 0 where
    pub stored : Memᴰ x table
    pub due_now : IsDue input x
    pub is_first : (y : ScheduledCallRecord) → Memᴰ y table → IsDue input y → before x y ≡ true
    pub swept : Memᴰ x (expire input table)

  IsTaken-of_earliest :
      {best : ScheduledCallRecord} → earliest (due (expire input table)) ≡ some best → IsTaken best
  IsTaken-of_earliest {best} e =
      let (m, least) = earliest-IsFirst (due (expire input table)) e in
      let (in_swept, due_now) = mem-keep _ (expire input table) m in
      let m' = subst (Memᴰ best) (keep-expire input table) m in
      record {
        stored = (mem-keep _ table m').0;
        due_now = (is_due_iff input best).0 due_now;
        is_first = λ y n due_too.
            subst (λ t. IsFirst t best) (keep-expire input table) least y
              (mem_keep_of_mem _ table n ((is_due_iff input y).1 due_too));
        swept = in_swept;
      }

  pub claim_now_cases :
      (lease : Text)
      → IsWellFormed table
      → (((y : ScheduledCallRecord) → Memᴰ y table → ¬ IsDue input y)
          × (claim_now input lease table ≡ (ok none, expire input table)))
        ⊎ ((x : ScheduledCallRecord) × IsTaken x
            × (claim_now input lease table
                ≡ (ok (some (claimed input lease x)), taken lease x.scheduled_call_id)))
  unfolding claim_now claim
  claim_now_cases lease w = elim (Option-cases (earliest (due (expire input table)))) [
    | inl nothing ↦ inl (
      λ y n due_now.
          elim (subst (Memᴰ y)
            (sym (keep-expire input table) ∙ earliest-none (due (expire input table)) nothing)
            (mem_keep_of_mem _ table n ((is_due_iff input y).1 due_now))) [ ],
      rw nothing refl,
    )
    | inr (x, found) ↦
        let t = IsTaken-of_earliest found in
        let one =
          keep_of_key id_of (is_chosen input x.scheduled_call_id) (expire input table)
            (expire-IsWellFormed input table w).ids t.swept (IsDue-is_chosen input x t.due_now)
            (is_chosen-id input x.scheduled_call_id) in
        inr (x, t, rw (found, one, IsDue-is_chosen input x t.due_now) refl)
  ]

  -- What a claim on a well-formed table does. If a check fails it throws and changes nothing. If not,
  -- calls whose lease is over are marked as failed; then, if no call of the organisation is due,
  -- scheduled for a time that is not after now, there is no answer, and if one is, the first of those
  -- that are due, by time and id, is answered and stored as starting, with one more attempt and a
  -- lease for the worker.
  pub claim_due_cases :
      (platform : Platform)
      → IsWellFormed table
      → ((message : Text) × (lease_end platform input ≡ err message)
          × (claim_due platform input table ≡ (err message, table)))
        ⊎ ((lease : Text) × (lease_end platform input ≡ ok lease)
            × ((((y : ScheduledCallRecord) → Memᴰ y table → ¬ IsDue input y)
                  × (claim_due platform input table ≡ (ok none, expire input table)))
                ⊎ ((x : ScheduledCallRecord) × IsTaken x
                    × (claim_due platform input table
                        ≡ (ok (some (claimed input lease x)), taken lease x.scheduled_call_id)))))
  unfolding claim_due
  claim_due_cases platform w = elim (Result-cases (lease_end platform input)) [
    | inl (message, bad) ↦ inl (message, bad, rw bad refl)
    | inr (lease, good) ↦ inr (
      lease,
      good,
      elim (claim_now_cases lease w) [
        | inl (nothing, same) ↦ inl (nothing, rw (good, same) refl)
        | inr (x, t, same) ↦ inr (x, t, rw (good, same) refl)
      ],
    )
  ]
