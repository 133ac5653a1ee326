-- ===== src/Scheduler/Leases.antt =====
-- Who may end a call that is being started, in kits/debrief/src/scheduler/index.ts.
use mathlib.Core.Path.{subst, ◌∙◌}
use kitstack.Base.{
  ◌≡◌, ◌⊎◌, ◌↔◌, List, ◌∷◌, ◌++◌, Option, none, and_iff, mem_keep_of_mem, ap, false, text_leb, refl,
  sym, Bool, true, ◌&&◌, some, [], Text, codes, map, keep, ◌==◌, text_instance, option_instance,
  eq_iff, Bool-cases, List-cases, inl, inr, ok, err, arith, update_where, Memᴰ, IsUnique,
  mem_update_where_of_mem, mem-keep, keep_of_key, update_where_of_none, map-update_where, is_blank,
}
use kitstack.Scheduler.Types.{
  ScheduledCallRecord, CompleteCallInput, FailCallInput, status_eq, starting,
}
use kitstack.Scheduler.Table.{Table, get}
use kitstack.Scheduler.Store.{
  complete, settle, completed, may_complete, fail, is_owned, after_now, given_up, not_owned,
}
use kitstack.Scheduler.Operations.{IsWellFormed, id_of}

-- The columns by which `get` finds a row.
record IsNamed (org_id id : Text) (r : ScheduledCallRecord) : Type 0 where
  org : r.org_id ≡ org_id
  named : r.scheduled_call_id ≡ id

-- A row of a table with unique ids is what `get` finds.
get_of_mem :
    (org_id id : Text) (table : Table) {r : ScheduledCallRecord}
    → IsUnique (map id_of table)
    → Memᴰ r table
    → IsNamed org_id id r
    → get org_id id table ≡ some r
unfolding get
get_of_mem org_id id table {r} u m n =
    rw
      (keep_of_key id_of (λ x. x.org_id == org_id && x.scheduled_call_id == id) table u m hit alone)
      refl
  where
    hit : (r.org_id == org_id && r.scheduled_call_id == id) ≡ true
    hit = ground (arith, eq_iff r.org_id org_id, eq_iff r.scheduled_call_id id, n.org, n.named)

    alone :
        (x : ScheduledCallRecord)
        → (x.org_id == org_id && x.scheduled_call_id == id) ≡ true
        → id_of x ≡ id_of r
    alone x h = ground (arith, eq_iff x.scheduled_call_id id, n.named)

-- A call that the worker is starting, column by column.
pub record IsHeld (org_id id worker_id : Text) (r : ScheduledCallRecord) : Type 0 where
  pub org : r.org_id ≡ org_id
  pub named : r.scheduled_call_id ≡ id
  pub status : r.status ≡ starting
  pub owner : r.lease_owner ≡ some worker_id

-- The lease, when there is one, ends later than `now`.
abbrev pub IsRunning : Text → ScheduledCallRecord → Type 0
IsRunning now r =
    (expires_at : Text) → r.lease_expires_at ≡ some expires_at → text_leb expires_at now ≡ false

-- A list with one place marked.
pub record Around {A : Type 0} (xs : List A) (x : A) : Type 0 where
  pub before : List A
  pub after : List A
  pub split : xs ≡ before ++ x ∷ after

-- An update of the one row that is selected.
update_where-split :
    {A : Type 0} (p : A → Bool) (f : A → A) (xs : List A) {x : A}
    → keep p xs ≡ x ∷ []
    → (a : Around xs x) × (update_where p f xs ≡ a.before ++ f x ∷ a.after)
unfolding keep update_where
update_where-split p f [] e = absurd (cc e)
update_where-split p f (y ∷ ys) {x} e = elim (Bool-cases (p y)) [
  | inl hit ↦
      let found = rw hit at e in
      let first : y ≡ x = cc found in
      let none_left : keep p ys ≡ [] = cc found in
      let rest = update_where_of_none p f ys none_left in
      (
        record { before = []; after = ys; split = ap (λ z. z ∷ ys) first },
        rw (hit, rest, first) refl,
      )
  | inr miss ↦
      let (a, changed) = update_where-split p f ys (rw miss at e) in
      (
        record { before = y ∷ a.before; after = a.after; split = ap (λ zs. y ∷ zs) a.split },
        rw (miss, changed) refl,
      )
]

-- An owned update either finds no row and throws, or changes one row and answers it.
module _ (p : ScheduledCallRecord → Bool) (f : ScheduledCallRecord → ScheduledCallRecord)
    (org_id id worker_id ending : Text) (table : Table)
    (named : (r : ScheduledCallRecord) → p r ≡ true → IsNamed org_id id r)
    (same_id : (r : ScheduledCallRecord) → id_of (f r) ≡ id_of r)
    (same_org : (r : ScheduledCallRecord) → (f r).org_id ≡ r.org_id) (w : IsWellFormed table) where
  settle_cases :
      (((r : ScheduledCallRecord) → Memᴰ r table → ¬ (p r ≡ true))
        × (settle p f org_id id worker_id ending table ≡ (err (not_owned id worker_id), table)))
      ⊎ ((x : ScheduledCallRecord) × (a : Around table x) × (p x ≡ true)
          × (settle p f org_id id worker_id ending table ≡ (ok (f x), a.before ++ f x ∷ a.after)))
  unfolding settle
  settle_cases = elim (List-cases (keep p table)) [
    | inl nothing ↦ inl (
      λ r m hit. elim (subst (Memᴰ r) nothing (mem_keep_of_mem p table m hit)) [ ],
      rw (nothing, update_where_of_none p f table nothing) refl,
    )
    | inr (x, rest, found) ↦
        let (m, hit) = mem-keep p table (subst (Memᴰ x) (sym found) (Memᴰ.head refl)) in
        let n = named x hit in
        let one = keep_of_key id_of p table w.ids m hit (λ y h. (named y h).named ∙ sym n.named) in
        let changed =
          get_of_mem org_id id (update_where p f table)
            (rw (map-update_where p f id_of table same_id) w.ids)
            (rw hit at (mem_update_where_of_mem p f table m))
            (record { org = same_org x ∙ n.org; named = same_id x ∙ n.named }) in
        let (a, there) = update_where-split p f table one in
        inr (x, a, hit, rw (one, changed, there) refl)
  ]

is_owned_iff :
    (org_id id worker_id : Text) (r : ScheduledCallRecord)
    → (is_owned org_id id worker_id r ≡ true) ↔ IsHeld org_id id worker_id r
unfolding is_owned
is_owned_iff org_id id worker_id r = (
  λ h. record {
    org = ground (arith, eq_iff r.org_id org_id);
    named = ground (arith, eq_iff r.scheduled_call_id id);
    status = ground (arith, eq_iff r.status starting);
    owner = ground (arith, eq_iff r.lease_owner (some worker_id));
  },
  λ h. ground (
    arith,
    (eq_iff r.org_id org_id).1 h.org,
    (eq_iff r.scheduled_call_id id).1 h.named,
    (eq_iff r.status starting).1 h.status,
    (eq_iff r.lease_owner (some worker_id)).1 h.owner,
  ),
)

after_now_iff :
    (lease : Option Text) (now : Text)
    → (after_now lease now ≡ true)
      ↔ ((expires_at : Text) → lease ≡ some expires_at → text_leb expires_at now ≡ false)
after_now_iff none now = (λ e x asked. absurd (cc asked), λ h. refl)
after_now_iff (some x) now = (
  λ e y asked. subst (λ z. text_leb z now ≡ false) {x = x} {y = y} (cc asked) (ground arith),
  λ h. rw (h x refl) refl,
)

may_complete_iff :
    (input : CompleteCallInput) (r : ScheduledCallRecord)
    → (may_complete input r ≡ true)
      ↔ (IsHeld input.org_id input.scheduled_call_id input.worker_id r × IsRunning input.now r)
unfolding may_complete
may_complete_iff input r =
    let both =
      and_iff (is_owned input.org_id input.scheduled_call_id input.worker_id r)
        (after_now r.lease_expires_at input.now) in
    let held = is_owned_iff input.org_id input.scheduled_call_id input.worker_id r in
    let running = after_now_iff r.lease_expires_at input.now in
    (
      λ e. (held.0 (both.0 e).0, running.0 (both.0 e).1),
      λ (h, lease). both.1 (held.1 h, running.1 lease),
    )

-- In a well-formed table, completing a call either throws and changes nothing, and then no row is of
-- the organization and the id of the input, being started, and leased to its worker with no lease
-- that has ended; or there is such a row, it alone is replaced, by the started call with the
-- provider's id and without a lease, and the answer is what replaces it.
pub complete_cases :
    (input : CompleteCallInput) (table : Table)
    → IsWellFormed table
    → (((r : ScheduledCallRecord)
          → Memᴰ r table
          → ¬ (
              IsHeld input.org_id input.scheduled_call_id input.worker_id r
              × IsRunning input.now r))
        × (complete input table ≡ (err (not_owned input.scheduled_call_id input.worker_id), table)))
      ⊎ ((x : ScheduledCallRecord) × (a : Around table x) × IsHeld input.org_id
            input.scheduled_call_id input.worker_id x
          × IsRunning input.now x
          × (complete input table
              ≡ (ok (completed input x), a.before ++ completed input x ∷ a.after)))
unfolding complete
complete_cases input table w =
    let held = may_complete_iff input in
    elim (settle_cases (may_complete input) (completed input) input.org_id input.scheduled_call_id
      input.worker_id (codes "start") table
      (λ r h. let (x, _) = (held r).0 h in record { org = x.org; named = x.named }) (λ r. refl)
      (λ r. refl) w) [
        | inl (nothing, same) ↦ inl (λ r m h. nothing r m ((held r).1 h), same)
        | inr (x, a, hit, same) ↦ inr (x, a, ((held x).0 hit).0, ((held x).0 hit).1, same)
      ]

-- In a well-formed table, giving a call up either throws and changes nothing, because the reason is
-- blank, or because no row is of the organization and the id of the input, being started, and leased
-- to its worker; or there is such a row, it alone is replaced, by the failed call with the reason and
-- without a lease, and the answer is what replaces it.
pub fail_cases :
    (input : FailCallInput) (table : Table)
    → IsWellFormed table
    → ((is_blank input.reason ≡ true)
        × (fail input table ≡ (err (codes "reason must not be empty"), table)))
      ⊎ (((r : ScheduledCallRecord)
            → Memᴰ r table
            → ¬ IsHeld input.org_id input.scheduled_call_id input.worker_id r)
          × (fail input table ≡ (err (not_owned input.scheduled_call_id input.worker_id), table)))
      ⊎ ((x : ScheduledCallRecord) × (a : Around table x) × IsHeld input.org_id
            input.scheduled_call_id input.worker_id x
          × (fail input table ≡ (ok (given_up input x), a.before ++ given_up input x ∷ a.after)))
unfolding fail
fail_cases input table w = elim (Bool-cases (is_blank input.reason)) [
  | inl blank ↦ inl (blank, rw blank refl)
  | inr given ↦
      let held = is_owned_iff input.org_id input.scheduled_call_id input.worker_id in
      inr (
        rw given
          (elim (settle_cases (is_owned input.org_id input.scheduled_call_id input.worker_id)
            (given_up input) input.org_id input.scheduled_call_id input.worker_id (codes "failure")
            table (λ r h. record { org = ((held r).0 h).org; named = ((held r).0 h).named })
            (λ r. refl) (λ r. refl) w) [
              | inl (nothing, same) ↦ inl (λ r m h. nothing r m ((held r).1 h), same)
              | inr (x, a, hit, same) ↦ inr (x, a, (held x).0 hit, same)
            ]))
]
