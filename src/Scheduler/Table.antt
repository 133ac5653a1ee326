-- ===== src/Scheduler/Table.antt =====
-- The table `scheduled_calls` of kits/debrief/src/scheduler/index.ts, its queries and their order. It
-- is a list of rows in the order of insertion.
use kitstack.Base.{
  Bool, ◌&&◌, Option, none, some, List, [], ◌∷◌, ◌++◌, Text, codes, keep, take, head?,
  if◌then◌else◌, ◌==◌, text_instance, option_instance, is_blank, Result, ok, err, text_leb,
}
use kitstack.Scheduler.Types.{ScheduledCallRecord, Platform, status_eq}

abbrev pub Table : Type 0
Table = List ScheduledCallRecord

abbrev pub Answer : Type 0 → Type 0
Answer A = Result Text A × Table

abbrev pub assert_non_empty : Text → Text → Result Text (Unit {0})
assert_non_empty value name =
    if is_blank value then err (name ++ codes " must not be empty") else ok tt

abbrev pub assert_timestamp : Platform → Text → Result Text (Unit {0})
assert_timestamp platform value =
    if platform.is_timestamp value
    then ok tt
    else err (codes "scheduled call timestamps must be valid ISO timestamps")

-- The rest of an operation, after the checks that may throw.
abbrev pub checked {ℓ} :
    {A : Type ℓ} {B : Type 0} → Result Text A → Table → (A → Answer B) → Answer B
checked (ok a) table run = run a
checked (err message) table run = (err message, table)

-- `SELECT … LIMIT 1`
abbrev pub first_where : (ScheduledCallRecord → Bool) → Table → Option ScheduledCallRecord
first_where p table = head? (take 1 (keep p table))

abbrev pub find_by_session : Text → Text → Table → Option ScheduledCallRecord
find_by_session org_id session_id =
    first_where (λ r. r.org_id == org_id && r.session_id == session_id)

unfoldable pub get : Text → Text → Table → Option ScheduledCallRecord
unfolding keep
get org_id scheduled_call_id =
    first_where (λ r. r.org_id == org_id && r.scheduled_call_id == scheduled_call_id)

-- `ORDER BY scheduled_at ASC, scheduled_call_id ASC`
unfoldable pub before : ScheduledCallRecord → ScheduledCallRecord → Bool
before a b =
    if a.scheduled_at == b.scheduled_at
    then text_leb a.scheduled_call_id b.scheduled_call_id
    else text_leb a.scheduled_at b.scheduled_at

-- The first of two rows in that order.
abbrev pub earlier : ScheduledCallRecord → Option ScheduledCallRecord → ScheduledCallRecord
earlier r none = r
earlier r (some best) = if before r best then r else best

unfoldable pub earliest : Table → Option ScheduledCallRecord
unfolding before
earliest [] = none
earliest (r ∷ rest) = some (earlier r (earliest rest))

-- `ORDER BY`, as an insertion sort.
unfoldable pub insert_by : ScheduledCallRecord → Table → Table
unfolding before
insert_by r [] = r ∷ []
insert_by r (x ∷ xs) = let rest = insert_by r xs in if before r x then r ∷ x ∷ xs else x ∷ rest

unfoldable pub sort : Table → Table
unfolding insert_by
sort [] = []
sort (x ∷ xs) = insert_by x (sort xs)

unfoldable pub list : Text → Table → Table
unfolding sort keep
list org_id table = sort (keep (λ r. r.org_id == org_id) table)
