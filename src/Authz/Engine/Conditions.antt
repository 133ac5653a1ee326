-- ===== src/Authz/Engine/Conditions.antt =====
-- The conditions of the decision query, as equations.
use kitstack.Base.{◌≡◌, true, ◌⊎◌, ◌↔◌, Option, some, eq_iff, text_instance, arith}
use kitstack.Authz.Types.{
  user, team, role, AuthzTuple, SubjectMembership, CheckInput, subject_type_eq, relation_eq,
  object_type_eq,
}
use kitstack.Authz.Engine.{joins, is_member, subject_condition, covers}
use kitstack.Authz.Engine.Spec.{subject_of, Covers}

pub covers_iff : (input : CheckInput) (t : AuthzTuple) → (covers input t ≡ true) ↔ Covers input t
unfolding covers
covers_iff input t = ground (
  arith,
  eq_iff t.relation input.relation,
  eq_iff t.object_type input.object_type,
  eq_iff t.object_id input.object_id,
)

abbrev pub IsOwn : CheckInput → AuthzTuple → Type 0
IsOwn input t = (t.subject_type ≡ subject_of input) × (t.subject_id ≡ input.subject_id)

pub subject_condition_iff :
    (input : CheckInput) (t : AuthzTuple) (m : Option SubjectMembership)
    → subject_condition input (t, m) ≡ true
    → IsOwn input t ⊎ ((subject_of input ≡ user) × (is_member input.subject_id m ≡ true))
unfolding subject_condition
subject_condition_iff input t m h = ground (
  arith,
  eq_iff t.subject_type (subject_of input),
  eq_iff t.subject_id input.subject_id,
  eq_iff (subject_of input) user,
)

pub subject_condition_of_own :
    (input : CheckInput) (t : AuthzTuple) (m : Option SubjectMembership)
    → IsOwn input t
    → subject_condition input (t, m) ≡ true
unfolding subject_condition
subject_condition_of_own input t m (same_type, same_id) = ground (
  arith,
  (eq_iff t.subject_type (subject_of input)).1 same_type,
  (eq_iff t.subject_id input.subject_id).1 same_id,
)

abbrev pub Joins : CheckInput → AuthzTuple → SubjectMembership → Type 0
Joins input t m =
    (m.member_type ≡ user)
    × (m.member_id ≡ input.subject_id)
    × ((m.subject_type ≡ team) ⊎ (m.subject_type ≡ role))
    × (m.subject_type ≡ t.subject_type)
    × (m.subject_id ≡ t.subject_id)

pub joins_iff :
    (input : CheckInput) (t : AuthzTuple) (m : SubjectMembership)
    → (joins input t m ≡ true) ↔ Joins input t m
unfolding joins
joins_iff input t m = ground (
  arith,
  eq_iff m.member_type user,
  eq_iff m.member_id input.subject_id,
  eq_iff m.subject_type team,
  eq_iff m.subject_type role,
  eq_iff m.subject_type t.subject_type,
  eq_iff m.subject_id t.subject_id,
)

pub subject_condition_of_member :
    (input : CheckInput) (t : AuthzTuple) (m : SubjectMembership)
    → subject_of input ≡ user
    → joins input t m ≡ true
    → subject_condition input (t, some m) ≡ true
unfolding subject_condition
subject_condition_of_member input t m asks h =
    let (type, id, _, _, _) = (joins_iff input t m).0 h in
    ground (
      arith,
      (eq_iff (subject_of input) user).1 asks,
      (eq_iff m.member_type user).1 type,
      (eq_iff m.member_id input.subject_id).1 id,
    )
