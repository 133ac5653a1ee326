-- ===== src/Authz/Engine/Permitted.antt =====
-- The decision query against its specification.
use kitstack.Base.{
  ◌≡◌, true, inl, inr, ◌↔◌, Option, none, some, keep, text_instance, Memᴰ, mem-keep,
  mem_keep_of_mem, and_iff, mem_of_take_one, take_one_of_mem,
}
use kitstack.Authz.Types.{
  user, AuthzTuple, SubjectMembership, CheckInput, subject_type_eq, relation_eq, object_type_eq,
}
use kitstack.Authz.Db.{Db}
use kitstack.Authz.Engine.{
  left_join, joins, is_member, subject_condition, covers, selects, query_decision,
}
use kitstack.Authz.Engine.Spec.{subject_of, IsInherited, IsPermitted}
use kitstack.Authz.Engine.Join.{Matched, left_join_sound, left_join_some, left_join_complete}
use kitstack.Authz.Engine.Conditions.{
  covers_iff, subject_condition_iff, subject_condition_of_own, joins_iff,
  subject_condition_of_member,
}

-- A selected row states a permission.
row-IsInherited :
    (db : Db) (input : CheckInput) (t : AuthzTuple) (m : Option SubjectMembership)
    → Memᴰ t db.tuples
    → Matched (joins input) db.memberships (t, m)
    → covers input t ≡ true
    → subject_of input ≡ user
    → is_member input.subject_id m ≡ true
    → IsInherited db input
row-IsInherited db input t none stored on c asks member = absurd (cc)
row-IsInherited db input t (some m) stored (joined, on) c asks member =
    let (type, id, target, same_type, same_id) = (joins_iff input t m).0 on in
    record {
      asks_for_user = asks;
      grant = t;
      stored = stored;
      covers = (covers_iff input t).0 c;
      membership = m;
      joined = joined;
      member_type = type;
      member_id = id;
      target = target;
      same_type = same_type;
      same_id = same_id;
    }

row_sound :
    (db : Db) (input : CheckInput) (t : AuthzTuple) (m : Option SubjectMembership)
    → Memᴰ t db.tuples
    → Matched (joins input) db.memberships (t, m)
    → selects input (t, m) ≡ true
    → IsPermitted db input
unfolding selects
row_sound db input t m stored on h =
    let (subject, c) = (and_iff (subject_condition input (t, m)) (covers input t)).0 h in
    elim (subject_condition_iff input t m subject) [
      | inl (same_type, same_id) ↦ inl (record {
        grant = t;
        stored = stored;
        covers = (covers_iff input t).0 c;
        subject_type = same_type;
        subject_id = same_id;
      })
      | inr (asks, member) ↦ inr (row-IsInherited db input t m stored on c asks member)
    ]

query_decision_sound :
    (db : Db) (input : CheckInput) → query_decision db input ≡ true → IsPermitted db input
unfolding query_decision
query_decision_sound db input h =
    let rows = left_join (joins input) db.memberships db.tuples in
    let (r, kept) = mem_of_take_one (keep (selects input) rows) h in
    let (listed, chosen) = mem-keep (selects input) rows kept in
    let (stored, on) = left_join_sound (joins input) db.memberships db.tuples r listed in
    row_sound db input r.0 r.1 stored on chosen

query_decision_complete :
    (db : Db) (input : CheckInput) → IsPermitted db input → query_decision db input ≡ true
unfolding query_decision selects
query_decision_complete db input (inl d) =
    let on = joins input in
    let (m, listed) = left_join_some on db.memberships db.tuples d.stored in
    let chosen = (and_iff (subject_condition input (d.grant, m)) (covers input d.grant)).1 (
      subject_condition_of_own input d.grant m (d.subject_type, d.subject_id),
      (covers_iff input d.grant).1 d.covers,
    ) in
    take_one_of_mem _ (mem_keep_of_mem (selects input) _ listed chosen)
query_decision_complete db input (inr h) =
    let on =
      (joins_iff input h.grant h.membership).1
        (h.member_type, h.member_id, h.target, h.same_type, h.same_id) in
    let listed = left_join_complete (joins input) db.memberships db.tuples h.stored h.joined on in
    let chosen =
      (and_iff (subject_condition input (h.grant, some h.membership)) (covers input h.grant)).1 (
        subject_condition_of_member input h.grant h.membership h.asks_for_user on,
        (covers_iff input h.grant).1 h.covers,
      ) in
    take_one_of_mem _ (mem_keep_of_mem (selects input) _ listed chosen)

-- The decision query answers true exactly when a stored grant covers the request and either
-- belongs to the subject itself, or the subject is a user with a stored membership in the team or
-- role that has the grant.
pub query_decision-IsPermitted :
    (db : Db) (input : CheckInput) → (query_decision db input ≡ true) ↔ IsPermitted db input
query_decision-IsPermitted db input =
    (query_decision_sound db input, query_decision_complete db input)
