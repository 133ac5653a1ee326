-- ===== src/Authz/Engine.antt =====
-- packages/authz/src/engine.ts without its cache: the decision query and the two listings.
pub mod Spec
pub mod Join
pub mod Conditions
pub mod Permitted
use kitstack.Base.{
  ℕ, ◌<◌, Bool, true, false, ◌&&◌, ◌||◌, Option, none, some, List, [], ◌∷◌, ◌++◌, map, Text, length,
  ltb, take, keep, or_else, if◌then◌else◌, ◌==◌, text_instance,
}
use kitstack.Authz.Types.{
  SubjectType, user, team, role, Relation, ObjectType, IdentityMappingType, AuthzTuple,
  SubjectMembership, IdentityMapping, CheckInput, subject_type_eq, relation_eq, object_type_eq,
  mapping_type_eq,
}
use kitstack.Authz.Db.{Db}

-- One row of the left join: a grant, and a membership or SQL's NULLs.
abbrev pub Joined : Type 0
Joined = AuthzTuple × Option SubjectMembership

-- The rows of the join for one grant and the memberships that match it.
unfoldable pub join_matches : AuthzTuple → List SubjectMembership → List Joined
join_matches t [] = (t, none) ∷ []
join_matches t (m ∷ ms) = map (λ k. (t, some k)) (m ∷ ms)

unfoldable pub left_join :
    (AuthzTuple → SubjectMembership → Bool) → List SubjectMembership → List AuthzTuple → List Joined
unfolding join_matches keep
left_join on ms [] = []
left_join on ms (t ∷ ts) = join_matches t (keep (on t) ms) ++ left_join on ms ts

-- The condition of the join, for one input.
unfoldable pub joins : CheckInput → AuthzTuple → SubjectMembership → Bool
joins input t m =
    m.member_type == user
    && m.member_id == input.subject_id
    && (m.subject_type == team || m.subject_type == role)
    && m.subject_type == t.subject_type
    && m.subject_id == t.subject_id

-- `eq(authzMemberships.memberType, "user") AND eq(…memberId, subjectId)`; NULL is not true.
abbrev pub is_member : Text → Option SubjectMembership → Bool
is_member subject_id none = false
is_member subject_id (some m) = m.member_type == user && m.member_id == subject_id

-- `subjectCondition`
unfoldable pub subject_condition : CheckInput → Joined → Bool
subject_condition input (t, m) =
    let subject_type = or_else input.subject_type user in
    let direct = t.subject_type == subject_type && t.subject_id == input.subject_id in
    if subject_type == user then direct || is_member input.subject_id m else direct

unfoldable pub covers : CheckInput → AuthzTuple → Bool
covers input t =
    t.relation == input.relation
    && t.object_type == input.object_type
    && t.object_id == input.object_id

-- The condition of the selection, for one input.
unfoldable pub selects : CheckInput → Joined → Bool
unfolding subject_condition covers
selects input r = subject_condition input r && covers input r.0

unfoldable pub query_decision : Db → CheckInput → Bool
unfolding left_join joins selects keep
query_decision db input =
    let rows = take 1 (keep (selects input) (left_join (joins input) db.memberships db.tuples)) in
    ltb 0 (length rows)

unfoldable pub list_objects : Db → Text → Relation → ObjectType → SubjectType → List Text
unfolding keep
list_objects db subject_id relation object_type subject_type =
    map (λ t. t.object_id)
      (keep
        (λ t.
          t.subject_type == subject_type
          && t.subject_id == subject_id
          && t.relation == relation
          && t.object_type == object_type)
        db.tuples)

abbrev type_matches : Option SubjectType → SubjectType → Bool
type_matches none actual = true
type_matches (some wanted) actual = actual == wanted

unfoldable pub list_subjects : Db → Relation → ObjectType → Text → Option SubjectType → List Text
unfolding keep
list_subjects db relation object_type object_id subject_type =
    map (λ t. t.subject_id)
      (keep
        (λ t.
          t.relation == relation
          && t.object_type == object_type
          && t.object_id == object_id
          && type_matches subject_type t.subject_type)
        db.tuples)

-- listIdentityMappings of lifecycle.ts
unfoldable pub list_identity_mappings :
    Db → Text → Text → IdentityMappingType → Text → List (SubjectType × Text)
unfolding keep
list_identity_mappings db provider tenant_id mapping_type claim_value =
    map (λ m. (m.subject_type, m.subject_id))
      (keep
        (λ m.
          m.provider == provider
          && m.tenant_id == tenant_id
          && m.mapping_type == mapping_type
          && m.claim_value == claim_value)
        db.mappings)
