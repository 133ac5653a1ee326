-- ===== src/Authz/Lifecycle.antt =====
-- packages/authz/src/lifecycle.ts: the operations that change grants, memberships and mappings.
pub mod Mutations
pub mod WellFormed
pub mod Effect
use kitstack.Base.{
  not, ◌&&◌, List, Text, codes, length, ltb, if◌then◌else◌, ◌==◌, text_instance, Result, ok, err,
  ◌>>◌, insert_new, delete_where,
}
use kitstack.Authz.Types.{
  SubjectType, team, role, Relation, ObjectType, AuthzTuple, SubjectMembership, IdentityMapping,
  subject_type_eq, relation_eq, object_type_eq, mapping_type_eq, tuple_eq, membership_eq,
  mapping_eq,
}
use kitstack.Authz.Db.{Db, bump_authorization_version}

-- `if (rows.length > 0) await bumpAuthorizationVersion(db)`
unfoldable pub bump_if_changed {ℓ} : {A : Type ℓ} → List A → Db → Db
unfolding bump_authorization_version
bump_if_changed returned db = if ltb 0 (length returned) then bump_authorization_version db else db

unfoldable pub grant_relation : Db → Text → Relation → ObjectType → Text → SubjectType → Db
unfolding bump_if_changed insert_new
grant_relation db subject_id relation object_type object_id subject_type =
    let row : AuthzTuple = record {
      subject_type = subject_type;
      subject_id = subject_id;
      relation = relation;
      object_type = object_type;
      object_id = object_id;
    } in
    let (rows, inserted) = insert_new row db.tuples in
    bump_if_changed inserted (record db { tuples = rows })

unfoldable pub revoke_relation : Db → Text → Relation → ObjectType → Text → SubjectType → Db
unfolding bump_if_changed delete_where
revoke_relation db subject_id relation object_type object_id subject_type =
    let (rows, deleted) =
      delete_where
        (λ t.
          t.subject_type == subject_type
          && t.subject_id == subject_id
          && t.relation == relation
          && t.object_type == object_type
          && t.object_id == object_id)
        db.tuples in
    bump_if_changed deleted (record db { tuples = rows })

unfoldable pub revoke_all_for_subject : Db → Text → SubjectType → Db
unfolding bump_if_changed delete_where
revoke_all_for_subject db subject_id subject_type =
    let (rows, deleted) =
      delete_where (λ t. t.subject_type == subject_type && t.subject_id == subject_id) db.tuples in
    bump_if_changed deleted (record db { tuples = rows })

unfoldable pub validate_membership : SubjectMembership → Result Text (Unit {0})
validate_membership m =
    if not (m.subject_type == team) && not (m.subject_type == role)
    then err (codes "Membership targets must be a team or role")
    else ok tt

unfoldable pub grant_membership : Db → SubjectMembership → Result Text Db
unfolding bump_if_changed insert_new validate_membership
grant_membership db membership = do
  validate_membership membership
  let (rows, inserted) = insert_new membership db.memberships
  ok (bump_if_changed inserted (record db { memberships = rows }))

unfoldable pub revoke_membership : Db → SubjectMembership → Result Text Db
unfolding bump_if_changed delete_where validate_membership
revoke_membership db membership = do
  validate_membership membership
  let (rows, deleted) =
      delete_where
        (λ m.
          m.member_type == membership.member_type
          && m.member_id == membership.member_id
          && m.subject_type == membership.subject_type
          && m.subject_id == membership.subject_id)
        db.memberships
  ok (bump_if_changed deleted (record db { memberships = rows }))

unfoldable pub revoke_all_memberships_for_member : Db → Text → SubjectType → Db
unfolding bump_if_changed delete_where
revoke_all_memberships_for_member db member_id member_type =
    let (rows, deleted) =
      delete_where (λ m. m.member_type == member_type && m.member_id == member_id) db.memberships in
    bump_if_changed deleted (record db { memberships = rows })

unfoldable pub grant_identity_mapping : Db → IdentityMapping → Db
unfolding bump_if_changed insert_new
grant_identity_mapping db mapping =
    let (rows, inserted) = insert_new mapping db.mappings in
    bump_if_changed inserted (record db { mappings = rows })

unfoldable pub revoke_identity_mapping : Db → IdentityMapping → Db
unfolding bump_if_changed delete_where
revoke_identity_mapping db mapping =
    let (rows, deleted) =
      delete_where
        (λ m.
          m.provider == mapping.provider
          && m.tenant_id == mapping.tenant_id
          && m.mapping_type == mapping.mapping_type
          && m.claim_value == mapping.claim_value
          && m.subject_type == mapping.subject_type
          && m.subject_id == mapping.subject_id)
        db.mappings in
    bump_if_changed deleted (record db { mappings = rows })
