-- ===== src/Authz/Lifecycle/Effect.antt =====
-- What a grant, a revocation and a listing mean for the decisions that follow.
use kitstack.Base.{
  ◌≡◌, refl, ◌⊎◌, inl, inr, Bool, true, not, List, Text, ◌↔◌, delete_where, mem-insert_new, eq_iff,
  and4_iff, arith, keep, ◌==◌, Memᴰ, some, mem-keep, mem_keep_of_mem, ◌&&◌, text_instance,
}
use kitstack.Authz.Types.{
  SubjectType, Relation, ObjectType, AuthzTuple, CheckInput, tuple_eq, subject_type_eq, relation_eq,
  object_type_eq, user, team, role,
}
use kitstack.Authz.Db.{Db, bump_authorization_version}
use kitstack.Authz.Engine.{query_decision, list_objects}
use kitstack.Authz.Engine.Spec.{IsDirect, IsInherited}
use kitstack.Authz.Engine.Permitted.{query_decision-IsPermitted}
use kitstack.Authz.Lifecycle.{bump_if_changed, grant_relation, revoke_relation}
use mathlib.Core.List.Memᴰ.{of_map, map as mem_map}
use mathlib.Core.Path.{subst}

module _ {A : Type 0} (returned : List A) (db : Db) where
  tuples-bump_if_changed : (bump_if_changed returned db).tuples ≡ db.tuples
  unfolding bump_if_changed bump_authorization_version
  tuples-bump_if_changed = ground arith

  memberships-bump_if_changed : (bump_if_changed returned db).memberships ≡ db.memberships
  unfolding bump_if_changed bump_authorization_version
  memberships-bump_if_changed = ground arith

module _ (db : Db) (subject_id : Text) (relation : Relation) (object_type : ObjectType)
    (object_id : Text) (subject_type : SubjectType) where
  -- The check of what the operation is about.
  abbrev pub asked : CheckInput
  asked = record {
    subject_type = some subject_type;
    subject_id = subject_id;
    relation = relation;
    object_type = object_type;
    object_id = object_id;
  }

  abbrev named : AuthzTuple
  named = record {
    subject_type = subject_type;
    subject_id = subject_id;
    relation = relation;
    object_type = object_type;
    object_id = object_id;
  }

  -- After a grant, the check of what was granted is allowed.
  pub query_decision-grant_relation :
      query_decision
        (grant_relation db subject_id relation object_type object_id subject_type)
        asked
      ≡ true
  unfolding grant_relation
  query_decision-grant_relation = (query_decision-IsPermitted _ asked).1 (
      inl (record {
        grant = named;
        stored = rw tuples-bump_if_changed (mem-insert_new named db.tuples);
        covers = record { relation = refl; object_type = refl; object_id = refl };
        subject_type = refl;
        subject_id = refl;
      }))

  -- The condition of the deletion.
  abbrev revoked : AuthzTuple → Bool
  revoked t =
      t.subject_type == subject_type
      && t.subject_id == subject_id
      && t.relation == relation
      && t.object_type == object_type
      && t.object_id == object_id

  abbrev after_revoke : Db
  after_revoke = revoke_relation db subject_id relation object_type object_id subject_type

  tuples-revoke_relation : after_revoke.tuples ≡ keep (λ t. not (revoked t)) db.tuples
  unfolding revoke_relation delete_where
  tuples-revoke_relation = tuples-bump_if_changed _ _

  memberships-revoke_relation : after_revoke.memberships ≡ db.memberships
  unfolding revoke_relation
  memberships-revoke_relation = memberships-bump_if_changed _ _

  not-IsDirect-after_revoke : ¬ (IsDirect after_revoke asked)
  not-IsDirect-after_revoke d =
      let t = d.grant in
      let (_, left) =
        mem-keep (λ t. not (revoked t)) db.tuples (rw tuples-revoke_relation at d.stored) in
      cc (
        left,
        (eq_iff t.subject_type subject_type).1 d.subject_type,
        (eq_iff t.subject_id subject_id).1 d.subject_id,
        (eq_iff t.relation relation).1 d.covers.relation,
        (eq_iff t.object_type object_type).1 d.covers.object_type,
        (eq_iff t.object_id object_id).1 d.covers.object_id,
      )

  -- A grant to a team or a role is not the user's own.
  inherited_left :
      (t : AuthzTuple)
      → subject_type ≡ user
      → (t.subject_type ≡ team) ⊎ (t.subject_type ≡ role)
      → not (revoked t) ≡ true
  inherited_left t asks other = ground (arith, eq_iff t.subject_type subject_type)

  IsInherited-revoke_relation : IsInherited after_revoke asked ↔ IsInherited db asked
  IsInherited-revoke_relation = (
    λ h. record {
      asks_for_user = h.asks_for_user;
      grant = h.grant;
      stored = (mem-keep _ db.tuples (rw tuples-revoke_relation at h.stored)).0;
      covers = h.covers;
      membership = h.membership;
      joined = rw memberships-revoke_relation at h.joined;
      member_type = h.member_type;
      member_id = h.member_id;
      target = h.target;
      same_type = h.same_type;
      same_id = h.same_id;
    },
    λ h. record {
      asks_for_user = h.asks_for_user;
      grant = h.grant;
      stored = rw tuples-revoke_relation (
          mem_keep_of_mem _ db.tuples h.stored
            (inherited_left h.grant h.asks_for_user (rw h.same_type at h.target)));
      covers = h.covers;
      membership = h.membership;
      joined = rw memberships-revoke_relation h.joined;
      member_type = h.member_type;
      member_id = h.member_id;
      target = h.target;
      same_type = h.same_type;
      same_id = h.same_id;
    },
  )

  -- After a revocation, the check of what was revoked is allowed exactly when the subject is a user
  -- who inherits it, as before, from a team or a role.
  pub query_decision-revoke_relation :
      (query_decision after_revoke asked ≡ true) ↔ IsInherited db asked
  query_decision-revoke_relation = (
    λ h. elim ((query_decision-IsPermitted after_revoke asked).0 h) [
      | inl d ↦ absurd (not-IsDirect-after_revoke d)
      | inr i ↦ IsInherited-revoke_relation.0 i
    ],
    λ h. (query_decision-IsPermitted after_revoke asked).1 (inr (IsInherited-revoke_relation.1 h)),
  )

  abbrev listed : AuthzTuple → Bool
  listed t =
      t.subject_type == subject_type
      && t.subject_id == subject_id
      && t.relation == relation
      && t.object_type == object_type

  listed_iff :
      (t : AuthzTuple)
      → (listed t ≡ true) ↔ (
          (t.subject_type ≡ subject_type)
          × (t.subject_id ≡ subject_id)
          × (t.relation ≡ relation)
          × (t.object_type ≡ object_type))
  listed_iff t =
      let type = eq_iff t.subject_type subject_type in
      let id = eq_iff t.subject_id subject_id in
      let rel = eq_iff t.relation relation in
      let object = eq_iff t.object_type object_type in
      let parts =
        and4_iff (t.subject_type == subject_type) (t.subject_id == subject_id)
          (t.relation == relation) (t.object_type == object_type) in
      (
        λ h. let (a, b, c, d) = parts.0 h in (type.0 a, id.0 b, rel.0 c, object.0 d),
        λ (a, b, c, d). parts.1 (type.1 a, id.1 b, rel.1 c, object.1 d),
      )

  -- An object is listed exactly when the subject has a grant of its own on it: what is inherited
  -- from a team or a role is not listed.
  pub mem-list_objects :
      Memᴰ object_id (list_objects db subject_id relation object_type subject_type)
      ↔ IsDirect db asked
  unfolding list_objects
  mem-list_objects = (
    λ h.
        let (t, kept, same) = of_map (λ t. t.object_id) (keep listed db.tuples) h in
        let (stored, test) = mem-keep listed db.tuples kept in
        let (type, id, rel, object) = (listed_iff t).0 test in
        record {
          grant = t;
          stored = stored;
          covers = record { relation = rel; object_type = object; object_id = same };
          subject_type = type;
          subject_id = id;
        },
    λ d.
        let t = d.grant in
        let test =
          (listed_iff t).1
            (d.subject_type, d.subject_id, d.covers.relation, d.covers.object_type) in
        subst (λ o. Memᴰ o (list_objects db subject_id relation object_type subject_type))
          d.covers.object_id
          (mem_map (λ t. t.object_id) (mem_keep_of_mem listed db.tuples d.stored test)),
  )
