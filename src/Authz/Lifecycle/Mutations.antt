-- ===== src/Authz/Lifecycle/Mutations.antt =====
-- The operations of lifecycle.ts as one type, and what the application of one can do to the rows
-- and to the version.
use kitstack.Base.{
  Equality, Bool, ◌+◌, ◌≡◌, refl, inl, inr, List, [], ◌∷◌, Text, Result, ok, insert_new,
  delete_where, arith, Ensures-then, Ensures, ensured, ◌∙◌, any, ◌==◌, Bool-cases,
  keep_of_none_deleted, ap,
}
use kitstack.Authz.Types.{
  SubjectType, Relation, ObjectType, SubjectMembership, IdentityMapping, tuple_eq, membership_eq,
  mapping_eq, AuthzTuple,
}
use kitstack.Authz.Db.{
  Db, bump_authorization_version, authorization_version, authorization_version-bump,
}
use kitstack.Authz.Lifecycle.{
  bump_if_changed, grant_relation, revoke_relation, revoke_all_for_subject, validate_membership,
  grant_membership, revoke_membership, revoke_all_memberships_for_member, grant_identity_mapping,
  revoke_identity_mapping,
}

pub data Mutation : Type 0 where
  grant revoke : Text → Relation → ObjectType → Text → SubjectType → Mutation
  revoke_all : Text → SubjectType → Mutation
  join leave : SubjectMembership → Mutation
  leave_all : Text → SubjectType → Mutation
  map_claim unmap_claim : IdentityMapping → Mutation

unfoldable pub apply : Db → Mutation → Result Text Db
apply db (grant s r t o st) = ok (grant_relation db s r t o st)
apply db (revoke s r t o st) = ok (revoke_relation db s r t o st)
apply db (revoke_all s st) = ok (revoke_all_for_subject db s st)
apply db (join m) = grant_membership db m
apply db (leave m) = revoke_membership db m
apply db (leave_all m mt) = ok (revoke_all_memberships_for_member db m mt)
apply db (map_claim m) = ok (grant_identity_mapping db m)
apply db (unmap_claim m) = ok (revoke_identity_mapping db m)

-- A change of the database: none at all, or one version on.
pub data Versioned (before after : Db) : Type 0 where
  unchanged : after ≡ before → Versioned before after
  advanced : authorization_version after ≡ authorization_version before + 1 → Versioned before after

bump_if_changed-cons :
    {A : Type 0} (x : A) (xs : List A) (db : Db)
    → bump_if_changed (x ∷ xs) db ≡ bump_authorization_version db
unfolding bump_if_changed
bump_if_changed-cons x xs db = ground arith

bump_if_changed-Versioned :
    {A : Type 0} (db after : Db) (returned : List A)
    → after.version_row ≡ db.version_row
    → (returned ≡ [] → after ≡ db)
    → Versioned db (bump_if_changed returned after)
bump_if_changed-Versioned db after [] row same = unfold bump_if_changed in unchanged (same refl)
bump_if_changed-Versioned db after (x ∷ xs) row same = advanced (
    ap authorization_version (bump_if_changed-cons x xs after)
    ∙ authorization_version-bump after
    ∙ ap (λ v. v + 1) version_of_row)
  where
    version_of_row : authorization_version after ≡ authorization_version db
    version_of_row = unfold authorization_version in rw row

nothing_inserted :
    {A : Type 0} ⦃e : Equality A⦄ (row : A) (rows : List A)
    → (insert_new row rows).1 ≡ []
    → (insert_new row rows).0 ≡ rows
unfolding insert_new
nothing_inserted row rows h = elim (Bool-cases (any (λ r. r == row) rows)) [
  | inl old ↦ rw old
  | inr new ↦ absurd (cc (rw new at h))
]

nothing_deleted :
    {A : Type 0} (p : A → Bool) (rows : List A)
    → (delete_where p rows).1 ≡ []
    → (delete_where p rows).0 ≡ rows
unfolding delete_where
nothing_deleted p rows h = keep_of_none_deleted p rows h

module _ (db : Db) where
  with_tuples : {rows : List AuthzTuple} → rows ≡ db.tuples → record db { tuples = rows } ≡ db
  with_tuples h = ap (λ rows. record db { tuples = rows }) h

  with_memberships :
      {rows : List SubjectMembership}
      → rows ≡ db.memberships
      → record db { memberships = rows } ≡ db
  with_memberships h = ap (λ rows. record db { memberships = rows }) h

  with_mappings :
      {rows : List IdentityMapping} → rows ≡ db.mappings → record db { mappings = rows } ≡ db
  with_mappings h = ap (λ rows. record db { mappings = rows }) h

  apply-Versioned_lem : (m : Mutation) → Ensures (Versioned db) (apply db m)
  unfolding apply grant_relation revoke_relation revoke_all_for_subject grant_membership
      revoke_membership revoke_all_memberships_for_member grant_identity_mapping
      revoke_identity_mapping
  apply-Versioned_lem (grant s r t o st) =
      bump_if_changed-Versioned db _ _ refl (λ h. with_tuples (nothing_inserted _ db.tuples h))
  apply-Versioned_lem (revoke s r t o st) =
      bump_if_changed-Versioned db _ _ refl (λ h. with_tuples (nothing_deleted _ db.tuples h))
  apply-Versioned_lem (revoke_all s st) =
      bump_if_changed-Versioned db _ _ refl (λ h. with_tuples (nothing_deleted _ db.tuples h))
  apply-Versioned_lem (join m) = Ensures-then (Versioned db) (validate_membership m) _ (
      bump_if_changed-Versioned db _ _ refl
        (λ h. with_memberships (nothing_inserted m db.memberships h)))
  apply-Versioned_lem (leave m) = Ensures-then (Versioned db) (validate_membership m) _ (
      bump_if_changed-Versioned db _ _ refl
        (λ h. with_memberships (nothing_deleted _ db.memberships h)))
  apply-Versioned_lem (leave_all m mt) =
      bump_if_changed-Versioned db _ _ refl
        (λ h. with_memberships (nothing_deleted _ db.memberships h))
  apply-Versioned_lem (map_claim m) =
      bump_if_changed-Versioned db _ _ refl (λ h. with_mappings (nothing_inserted m db.mappings h))
  apply-Versioned_lem (unmap_claim m) =
      bump_if_changed-Versioned db _ _ refl (λ h. with_mappings (nothing_deleted _ db.mappings h))

-- A mutation that is accepted either changes nothing at all, or advances the version by one.
pub apply-Versioned :
    (db : Db) (m : Mutation) {after : Db} → apply db m ≡ ok after → Versioned db after
apply-Versioned db m h = ensured (Versioned db) (apply db m) (apply-Versioned_lem db m) h
