-- ===== src/Authz/Lifecycle/WellFormed.antt =====
-- What holds of the tables between two mutations: the unique indexes of schema.ts, and memberships
-- in teams and roles alone.
use kitstack.Base.{
  ◌≡◌, ◌⊎◌, inl, inr, Bool, List, [], ◌∷◌, Text, Result, ok, err, ◌>>◌, insert_new,
  insert_new_cases, insert_new-IsUnique, keep-IsUnique, IsUnique, All, All-append, All-keep,
  Ensures, ensured, eq_iff, arith, Bool-cases, keep, ◌==◌,
}
use kitstack.Authz.Types.{
  team, role, SubjectMembership, IdentityMapping, AuthzTuple, tuple_eq, membership_eq, mapping_eq,
  subject_type_eq,
}
use kitstack.Authz.Db.{Db, bump_authorization_version}
use kitstack.Authz.Lifecycle.{
  bump_if_changed, grant_relation, revoke_relation, revoke_all_for_subject, validate_membership,
  grant_membership, revoke_membership, revoke_all_memberships_for_member, grant_identity_mapping,
  revoke_identity_mapping,
}
use kitstack.Authz.Lifecycle.Mutations.{
  Mutation, grant, revoke, revoke_all, join, leave, leave_all, map_claim, unmap_claim, apply,
}

abbrev pub IsTarget : SubjectMembership → Type 0
IsTarget m = (m.subject_type ≡ team) ⊎ (m.subject_type ≡ role)

pub record IsWellFormed (db : Db) : Type 0 where
  pub tuples : IsUnique db.tuples
  pub memberships : IsUnique db.memberships
  pub mappings : IsUnique db.mappings
  pub targets : All IsTarget db.memberships

-- The version is no part of the invariant.
bump_if_changed-IsWellFormed :
    {A : Type 0} (returned : List A) (db : Db)
    → IsWellFormed db
    → IsWellFormed (bump_if_changed returned db)
unfolding bump_if_changed bump_authorization_version
bump_if_changed-IsWellFormed [] db w = w
bump_if_changed-IsWellFormed (x ∷ xs) db w = ground arith

validate_membership-IsTarget :
    (m : SubjectMembership) → Ensures (λ _. IsTarget m) (validate_membership m)
unfolding validate_membership
validate_membership-IsTarget m = elim (Bool-cases (m.subject_type == team)) [
  | inl is_team ↦ rw is_team (inl ((eq_iff m.subject_type team).0 is_team))
  | inr not_team ↦ elim (Bool-cases (m.subject_type == role)) [
    | inl is_role ↦ rw (not_team, is_role) (inr ((eq_iff m.subject_type role).0 is_role))
    | inr not_role ↦ rw (not_team, not_role) tt
  ]
]

insert_new-All :
    (m : SubjectMembership) (rows : List SubjectMembership)
    → IsTarget m
    → All IsTarget rows
    → All IsTarget (insert_new m rows).0
insert_new-All m rows t h = elim (insert_new_cases m rows) [
  | inl old ↦ rw old h
  | inr (_, new) ↦ rw new (All-append IsTarget rows (m ∷ []) h (t, tt))
]

Ensures-with :
    {A : Type 0} (P : A → Type 0) (Q : Type 0) (m : Result Text (Unit {0})) (k : Result Text A)
    → Ensures (λ _. Q) m
    → (Q → Ensures P k)
    → Ensures P (m >> k)
Ensures-with P Q (ok _) k q h = h q
Ensures-with P Q (err e) k q h = tt

module _ (db : Db) (w : IsWellFormed db) where
  tuples_kept :
      {rows : List AuthzTuple} → IsUnique rows → IsWellFormed (record db { tuples = rows })
  tuples_kept u = record {
    tuples = u;
    memberships = w.memberships;
    mappings = w.mappings;
    targets = w.targets;
  }

  memberships_kept :
      {rows : List SubjectMembership}
      → IsUnique rows
      → All IsTarget rows
      → IsWellFormed (record db { memberships = rows })
  memberships_kept u t = record {
    tuples = w.tuples;
    memberships = u;
    mappings = w.mappings;
    targets = t;
  }

  mappings_kept :
      {rows : List IdentityMapping} → IsUnique rows → IsWellFormed (record db { mappings = rows })
  mappings_kept u = record {
    tuples = w.tuples;
    memberships = w.memberships;
    mappings = u;
    targets = w.targets;
  }

  members_left :
      (p : SubjectMembership → Bool)
      → IsWellFormed (record db { memberships = keep p db.memberships })
  members_left p =
      memberships_kept (keep-IsUnique p db.memberships w.memberships)
        (All-keep IsTarget p db.memberships w.targets)

  apply-IsWellFormed_lem : (m : Mutation) → Ensures IsWellFormed (apply db m)
  unfolding apply grant_relation revoke_relation revoke_all_for_subject grant_membership
      revoke_membership revoke_all_memberships_for_member grant_identity_mapping
      revoke_identity_mapping
  apply-IsWellFormed_lem (grant s r t o st) =
      bump_if_changed-IsWellFormed _ _ (tuples_kept (insert_new-IsUnique _ db.tuples w.tuples))
  apply-IsWellFormed_lem (revoke s r t o st) =
      bump_if_changed-IsWellFormed _ _ (tuples_kept (keep-IsUnique _ db.tuples w.tuples))
  apply-IsWellFormed_lem (revoke_all s st) =
      bump_if_changed-IsWellFormed _ _ (tuples_kept (keep-IsUnique _ db.tuples w.tuples))
  apply-IsWellFormed_lem (join m) =
      Ensures-with IsWellFormed (IsTarget m) (validate_membership m) _
        (validate_membership-IsTarget m)
        (λ t. bump_if_changed-IsWellFormed _ _ (
          memberships_kept (insert_new-IsUnique m db.memberships w.memberships)
            (insert_new-All m db.memberships t w.targets)))
  apply-IsWellFormed_lem (leave m) =
      Ensures-with IsWellFormed (IsTarget m) (validate_membership m) _
        (validate_membership-IsTarget m) (λ t. bump_if_changed-IsWellFormed _ _ (members_left _))
  apply-IsWellFormed_lem (leave_all m mt) = bump_if_changed-IsWellFormed _ _ (members_left _)
  apply-IsWellFormed_lem (map_claim m) =
      bump_if_changed-IsWellFormed _ _
        (mappings_kept (insert_new-IsUnique m db.mappings w.mappings))
  apply-IsWellFormed_lem (unmap_claim m) =
      bump_if_changed-IsWellFormed _ _ (mappings_kept (keep-IsUnique _ db.mappings w.mappings))

-- An accepted mutation keeps the unique indexes of the three tables, and every stored membership
-- in a team or a role.
pub apply-IsWellFormed :
    (db : Db) (m : Mutation) {after : Db}
    → IsWellFormed db
    → apply db m ≡ ok after
    → IsWellFormed after
apply-IsWellFormed db m w h = ensured IsWellFormed (apply db m) (apply-IsWellFormed_lem db w m) h
