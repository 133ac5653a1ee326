-- ===== src/Authz/Engine/Spec.antt =====
-- What a decision means: a grant of the subject, or of a team or role that has the user.
use kitstack.Base.{◌≡◌, ◌⊎◌, or_else, text_instance, Memᴰ}
use kitstack.Authz.Types.{
  SubjectType, user, team, role, AuthzTuple, SubjectMembership, CheckInput, subject_type_eq,
  relation_eq, object_type_eq,
}
use kitstack.Authz.Db.{Db}

abbrev pub subject_of : CheckInput → SubjectType
subject_of input = or_else input.subject_type user

-- The grant is for the object and the relation that are asked for.
pub record Covers (input : CheckInput) (t : AuthzTuple) : Type 0 where
  pub relation : t.relation ≡ input.relation
  pub object_type : t.object_type ≡ input.object_type
  pub object_id : t.object_id ≡ input.object_id

pub record IsDirect (db : Db) (input : CheckInput) : Type 0 where
  pub grant : AuthzTuple
  pub stored : Memᴰ grant db.tuples
  pub covers : Covers input grant
  pub subject_type : grant.subject_type ≡ subject_of input
  pub subject_id : grant.subject_id ≡ input.subject_id

pub record IsInherited (db : Db) (input : CheckInput) : Type 0 where
  pub asks_for_user : subject_of input ≡ user
  pub grant : AuthzTuple
  pub stored : Memᴰ grant db.tuples
  pub covers : Covers input grant
  pub membership : SubjectMembership
  pub joined : Memᴰ membership db.memberships
  pub member_type : membership.member_type ≡ user
  pub member_id : membership.member_id ≡ input.subject_id
  pub target : (membership.subject_type ≡ team) ⊎ (membership.subject_type ≡ role)
  pub same_type : membership.subject_type ≡ grant.subject_type
  pub same_id : membership.subject_id ≡ grant.subject_id

abbrev pub IsPermitted : Db → CheckInput → Type 0
IsPermitted db input = IsDirect db input ⊎ IsInherited db input
