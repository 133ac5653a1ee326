-- ===== src/Authz/Types.antt =====
-- packages/authz/src/types.ts, and the columns of schema.ts: the rows of the three tables.
-- The random row ids and the creation times are left out: no condition reads them.
use kitstack.Base.{
  ◌≡◌, ◌↔◌, Bool, true, ◌&&◌, eq_of_discrete, Option, Text, Equality, ◌==◌, eq_iff, text_instance,
  arith,
}

pub data SubjectType : Type 0 where
  organization team role application user service delegated : SubjectType

pub data Relation : Type 0 where
  kit_use kit_act kit_deploy kit_telemetry kit_admin platform_admin : Relation

pub data ObjectType : Type 0 where
  organization kit platform application : ObjectType

pub data IdentityMappingType : Type 0 where
  group app_role : IdentityMappingType

pub record AuthzTuple : Type 0 where
  pub subject_type : SubjectType
  pub subject_id : Text
  pub relation : Relation
  pub object_type : ObjectType
  pub object_id : Text

pub record CheckInput : Type 0 where
  pub subject_type : Option SubjectType
  pub subject_id : Text
  pub relation : Relation
  pub object_type : ObjectType
  pub object_id : Text

pub record SubjectMembership : Type 0 where
  pub member_type : SubjectType
  pub member_id : Text
  pub subject_type : SubjectType
  pub subject_id : Text

pub record IdentityMapping : Type 0 where
  pub provider : Text
  pub tenant_id : Text
  pub mapping_type : IdentityMappingType
  pub claim_value : Text
  pub subject_type : SubjectType
  pub subject_id : Text

unfoldable pub SubjectType-discrete : Discrete SubjectType
SubjectType-discrete = hlevel

instance abbrev pub subject_type_eq : Equality SubjectType
subject_type_eq = eq_of_discrete SubjectType-discrete

unfoldable pub Relation-discrete : Discrete Relation
Relation-discrete = hlevel

instance abbrev pub relation_eq : Equality Relation
relation_eq = eq_of_discrete Relation-discrete

unfoldable pub ObjectType-discrete : Discrete ObjectType
ObjectType-discrete = hlevel

instance abbrev pub object_type_eq : Equality ObjectType
object_type_eq = eq_of_discrete ObjectType-discrete

unfoldable pub IdentityMappingType-discrete : Discrete IdentityMappingType
IdentityMappingType-discrete = hlevel

instance abbrev pub mapping_type_eq : Equality IdentityMappingType
mapping_type_eq = eq_of_discrete IdentityMappingType-discrete

-- Equality of whole rows, which the unique indexes of schema.ts compare.
abbrev pub tuple_beq : AuthzTuple → AuthzTuple → Bool
tuple_beq a b =
    a.subject_type == b.subject_type
    && a.subject_id == b.subject_id
    && a.relation == b.relation
    && a.object_type == b.object_type
    && a.object_id == b.object_id

pub tuple_beq_iff : (a b : AuthzTuple) → (tuple_beq a b ≡ true) ↔ (a ≡ b)
tuple_beq_iff a b = ground (
  arith,
  eq_iff a.subject_type b.subject_type,
  eq_iff a.subject_id b.subject_id,
  eq_iff a.relation b.relation,
  eq_iff a.object_type b.object_type,
  eq_iff a.object_id b.object_id,
)

instance abbrev pub tuple_eq : Equality AuthzTuple
tuple_eq = record { equals = tuple_beq; equals_iff = tuple_beq_iff }

abbrev pub membership_beq : SubjectMembership → SubjectMembership → Bool
membership_beq a b =
    a.member_type == b.member_type
    && a.member_id == b.member_id
    && a.subject_type == b.subject_type
    && a.subject_id == b.subject_id

pub membership_beq_iff : (a b : SubjectMembership) → (membership_beq a b ≡ true) ↔ (a ≡ b)
membership_beq_iff a b = ground (
  arith,
  eq_iff a.member_type b.member_type,
  eq_iff a.member_id b.member_id,
  eq_iff a.subject_type b.subject_type,
  eq_iff a.subject_id b.subject_id,
)

instance abbrev pub membership_eq : Equality SubjectMembership
membership_eq = record { equals = membership_beq; equals_iff = membership_beq_iff }

abbrev pub mapping_beq : IdentityMapping → IdentityMapping → Bool
mapping_beq a b =
    a.provider == b.provider
    && a.tenant_id == b.tenant_id
    && a.mapping_type == b.mapping_type
    && a.claim_value == b.claim_value
    && a.subject_type == b.subject_type
    && a.subject_id == b.subject_id

pub mapping_beq_iff : (a b : IdentityMapping) → (mapping_beq a b ≡ true) ↔ (a ≡ b)
mapping_beq_iff a b = ground (
  arith,
  eq_iff a.provider b.provider,
  eq_iff a.tenant_id b.tenant_id,
  eq_iff a.mapping_type b.mapping_type,
  eq_iff a.claim_value b.claim_value,
  eq_iff a.subject_type b.subject_type,
  eq_iff a.subject_id b.subject_id,
)

instance abbrev pub mapping_eq : Equality IdentityMapping
mapping_eq = record { equals = mapping_beq; equals_iff = mapping_beq_iff }
