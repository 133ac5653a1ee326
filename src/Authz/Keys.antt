-- ===== src/Authz/Keys.antt =====
-- `cacheKey` of packages/authz/src/engine.ts: the wire names of the enumerations of types.ts, joined
-- by U+001F, and when two inputs share a key.
use kitstack.Base.{
  ◌≡◌, refl, sym, ap, ◌∙◌, ◌≢◌, ◌↔◌, Option, some, List, [], ◌∷◌, ◌++◌, Text, codes, or_else,
  text_eq, arith, All, if◌then◌else◌, ℕ,
}
use kitstack.Authz.Types.{SubjectType, user, Relation, ObjectType, CheckInput}

unfoldable pub subject_type_text : SubjectType → Text
subject_type_text SubjectType.organization = codes "organization"
subject_type_text SubjectType.team = codes "team"
subject_type_text SubjectType.role = codes "role"
subject_type_text SubjectType.application = codes "application"
subject_type_text SubjectType.user = codes "user"
subject_type_text SubjectType.service = codes "service"
subject_type_text SubjectType.delegated = codes "delegated"

unfoldable pub relation_text : Relation → Text
relation_text Relation.kit_use = codes "kit:use"
relation_text Relation.kit_act = codes "kit:act"
relation_text Relation.kit_deploy = codes "kit:deploy"
relation_text Relation.kit_telemetry = codes "kit:telemetry"
relation_text Relation.kit_admin = codes "kit:admin"
relation_text Relation.platform_admin = codes "platform:admin"

unfoldable pub object_type_text : ObjectType → Text
object_type_text ObjectType.organization = codes "organization"
object_type_text ObjectType.kit = codes "kit"
object_type_text ObjectType.platform = codes "platform"
object_type_text ObjectType.application = codes "application"

abbrev pub unit_separator : ℕ
unit_separator = 0x1f

-- `parts.join(separator)`, for a separator of one code unit
unfoldable pub join : ℕ → List Text → Text
join separator [] = []
join separator (part ∷ []) = part
join separator (part ∷ more) = part ++ (separator ∷ join separator more)

unfoldable pub cache_key : CheckInput → Text
unfolding join subject_type_text relation_text object_type_text
cache_key input = join unit_separator (
    subject_type_text (or_else input.subject_type user)
    ∷ input.subject_id
    ∷ relation_text input.relation
    ∷ object_type_text input.object_type
    ∷ input.object_id
    ∷ [])

-- No code unit of the text is the separator.
abbrev pub IsClean : Text → Type 0
IsClean s = All (λ c. c ≢ unit_separator) s

abbrev pub IsCleanInput : CheckInput → Type 0
IsCleanInput input = IsClean input.subject_id

split_at_separator :
    (a b s t : Text)
    → IsClean a
    → IsClean b
    → a ++ (unit_separator ∷ s) ≡ b ++ (unit_separator ∷ t)
    → (a ≡ b) × (s ≡ t)
split_at_separator [] [] s t _ _ h = (refl, cc)
split_at_separator [] (y ∷ b) s t _ cb h = absurd (cb.0 (cc))
split_at_separator (x ∷ a) [] s t ca _ h = absurd (ca.0 (cc))
split_at_separator (x ∷ a) (y ∷ b) s t ca cb h =
    let (same, rest) = split_at_separator a b s t ca.1 cb.1 (cc) in (cc, rest)

-- The names are told apart.
abbrev subject_type_of : Text → Option SubjectType
subject_type_of s =
    if text_eq s (codes "organization")
    then some SubjectType.organization
    else if text_eq s (codes "team")
    then some SubjectType.team
    else if text_eq s (codes "role")
    then some SubjectType.role
    else if text_eq s (codes "application")
    then some SubjectType.application
    else if text_eq s (codes "user")
    then some SubjectType.user
    else if text_eq s (codes "service")
    then some SubjectType.service
    else some SubjectType.delegated

subject_type_of-text : (t : SubjectType) → subject_type_of (subject_type_text t) ≡ some t
unfolding subject_type_text text_eq
subject_type_of-text SubjectType.organization = refl
subject_type_of-text _ = refl

abbrev relation_of : Text → Option Relation
relation_of s =
    if text_eq s (codes "kit:use")
    then some Relation.kit_use
    else if text_eq s (codes "kit:act")
    then some Relation.kit_act
    else if text_eq s (codes "kit:deploy")
    then some Relation.kit_deploy
    else if text_eq s (codes "kit:telemetry")
    then some Relation.kit_telemetry
    else if text_eq s (codes "kit:admin")
    then some Relation.kit_admin
    else some Relation.platform_admin

relation_of-text : (r : Relation) → relation_of (relation_text r) ≡ some r
unfolding relation_text text_eq
relation_of-text Relation.kit_use = refl
relation_of-text _ = refl

abbrev object_type_of : Text → Option ObjectType
object_type_of s =
    if text_eq s (codes "organization")
    then some ObjectType.organization
    else if text_eq s (codes "kit")
    then some ObjectType.kit
    else if text_eq s (codes "platform")
    then some ObjectType.platform
    else some ObjectType.application

object_type_of-text : (o : ObjectType) → object_type_of (object_type_text o) ≡ some o
unfolding object_type_text text_eq
object_type_of-text ObjectType.organization = refl
object_type_of-text _ = refl

subject_type_text-IsClean : (t : SubjectType) → IsClean (subject_type_text t)
unfolding subject_type_text
subject_type_text-IsClean SubjectType.organization = omega arith
subject_type_text-IsClean _ = omega arith

relation_text-IsClean : (r : Relation) → IsClean (relation_text r)
unfolding relation_text
relation_text-IsClean Relation.kit_use = omega arith
relation_text-IsClean _ = omega arith

object_type_text-IsClean : (o : ObjectType) → IsClean (object_type_text o)
unfolding object_type_text
object_type_text-IsClean ObjectType.organization = omega arith
object_type_text-IsClean _ = omega arith

injective_by {ℓ} :
    {A : Type ℓ} (text : A → Text) (of : Text → Option A) (a b : A)
    → ((x : A) → of (text x) ≡ some x)
    → text a ≡ text b
    → a ≡ b
injective_by text of a b inv h = cc (inv a, inv b, ap of h)

-- The input with the default subject type written out.
abbrev pub normal : CheckInput → CheckInput
normal input = record input { subject_type = some (or_else input.subject_type user) }

record SameParts (a b : CheckInput) : Type 0 where
  subject_type : or_else a.subject_type user ≡ or_else b.subject_type user
  subject_id : a.subject_id ≡ b.subject_id
  relation : a.relation ≡ b.relation
  object_type : a.object_type ≡ b.object_type
  object_id : a.object_id ≡ b.object_id

SameParts-of_keys :
    (a b : CheckInput) → IsCleanInput a → IsCleanInput b → cache_key a ≡ cache_key b → SameParts a b
unfolding cache_key
SameParts-of_keys a b ca cb h =
    let type = λ (i : CheckInput). or_else i.subject_type user in
    let text = λ (i : CheckInput). subject_type_text (type i) in
    let clean = subject_type_text-IsClean in
    let (st, h₁) = split_at_separator (text a) (text b) _ _ (clean (type a)) (clean (type b)) h in
    let (id, h₂) = split_at_separator a.subject_id b.subject_id _ _ ca cb h₁ in
    let (rel, h₃) =
      split_at_separator (relation_text a.relation) (relation_text b.relation) _ _
        (relation_text-IsClean a.relation) (relation_text-IsClean b.relation) h₂ in
    let (ot, object) =
      split_at_separator (object_type_text a.object_type) (object_type_text b.object_type) _ _
        (object_type_text-IsClean a.object_type) (object_type_text-IsClean b.object_type) h₃ in
    record {
      subject_type =
          injective_by subject_type_text subject_type_of (type a) (type b) subject_type_of-text st;
      subject_id = id;
      relation = injective_by relation_text relation_of a.relation b.relation relation_of-text rel;
      object_type =
          injective_by object_type_text object_type_of a.object_type b.object_type
            object_type_of-text ot;
      object_id = object;
    }

normal_of_SameParts : (a b : CheckInput) → SameParts a b → normal a ≡ normal b
normal_of_SameParts a b p = λ i. record {
  subject_type = some (p.subject_type i);
  subject_id = p.subject_id i;
  relation = p.relation i;
  object_type = p.object_type i;
  object_id = p.object_id i;
}

cache_key-normal : (a : CheckInput) → cache_key (normal a) ≡ cache_key a
unfolding cache_key
cache_key-normal a = refl

-- Two inputs whose subject ids hold no U+001F share a cache key exactly when they are the same
-- check, with the default subject type written out.
pub cache_key_iff :
    (a b : CheckInput)
    → IsCleanInput a
    → IsCleanInput b
    → (cache_key a ≡ cache_key b) ↔ (normal a ≡ normal b)
cache_key_iff a b ca cb = (
  λ h. normal_of_SameParts a b (SameParts-of_keys a b ca cb h),
  λ h. sym (cache_key-normal a) ∙ ap cache_key h ∙ cache_key-normal b,
)
