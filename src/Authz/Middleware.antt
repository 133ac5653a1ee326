-- ===== src/Authz/Middleware.antt =====
-- packages/authz/src/middleware.ts. Each check of the loop is a database round trip, between which
-- other requests may change the grants: the k-th check sees the k-th of a sequence of databases, at
-- the k-th reading of the clock.
pub mod Decisions
use kitstack.Base.{
  ℕ, suc, Bool, true, false, Option, none, some, List, [], ◌∷◌, ◌++◌, Text, codes, or_else,
  if◌then◌else◌,
}
use kitstack.Authz.Types.{Relation, ObjectType, CheckInput}
use kitstack.Authz.Db.{Db}
use kitstack.Authz.Keys.{relation_text, object_type_text}
use kitstack.Authz.Cache.{GrantCache, CheckResult, check}

pub record AuthzRequirement : Type 0 where
  pub relation : Relation
  pub object_type : ObjectType
  pub object_id : Text

pub record AuthorizeResult : Type 0 where
  pub allowed : Bool
  pub failed_check : Option AuthzRequirement
  pub reason : Option Text

abbrev pub input_of : Text → AuthzRequirement → CheckInput
input_of user_id req = record {
  subject_type = none;
  subject_id = user_id;
  relation = req.relation;
  object_type = req.object_type;
  object_id = req.object_id;
}

unfoldable pub missing : AuthzRequirement → Text
unfolding relation_text object_type_text
missing req =
    codes "Missing "
    ++ (relation_text req.relation
        ++ (codes " on " ++ (object_type_text req.object_type ++ (codes ":" ++ req.object_id))))

abbrev pub later {ℓ} : {A : Type ℓ} → (ℕ → A) → ℕ → A
later f k = f (suc k)

unfoldable pub authorize :
    GrantCache
    → ℕ
    → (ℕ → Db)
    → (ℕ → ℕ)
    → Text
    → List AuthzRequirement
    → AuthorizeResult × GrantCache
unfolding check missing
authorize cache handle dbs now user_id [] =
    (record { allowed = true; failed_check = none; reason = none }, cache)
authorize cache handle dbs now user_id (req ∷ requirements) =
    let (result, cache') = check cache handle (dbs 0) (now 0) (input_of user_id req) in
    let rest = authorize cache' handle (later dbs) (later now) user_id requirements in
    if result.allowed then rest else (
      record {
        allowed = false;
        failed_check = some req;
        reason = some (or_else result.reason (missing req));
      },
      cache',
    )
