-- ===== src/Authz/Tests.antt =====
-- Runs of the authorization package on a small database, and the properties at those inputs.
use kitstack.Base.{
  ◌≡◌, refl, ◌↔◌, inl, true, false, none, some, List, [], ◌∷◌, codes, ok, arith, text_eq, decide,
}
use kitstack.Authz.Types.{
  SubjectType-discrete, Relation-discrete, ObjectType-discrete, user, team, kit_use, kit_act, kit,
  CheckInput, SubjectMembership, AuthzTuple,
}
use kitstack.Authz.Db.{Db}
use kitstack.Authz.Engine.{query_decision, list_objects}
use kitstack.Authz.Engine.Spec.{IsPermitted, IsInherited}
use kitstack.Authz.Engine.Permitted.{query_decision-IsPermitted}
use kitstack.Authz.Keys.{cache_key, cache_key_iff, normal, IsClean}
use kitstack.Authz.Lifecycle.{grant_relation, revoke_relation, grant_membership}
use kitstack.Authz.Lifecycle.Mutations.{Mutation, join, revoke, apply, Versioned, apply-Versioned}
use kitstack.Authz.Lifecycle.WellFormed.{IsWellFormed, apply-IsWellFormed}
use kitstack.Authz.Lifecycle.Effect.{asked, query_decision-revoke_relation}
use kitstack.Authz.Cache.{GrantCache, check}
use kitstack.Authz.Cache.Revocation.{System, start, next, mutate, check_here, check-IsPermitted}
use kitstack.Authz.Middleware.{AuthzRequirement, authorize}
use kitstack.Authz.Middleware.Decisions.{settled, authorize-Answers, Answers}

abbrev empty_db : Db
empty_db = record { tuples = []; memberships = []; mappings = []; version_row = none }

abbrev member : SubjectMembership
member = record {
  member_type = user;
  member_id = codes "ann";
  subject_type = team;
  subject_id = codes "sales";
}

abbrev team_grant : AuthzTuple
team_grant = record {
  subject_type = team;
  subject_id = codes "sales";
  relation = kit_use;
  object_type = kit;
  object_id = codes "crm";
}

-- Ann is in the team "sales", which may use the kit "crm".
abbrev team_db : Db
team_db = record {
  tuples = team_grant ∷ [];
  memberships = member ∷ [];
  mappings = [];
  version_row = some 2;
}

abbrev ann_uses : CheckInput
ann_uses = record {
  subject_type = none;
  subject_id = codes "ann";
  relation = kit_use;
  object_type = kit;
  object_id = codes "crm";
}

runs : Unit {0}
unfolding query_decision grant_relation revoke_relation grant_membership check authorize
    list_objects cache_key apply text_eq decide SubjectType-discrete Relation-discrete
    ObjectType-discrete
runs = tt

two_mutations :
    (apply (grant_relation empty_db (codes "sales") kit_use kit (codes "crm") team) (join member))
    ≡ ok team_db
unfolding runs
two_mutations = refl

inherited : query_decision team_db ann_uses ≡ true
unfolding runs
inherited = refl

query_decision-IsPermitted_example :
    (query_decision team_db ann_uses ≡ true) ↔ IsPermitted team_db ann_uses
query_decision-IsPermitted_example = query_decision-IsPermitted team_db ann_uses

-- Bob's own grant, revoked.
abbrev bob_db : Db
bob_db = grant_relation team_db (codes "bob") kit_act kit (codes "crm") user

query_decision-revoke_relation_example :
    (query_decision
        (revoke_relation bob_db (codes "bob") kit_act kit (codes "crm") user)
        (asked bob_db (codes "bob") kit_act kit (codes "crm") user)
      ≡ true)
    ↔ IsInherited bob_db (asked bob_db (codes "bob") kit_act kit (codes "crm") user)
query_decision-revoke_relation_example =
    query_decision-revoke_relation bob_db (codes "bob") kit_act kit (codes "crm") user

apply-Versioned_example :
    Versioned (grant_relation empty_db (codes "sales") kit_use kit (codes "crm") team) team_db
apply-Versioned_example =
    apply-Versioned (grant_relation empty_db (codes "sales") kit_use kit (codes "crm") team)
      (join member) two_mutations

abbrev revoked_db : Db
revoked_db = record { tuples = []; memberships = member ∷ []; mappings = []; version_row = some 3 }

abbrev revocation : Mutation
revocation = revoke (codes "sales") kit_use kit (codes "crm") team

revocation_applied : apply team_db revocation ≡ ok revoked_db
unfolding runs
revocation_applied = refl

apply-IsWellFormed_example : IsWellFormed revoked_db
apply-IsWellFormed_example =
    apply-IsWellFormed team_db revocation
      (record {
        tuples = (refl, tt);
        memberships = (refl, tt);
        mappings = tt;
        targets = (inl refl, tt);
      })
      revocation_applied

ann-IsClean : IsClean (codes "ann")
ann-IsClean = omega arith

cache_key_iff_example :
    (cache_key ann_uses ≡ cache_key ann_uses) ↔ (normal ann_uses ≡ normal ann_uses)
cache_key_iff_example = cache_key_iff ann_uses ann_uses ann-IsClean ann-IsClean

abbrev cold : GrantCache
cold = record { ttl_ms = 600000; states = λ _. none }

abbrev before : System
before = record { db = team_db; cache = cold }

-- Ann is allowed, and the answer is cached; the team's grant is revoked a second later.
abbrev warm : System
warm = record before { cache = (check cold 7 team_db 1000 ann_uses).1 }

abbrev after : System
after = record warm { db = revoked_db }

revoked_at_once : (check after.cache 7 revoked_db 2000 ann_uses).0.allowed ≡ false
unfolding runs
revoked_at_once = refl

check-IsPermitted_example :
    ((check after.cache 7 revoked_db 2000 ann_uses).0.allowed ≡ true)
    ↔ IsPermitted revoked_db ann_uses
check-IsPermitted_example =
    check-IsPermitted 7 {s = before} {t = after} 2000 ann_uses refl
      (next (next start (check_here before 1000 ann_uses ann-IsClean))
        (mutate warm revocation revoked_db revocation_applied))
      ann-IsClean

abbrev needs : List AuthzRequirement
needs =
    record { relation = kit_use; object_type = kit; object_id = codes "crm" }
    ∷ record { relation = kit_act; object_type = kit; object_id = codes "crm" }
    ∷ []

authorize-Answers_example :
    Answers
      (λ _. team_db)
      (codes "ann")
      needs
      (authorize cold 7 (λ _. team_db) (λ k. k) (codes "ann") needs).0
authorize-Answers_example =
    authorize-Answers 7 (codes "ann") ann-IsClean cold (λ _. team_db) (λ k. k) needs (λ _. settled)
      tt

second_missing :
    (authorize cold 7 (λ _. team_db) (λ k. k) (codes "ann") needs).0.reason
    ≡ some (codes "Missing kit:act on kit:crm")
unfolding runs
second_missing = refl
