-- ===== src/Authz/Db.antt =====
-- packages/authz/src/schema.ts and version.ts: the tables, and the version that every change of
-- them advances. A statement of the query builder is read as the SQL statement that it states.
use kitstack.Base.{ℕ, ◌+◌, ◌≡◌, arith, Option, none, some, List, or_else}
use kitstack.Authz.Types.{AuthzTuple, SubjectMembership, IdentityMapping}

pub record Db : Type 0 where
  pub tuples : List AuthzTuple
  pub memberships : List SubjectMembership
  pub mappings : List IdentityMapping
  -- the row of `authz_version` with id 1, if it is there
  pub version_row : Option ℕ

unfoldable pub authorization_version : Db → ℕ
authorization_version db = or_else db.version_row 0

abbrev bumped : Option ℕ → ℕ
bumped none = 1
bumped (some v) = v + 1

-- `INSERT … ON CONFLICT (id) DO UPDATE SET version = version + 1`
unfoldable pub bump_authorization_version : Db → Db
bump_authorization_version db = record db { version_row = some (bumped db.version_row) }

pub authorization_version-bump :
    (db : Db) → authorization_version (bump_authorization_version db) ≡ authorization_version db + 1
unfolding authorization_version bump_authorization_version
authorization_version-bump db = ground arith
