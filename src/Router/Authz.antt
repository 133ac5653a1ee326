-- ===== src/Router/Authz.antt =====
-- packages/mcp-server/src/router/authz.ts: whether an identity may call a kit's tool. The checker of
-- tuples is an action on a world: the platform's asks the grant cache.
pub mod Permitted
use kitstack.Base.{
  ℕ, Bool, true, false, ◌||◌, not, Option, none, some, List, [], Text, codes, ◌++◌, Result, ok, err,
  if◌then◌else◌, ◌==◌, text_instance, or_else,
}
use kitstack.Authz.Types.{SubjectType, Relation, ObjectType, CheckInput}
use kitstack.Authz.Keys.{relation_text}
use kitstack.Authz.Db.{Db}
use kitstack.Authz.Cache.{GrantCache, check}
use kitstack.Dispatch.Types.{Action, pure, bind, ToolMode}

pub data McpIdentityKind : Type 0 where
  interactive delegated service : McpIdentityKind

pub record McpRequestIdentity : Type 0 where
  pub principal : Text
  pub actor : Text
  pub kind : McpIdentityKind
  pub delegation : Option Text

pub record ToolAuthorizationInput : Type 0 where
  pub identity : McpRequestIdentity
  pub mode : ToolMode
  pub kit_slug : Text

pub record ToolAuthorizationResult : Type 0 where
  pub allowed : Bool
  pub reason : Option Text

abbrev pub TupleChecker : Type 0 → Type 0
TupleChecker W = Text → Relation → ObjectType → Text → SubjectType → Action W Bool

unfoldable pub interactive_identity : Text → McpRequestIdentity
interactive_identity user_id = record {
  principal = user_id;
  actor = user_id;
  kind = McpIdentityKind.interactive;
  delegation = none;
}

abbrev pub mode_relation : ToolMode → Relation
mode_relation ToolMode.act = Relation.kit_act
mode_relation ToolMode.assist = Relation.kit_use

abbrev pub granted : ToolAuthorizationResult
granted = record { allowed = true; reason = none }

abbrev pub refused : Text → ToolAuthorizationResult
refused reason = record { allowed = false; reason = some reason }

-- `Missing ${relation} on kit:${kitSlug}` and for whom
unfoldable pub missing_on_kit : ToolAuthorizationInput → Text → Text
unfolding relation_text
missing_on_kit input whom =
    codes "Missing "
    ++ (relation_text (mode_relation input.mode) ++ (codes " on kit:" ++ (input.kit_slug ++ whom)))

abbrev pub answer_or : Text → Bool → ToolAuthorizationResult
answer_or reason true = granted
answer_or reason false = refused reason

module _ {W : Type 0} (checker : TupleChecker W) (input : ToolAuthorizationInput) where
  -- One question to the checker: the grant of this subject on the kit.
  abbrev pub ask : Text → SubjectType → Action W Bool
  ask subject_id subject_type =
      checker subject_id (mode_relation input.mode) ObjectType.kit input.kit_slug subject_type

  unfoldable pub check_actor : Bool → Action W ToolAuthorizationResult
  check_actor true =
      bind (ask input.identity.actor SubjectType.service)
        (λ allowed. pure (answer_or (missing_on_kit input (codes " for service actor")) allowed))
  check_actor false = pure (refused (missing_on_kit input (codes " for principal")))

  unfoldable pub authorize_tool_invocation : Action W ToolAuthorizationResult
  unfolding check_actor missing_on_kit
  authorize_tool_invocation =
      let same = input.identity.principal == input.identity.actor in
      elim input.identity.kind [
        | McpIdentityKind.interactive ↦
            if same
            then bind (ask input.identity.principal SubjectType.user)
                (λ allowed. pure (answer_or (missing_on_kit input []) allowed))
            else pure (refused (codes "Interactive identity actor must equal principal"))
        | McpIdentityKind.service ↦
            if same
            then bind (ask input.identity.actor SubjectType.service) (λ allowed.
              pure (answer_or (missing_on_kit input (codes " for service identity")) allowed))
            else pure (refused (codes "Service identity cannot impersonate a user principal"))
        | McpIdentityKind.delegated ↦
            if or_else input.identity.delegation [] == [] || same
            then pure
                (refused (codes "Delegated identity requires a distinct actor and delegation"))
            else bind (ask input.identity.principal SubjectType.user) check_actor
      ]

-- `mcpCheckTuple`, on the platform's grant cache: the database, the time and the handle of the client
-- are those of the moment of the call.
unfoldable pub mcp_check_tuple : (handle : ℕ) → Db → (now : ℕ) → TupleChecker GrantCache
unfolding check
mcp_check_tuple handle db now user_id relation object_type object_id subject_type cache =
    let (result, cache') = check cache handle db now (record {
      subject_type = some subject_type;
      subject_id = user_id;
      relation = relation;
      object_type = object_type;
      object_id = object_id;
    }) in
    (ok result.allowed, cache')
