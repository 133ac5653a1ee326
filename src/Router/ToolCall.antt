-- ===== src/Router/ToolCall.antt =====
-- `dispatchToolCall` of packages/mcp-server/src/router/tool-dispatcher.ts, with kit-resources.ts. The
-- registry is the list that `getAllTools` returned. The two writes behind an answer, which the source
-- starts and does not await, run here at once, one after the other; logs are left out.
pub mod Governed
use kitstack.Base.{
  ℕ, Bool, true, false, ◌||◌, ◌&&◌, not, Option, none, some, List, [], ◌∷◌, Text, codes, ◌++◌,
  Result, ok, err, if◌then◌else◌, ◌==◌, text_instance, or_else, trim, decimal,
}
use kitstack.Audit.Dispatch.{DispatchAuditEvent}
use kitstack.Dispatch.Types.{
  Action, pure, bind, ToolMode, DispatchErrorCode, KitToolContentBlock, DispatchResult, Delegation,
  SessionContext, DispatchEnvelope, DispatchTarget, DispatchResolution, Verdict, DispatchDecision,
  DispatchDependencies,
}
use kitstack.Dispatch.{create_dispatch_envelope, dispatch, allowed_decision, refusal}
use kitstack.Router.Authz.{
  McpRequestIdentity, ToolAuthorizationInput, ToolAuthorizationResult, TupleChecker,
  interactive_identity, authorize_tool_invocation,
}
use kitstack.Router.Dispatcher.{
  OAuthStore, check_circuit_breaker, check_daily_cap, record_circuit_breaker_result,
  increment_daily_cap, daily_invocation_cap,
}

pub record KitRegistryItem : Type 0 where
  pub kit_id : Text
  pub tool_name : Text
  pub kit_name : Text
  pub lambda_resource : Option Text
  pub mode : Option ToolMode

pub record UserKitDbItem : Type 0 where
  pub db_url : Text
  pub db_token : Text

pub record KitToolInvocation (Args : Type 0) : Type 0 where
  pub tool_name : Text
  pub args : Args
  pub user_id : Text
  pub kit_id : Text
  pub db_url : Text
  pub db_token : Text
  pub session_id : Text
  pub trace_id : Text
  pub parent_id : Option Text

pub record RequestContext : Type 0 where
  pub request_id : Option Text
  pub session_id : Option Text
  pub trace_id : Option Text
  pub parent_id : Option Text
  pub identity : Option McpRequestIdentity

-- The platform around the gateway.
pub record RouterHost (W Args : Type 0) : Type 0 where
  pub store : OAuthStore W
  pub check_tuple : TupleChecker W
  pub get_user_kit_db : (user_id kit_id : Text) → Action W (Option UserKitDbItem)
  pub invoke_kit_lambda : (function_id : Text) → KitToolInvocation Args → Action W DispatchResult
  pub audit_sink : Option (DispatchAuditEvent → Action W (Unit {0}))

-- When the breaker is read and written, and the day (UTC) of the cap's read and write.
pub record Clock : Type 0 where
  pub checked_at : ℕ
  pub recorded_at : ℕ
  pub checked_on : Text
  pub counted_on : Text

abbrev pub find : {A : Type 0} → (A → Bool) → List A → Option A
find p [] = none
find p (x ∷ xs) = if p x then some x else find p xs

abbrev pub is_given : Option Text → Bool
is_given text = not (or_else text [] == [])

-- `value?.trim() || fallback`
unfoldable pub trimmed_or : Option Text → Text → Text
unfolding trim
trimmed_or none fallback = fallback
trimmed_or (some value) fallback = if trim value == [] then fallback else trim value

-- `null` is never the answer.
unfoldable pub get_kit_function_id : Text → List KitRegistryItem → Text
get_kit_function_id kit_id tools =
    elim (find (λ t. t.kit_id == kit_id && is_given t.lambda_resource) tools) [
      | none ↦ codes "Kit-" ++ kit_id
      | some t ↦ or_else t.lambda_resource []
    ]

unfoldable pub get_kit_authz_slug : Text → Text
get_kit_authz_slug kit_id = kit_id ++ codes "-kit"

abbrev pub error_result : Text → DispatchResult
error_result message = record {
  is_error = some true;
  content = KitToolContentBlock.text message ∷ [];
  error_code = none;
}

abbrev invocation_failed : Text → DispatchResult
invocation_failed message = record {
  is_error = some true;
  content = KitToolContentBlock.text (codes "Kit invocation failed: " ++ message) ∷ [];
  error_code = some DispatchErrorCode.provider_failure;
}

unfoldable pub tool_authorization : McpRequestIdentity → KitRegistryItem → ToolAuthorizationInput
unfolding get_kit_authz_slug
tool_authorization identity tool = record {
  identity = identity;
  mode = or_else tool.mode ToolMode.assist;
  kit_slug = get_kit_authz_slug tool.kit_id;
}

abbrev pub authorization_verdict : KitRegistryItem → ToolAuthorizationResult → Verdict
authorization_verdict tool authorization = Verdict.decision (
    if authorization.allowed
    then allowed_decision
    else refusal (
        codes "Kit \""
        ++ (tool.kit_name ++ codes "\" is not authorized for this operation (not activated).")))

abbrev pub disabled : KitRegistryItem → DispatchDecision
disabled tool = refusal (
    codes "Kit \""
    ++ (tool.kit_name
        ++ codes "\" is temporarily disabled due to repeated errors. Try again in a few minutes."))

unfoldable pub limit_reached : KitRegistryItem → DispatchDecision
unfolding decimal
limit_reached tool = refusal (
    codes "Daily usage limit reached for \""
    ++ (tool.kit_name
        ++ (codes "\" ("
            ++ (decimal daily_invocation_cap ++ codes " calls/day). Resets at midnight UTC."))))

abbrev pub not_provisioned : KitRegistryItem → DispatchResult
not_provisioned tool = error_result (
    codes "Kit \""
    ++ (tool.kit_name
        ++ codes "\" database is not provisioned. Please re-activate it at kitstack.co/dashboard."))

abbrev pub invocation_of :
    {Args : Type 0}
    → McpRequestIdentity
    → KitRegistryItem
    → DispatchEnvelope Args
    → UserKitDbItem
    → KitToolInvocation Args
invocation_of identity tool envelope db = record {
  tool_name = envelope.command;
  args = envelope.args;
  user_id = identity.principal;
  kit_id = tool.kit_id;
  db_url = db.db_url;
  db_token = db.db_token;
  session_id = envelope.session.id;
  trace_id = envelope.session.trace_id;
  parent_id = envelope.session.parent_id;
}

module _ {W : Type 0} where
  unfoldable pub check_tool_grant :
      TupleChecker W → McpRequestIdentity → KitRegistryItem → Action W Verdict
  unfolding authorize_tool_invocation tool_authorization
  check_tool_grant check_tuple identity tool =
      bind (authorize_tool_invocation check_tuple (tool_authorization identity tool))
        (λ authorization. pure (authorization_verdict tool authorization))

  unfoldable pub check_tool_policy :
      OAuthStore W → Clock → McpRequestIdentity → KitRegistryItem → Action W Verdict
  unfolding check_circuit_breaker check_daily_cap limit_reached
  check_tool_policy store clock identity tool w =
      let (closed, w1) = check_circuit_breaker store tool.kit_id clock.checked_at w in
      let (below, w2) = check_daily_cap store identity.principal tool.kit_id clock.checked_on w1 in
      if not closed
      then (ok (Verdict.decision (disabled tool)), w1)
      else if not below
      then (ok (Verdict.decision (limit_reached tool)), w2)
      else (ok (Verdict.decision allowed_decision), w2)

  -- Behind the answer of the kit.
  unfoldable pub recorded :
      OAuthStore W
      → Clock
      → McpRequestIdentity
      → KitRegistryItem
      → Result Text DispatchResult × W
      → Result Text DispatchResult × W
  unfolding record_circuit_breaker_result increment_daily_cap
  recorded store clock identity tool (err message, w) = (ok (invocation_failed message), w)
  recorded store clock identity tool (ok result, w) =
      let (_, w1) =
        record_circuit_breaker_result store tool.kit_id (or_else result.is_error false)
          clock.recorded_at w in
      let (_, w2) = increment_daily_cap store identity.principal tool.kit_id clock.counted_on w1 in
      (ok result, w2)

-- `check` for a tool that was found; the other branch is never taken, since the resolution fails
abbrev pub if_found : {A : Type 0} → Option KitRegistryItem → A → (KitRegistryItem → A) → A
if_found none absent check = absent
if_found (some tool) absent check = check tool

module _ {W Args : Type 0} (host : RouterHost W Args) (clock : Clock) where
  unfoldable pub invoke_with :
      McpRequestIdentity
      → KitRegistryItem
      → List KitRegistryItem
      → DispatchEnvelope Args
      → Option UserKitDbItem
      → Action W DispatchResult
  unfolding get_kit_function_id recorded
  invoke_with identity tool tools envelope none w = (ok (not_provisioned tool), w)
  invoke_with identity tool tools envelope (some db) w = recorded host.store clock identity tool (
      host.invoke_kit_lambda (get_kit_function_id tool.kit_id tools)
        (invocation_of identity tool envelope db) w)

  unfoldable pub invoke_tool :
      McpRequestIdentity
      → KitRegistryItem
      → List KitRegistryItem
      → DispatchEnvelope Args
      → Action W DispatchResult
  unfolding invoke_with
  invoke_tool identity tool tools envelope =
      bind (host.get_user_kit_db identity.principal tool.kit_id)
        (invoke_with identity tool tools envelope)

  unfoldable pub resolve_tool :
      Option KitRegistryItem
      → DispatchEnvelope Args
      → Action W (DispatchResolution W Args (Unit {0}))
  resolve_tool none envelope = pure (record {
    target = none;
    error = some (DispatchErrorCode.unknown_tool, codes "Unknown tool: " ++ envelope.command);
  })
  resolve_tool (some tool) envelope = pure (record {
    target = some (record {
      kit_id = tool.kit_id;
      command = envelope.command;
      validate = none;
      authorize = none;
      mode = some (or_else tool.mode ToolMode.assist);
    });
    error = none;
  })

  abbrev unknown_tool : Action W Verdict
  unknown_tool = pure (Verdict.decision (refusal (codes "Unknown tool")))

  unfoldable pub tool_dependencies :
      McpRequestIdentity
      → Option KitRegistryItem
      → List KitRegistryItem
      → DispatchDependencies W Args (Unit {0})
  unfolding resolve_tool check_tool_grant check_tool_policy invoke_tool
  tool_dependencies identity tool tools = record {
    resolve = resolve_tool tool;
    create_context = none;
    check_grant = some (λ envelope requirements ctx.
        if_found tool unknown_tool (λ t. check_tool_grant host.check_tuple identity t));
    check_policy = some (λ envelope target args ctx.
        if_found tool unknown_tool (λ t. check_tool_policy host.store clock identity t));
    invoke = λ envelope target args ctx.
        if_found tool (pure (error_result (codes "Unknown tool: " ++ envelope.command)))
          (λ t. invoke_tool identity t tools envelope);
    audit = host.audit_sink;
    on_complete = none;
  }

-- The envelope of a tool call; `request_id` is the generated one, for a request without its own.
unfoldable pub tool_envelope :
    {Args : Type 0}
    → (request_id : Text) → (tool_name : Text) → Args
    → McpRequestIdentity
    → Option KitRegistryItem
    → RequestContext
    → DispatchEnvelope Args
unfolding create_dispatch_envelope trimmed_or
tool_envelope generated tool_name args identity tool context =
    let request_id = trimmed_or context.request_id generated in
    let session : SessionContext = record {
      id = trimmed_or context.session_id request_id;
      trace_id = trimmed_or context.trace_id request_id;
      parent_id = given_text context.parent_id;
    } in
    create_dispatch_envelope session (kit_id_of tool) tool_name args identity.principal
      (record {
        actor = some identity.actor;
        delegation = identified identity.delegation;
        channel = some (record { kind = codes "mcp"; id = some request_id });
        session = some session;
      })
      none
  where
    given_text : Option Text → Option Text
    given_text text = if is_given text then text else none

    identified : Option Text → Option Delegation
    identified none = none
    identified (some id) = some (Delegation.identifier id)

    kit_id_of : Option KitRegistryItem → Text
    kit_id_of none = codes "unknown"
    kit_id_of (some t) = t.kit_id

module _ {W Args : Type 0} (host : RouterHost W Args) (clock : Clock) where
  unfoldable pub dispatch_tool_call :
      (request_id : Text)
      → (tools : List KitRegistryItem) → (tool_name user_id : Text) → Args
      → RequestContext
      → (duration_ms : Text) → W
      → DispatchResult × W
  unfolding dispatch tool_dependencies tool_envelope interactive_identity
  dispatch_tool_call request_id tools tool_name user_id args context duration_ms w =
      let tool = find (λ t. t.tool_name == tool_name) tools in
      let identity = or_else context.identity (interactive_identity user_id) in
      dispatch (tool_dependencies host clock identity tool tools)
        (tool_envelope request_id tool_name args identity tool context) duration_ms w
