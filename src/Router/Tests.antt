-- ===== src/Router/Tests.antt =====
-- The gateway of packages/mcp-server/src/router on small worlds, and its properties there.
use kitstack.Base.{
  ℕ, ◌≡◌, ◌↔◌, ◌⊎◌, refl, Bool, true, false, not, Option, none, some, [], ◌∷◌, Text, codes, Result,
  ok, ltb, if◌then◌else◌, ◌==◌, text_instance, text_eq, eq_refl,
}
use kitstack.Dispatch.Types.{
  pure, recovered, ToolMode, DispatchErrorCode, DispatchResult, DispatchEnvelope,
}
use kitstack.Router.Trace.{
  parse_traceparent, traceparent_from_ids, resolve_traceparent, is_hex_text, is_zero,
}
use kitstack.Router.Trace.RoundTrip.{parse-resolve_traceparent}
use kitstack.Router.Authz.{
  interactive_identity, McpIdentityKind, McpRequestIdentity, ToolAuthorizationInput, TupleChecker,
}
use kitstack.Router.Authz.Permitted.{Allows, IsPermitted, authorize_tool_invocation_iff}
use kitstack.Router.Dispatcher.{
  CircuitData, OAuthStore, check_circuit_breaker, check_daily_cap, daily_invocation_cap,
}
use kitstack.Router.Dispatcher.Breaker.{
  IsKept, Results, record_all, count_calls, is_shut, check_circuit_breaker-record_all,
  check_daily_cap-count_calls,
}
use kitstack.Router.ToolCall.{
  KitRegistryItem, RequestContext, RouterHost, Clock, recorded, get_kit_function_id, invocation_of,
  dispatch_tool_call,
}
use kitstack.Router.ToolCall.Governed.{
  IsGoverned, Lambda, found_tool, request, called, audited, failed, dispatch_tool_call_cases,
}

abbrev trace : Text
trace = codes "0af7651916cd43dd8448eb211c80319c"

abbrev span : Text
span = codes "b7ad6b7169203331"

abbrev header : Text
header = codes "00-0af7651916cd43dd8448eb211c80319c-b7ad6b7169203331-01"

printed : traceparent_from_ids (some trace) (some span) ≡ some header
unfolding traceparent_from_ids
printed = refl

trace_id_good : (is_hex_text 32 trace ≡ true) × (is_zero trace ≡ false)
unfolding is_hex_text is_zero
trace_id_good = (refl, refl)

span_good : (is_hex_text 16 span ≡ true) × (is_zero span ≡ false)
unfolding is_hex_text is_zero
span_good = (refl, refl)

parse-resolve_traceparent_example :
    let context = resolve_traceparent trace span (some (codes "00-zz")) none in
    parse_traceparent (some context.traceparent) ≡ some context
parse-resolve_traceparent_example =
    parse-resolve_traceparent trace span (some (codes "00-zz")) none trace_id_good span_good

-- Only the user `u` has grants.
abbrev checker : TupleChecker (Unit {0})
checker subject_id relation object_type object_id subject_type w = (ok (subject_id == codes "u"), w)

abbrev user : McpRequestIdentity
user = record {
  principal = codes "u";
  actor = codes "u";
  kind = McpIdentityKind.interactive;
  delegation = none;
}

abbrev authorization_input : ToolAuthorizationInput
authorization_input = record { identity = user; mode = ToolMode.act; kit_slug = codes "crm-kit" }

authorize_tool_invocation_iff_example :
    Allows checker authorization_input tt tt ↔ IsPermitted checker authorization_input tt tt
authorize_tool_invocation_iff_example =
    authorize_tool_invocation_iff checker authorization_input tt tt

-- A table as two functions.
abbrev Tables : Type 0
Tables = (Text → Option CircuitData) × (Text → Text → Text → Option ℕ)

abbrev tables : OAuthStore Tables
tables = record {
  get_circuit = λ kit_id w. (ok (w.0 kit_id), w);
  put_circuit = λ kit_id item w. (ok tt, ((λ k. if k == kit_id then some item else w.0 k), w.1));
  get_count = λ user_id kit_id date w. (ok (w.1 user_id kit_id date), w);
  put_count = λ user_id kit_id date n w. (
    ok tt,
    (
      w.0,
      λ u k d.
          if u == user_id
          then (if k == kit_id then (if d == date then some n else w.1 u k d) else w.1 u k d)
          else w.1 u k d,
    ),
  );
}

tables-IsKept : IsKept tables
tables-IsKept = record {
  circuit = λ w kit_id. w.0 kit_id;
  count = λ w user_id kit_id date. w.1 user_id kit_id date;
  gets_circuit = λ w kit_id. refl;
  gets_count = λ w user_id kit_id date. refl;
  puts_circuit = λ w kit_id item. rw (eq_refl kit_id) refl;
  puts_count = λ w user_id kit_id date n. rw (eq_refl user_id, eq_refl kit_id, eq_refl date) refl;
}

abbrev empty : Tables
empty = ((λ k. none), (λ u k d. none))

abbrev results : Results
results = (30, true) ∷ (20, true) ∷ (10, true) ∷ (5, false) ∷ []

check_circuit_breaker-record_all_example :
    (check_circuit_breaker tables
      (codes "crm")
      299000
      (record_all tables tables-IsKept (codes "crm") results empty)).0
    ≡ not (is_shut 299000 results)
unfolding tables-IsKept
check_circuit_breaker-record_all_example =
    check_circuit_breaker-record_all tables tables-IsKept (codes "crm") results empty 299000 refl

check_daily_cap-count_calls_example :
    (check_daily_cap tables
      (codes "u")
      (codes "crm")
      (codes "d")
      (count_calls tables tables-IsKept (codes "u") (codes "crm") (codes "d") 3 empty)).0
    ≡ ltb 3 daily_invocation_cap
unfolding tables-IsKept
check_daily_cap-count_calls_example =
    check_daily_cap-count_calls tables tables-IsKept (codes "u") (codes "crm") (codes "d") 3 empty
      refl

abbrev crm : KitRegistryItem
crm = record {
  kit_id = codes "crm";
  tool_name = codes "add_contact";
  kit_name = codes "CRM";
  lambda_resource = none;
  mode = some ToolMode.act;
}

abbrev answered : DispatchResult
answered = record { content = []; is_error = none; error_code = none }

abbrev small_host : RouterHost Tables Bool
small_host = record {
  store = tables;
  check_tuple =
      λ subject_id relation object_type object_id subject_type w. (ok (subject_id == codes "u"), w);
  get_user_kit_db =
      λ user_id kit_id. pure (some (record { db_url = codes "url"; db_token = codes "token" }));
  invoke_kit_lambda = λ function_id invocation. pure answered;
  audit_sink = none;
}

abbrev clock : Clock
clock = record {
  checked_at = 299000;
  recorded_at = 299005;
  checked_on = codes "d";
  counted_on = codes "d";
}

abbrev bare_context : RequestContext
bare_context = record {
  request_id = none;
  session_id = none;
  trace_id = none;
  parent_id = none;
  identity = none;
}

-- The call of a user with a grant is answered; that of another user is not.
answered_call :
    (dispatch_tool_call small_host clock
      (codes "r")
      (crm ∷ [])
      (codes "add_contact")
      (codes "u")
      true
      bare_context
      (codes "1")
      empty).0
    ≡ answered
unfolding dispatch_tool_call text_eq
answered_call = refl

refused_call :
    (dispatch_tool_call small_host clock
      (codes "r")
      (crm ∷ [])
      (codes "add_contact")
      (codes "v")
      true
      bare_context
      (codes "1")
      empty).0.error_code
    ≡ some DispatchErrorCode.missing_grant
unfolding dispatch_tool_call text_eq
refused_call = refl

abbrev Gateway : Type 0
Gateway = Lambda small_host clock user (crm ∷ [])

-- The call of `u`, with another way to invoke kits.
abbrev call : Gateway → DispatchResult × Tables
call l =
    called small_host clock (codes "r") (crm ∷ []) (codes "add_contact") (codes "u") true
      bare_context (codes "1") l empty

abbrev completed_as : Result Text DispatchResult × Tables → DispatchResult × Tables
completed_as out =
    audited small_host clock (codes "r") (crm ∷ []) (codes "add_contact") (codes "u") true
      bare_context (codes "1") (recovered failed out)

abbrev call_envelope : DispatchEnvelope Bool
call_envelope =
    request small_host clock (codes "r") (crm ∷ []) (codes "add_contact") (codes "u") true
      bare_context (codes "1")

dispatch_tool_call_cases_example :
    ((tool : KitRegistryItem) × (found_tool small_host clock
          (codes "r")
          (crm ∷ [])
          (codes "add_contact")
          (codes "u")
          true
          bare_context
          (codes "1")
        ≡ some tool)
      × (g : IsGoverned small_host clock user (crm ∷ []) tool empty) × ((l : Gateway)
          → call l
            ≡ completed_as (
                recorded tables clock user tool (
                  l
                    (get_kit_function_id tool.kit_id (crm ∷ []))
                    (invocation_of user tool call_envelope g.db)
                    g.provisioned_in))))
    ⊎ ((r : Result Text DispatchResult) × (w' : Tables) × ((l : Gateway)
          → call l ≡ completed_as (r, w')))
unfolding interactive_identity
dispatch_tool_call_cases_example =
    dispatch_tool_call_cases small_host clock (codes "r") (crm ∷ []) (codes "add_contact")
      (codes "u") true bare_context (codes "1") empty
