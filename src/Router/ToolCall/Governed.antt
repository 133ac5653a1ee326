-- ===== src/Router/ToolCall/Governed.antt =====
-- A kit of packages/mcp-server/src/router/tool-dispatcher.ts is called only behind all gates.
use mathlib.Core.Path.{subst}
use kitstack.Base.{
  ◌≡◌, sym, ◌⊎◌, inl, inr, refl, ap, true, false, ◌||◌, Option, none, some, List, [], Text, codes,
  ◌++◌, Result, ok, err, Bool-cases, Option-cases, or_else, ◌==◌, text_instance,
}
use kitstack.Dispatch.Types.{
  Action, bind, recovered, run_cases, notify, answers_injective, DispatchErrorCode, DispatchResult,
  DispatchEnvelope, DispatchDecision,
}
use kitstack.Dispatch.{
  dispatch_error, attempt, resolved, settle_validation, validated, authorized, settle_grant,
  settle_policy, context_of, requirements_of, evaluate_grant, evaluate_policy, invoked, dispatch,
  audit_call, to_dispatch_audit_event, decide_or_refuse,
}
use kitstack.Router.Authz.{McpRequestIdentity, interactive_identity, authorize_tool_invocation}
use kitstack.Router.Authz.Permitted.{IsPermitted, authorize_tool_invocation_iff}
use kitstack.Router.Dispatcher.{OAuthStore, check_circuit_breaker, check_daily_cap}
use kitstack.Router.ToolCall.{
  KitRegistryItem, UserKitDbItem, KitToolInvocation, RouterHost, Clock, tool_authorization,
  check_tool_grant, check_tool_policy, resolve_tool, tool_dependencies, invoke_tool, invoke_with,
  recorded, find, RequestContext, tool_envelope, dispatch_tool_call, get_kit_function_id,
  invocation_of, limit_reached, not_provisioned,
}

not_allowed :
    {W C : Type 0} {w w' : W} (d d' : DispatchDecision)
    → ◌≡◌ {A = Result Text DispatchDecision × W} (ok d, w) (ok d', w')
    → d.allowed ≡ false
    → d'.allowed ≡ true
    → C
not_allowed d d' e shut allowed =
    let same = ap (λ (x : DispatchDecision). x.allowed) (answers_injective e) in absurd (cc)

module _ {W Args : Type 0} (host : RouterHost W Args) (clock : Clock)
    (identity : McpRequestIdentity) (tool : KitRegistryItem) where
  -- A grant that is allowed comes from the authorization of the identity.
  granted_tool :
      (w w' : W) (d : DispatchDecision)
      → decide_or_refuse
          (codes "Grant provider failed: ")
          (check_tool_grant host.check_tuple identity tool)
          w
        ≡ (ok d, w')
      → d.allowed ≡ true
      → IsPermitted host.check_tuple (tool_authorization identity tool) w w'
  unfolding check_tool_grant
  granted_tool w w' d e allowed =
      elim (run_cases
        (authorize_tool_invocation host.check_tuple (tool_authorization identity tool)) w) [
          | inl (m, v, h) ↦
              not_allowed _ d (rw (decide_or_refuse, check_tool_grant, bind, h) at e) refl allowed
          | inr (r, v, h) ↦ elim (Bool-cases r.allowed) [
            | inr denied ↦
                not_allowed _ d (rw (decide_or_refuse, check_tool_grant, bind, h, denied) at e) refl
                  allowed
            | inl given ↦
                let e' = rw (decide_or_refuse, check_tool_grant, bind, h, given) at e in
                let moved = ap (λ p. p.1) e' in
                (authorize_tool_invocation_iff host.check_tuple (tool_authorization identity tool) w
                    w').0
                  (r, rw (← moved) h, given)
          ]
        ]

  permitted_tool :
      (w w' : W) (d : DispatchDecision)
      → decide_or_refuse
          (codes "Policy provider failed: ")
          (check_tool_policy host.store clock identity tool)
          w
        ≡ (ok d, w')
      → d.allowed ≡ true
      → let (closed, w1) = check_circuit_breaker host.store tool.kit_id clock.checked_at w in
        (closed ≡ true)
        × (check_daily_cap host.store identity.principal tool.kit_id clock.checked_on w1
            ≡ (true, w'))
  unfolding check_tool_policy limit_reached
  permitted_tool w w' d e allowed =
      let (closed, w1) = check_circuit_breaker host.store tool.kit_id clock.checked_at w in
      let (below, w2) =
        check_daily_cap host.store identity.principal tool.kit_id clock.checked_on w1 in
      elim (Bool-cases closed) [
        | inr disabled ↦
            not_allowed _ d (rw (decide_or_refuse, check_tool_policy, disabled) at e) refl allowed
        | inl enabled ↦ elim (Bool-cases below) [
          | inr spent ↦
              not_allowed _ d (rw (decide_or_refuse, check_tool_policy, enabled, spent) at e) refl
                allowed
          | inl left ↦
              let moved =
                ap (λ p. p.1) (rw (decide_or_refuse, check_tool_policy, enabled, left) at e) in
              (enabled, λ i. (left i, moved i))
        ]
      ]

abbrev pub failed : Text → DispatchResult
failed = dispatch_error DispatchErrorCode.provider_failure

-- Whether the kit answers or throws, its invocation has a result.
recorded_ok :
    {W : Type 0} (store : OAuthStore W) (clock : Clock) (identity : McpRequestIdentity)
    (tool : KitRegistryItem) (out : Result Text DispatchResult × W)
    → ◌≡◌ {A = Result Text DispatchResult × W}
        (let (r, w) = recovered failed (recorded store clock identity tool out) in (ok r, w))
        (recorded store clock identity tool out)
unfolding recorded
recorded_ok store clock identity tool (err m, w) = refl
recorded_ok store clock identity tool (ok r, w) = refl

module _ {W Args : Type 0} (host : RouterHost W Args) (clock : Clock)
    (identity : McpRequestIdentity) (tools : List KitRegistryItem) where
  abbrev pub Lambda : Type 0
  Lambda = Text → KitToolInvocation Args → Action W DispatchResult

  abbrev host_with : Lambda → RouterHost W Args
  host_with l = record host { invoke_kit_lambda = l }

  -- The stages of a tool call.
  abbrev stages :
      Option KitRegistryItem → DispatchEnvelope Args → W → Lambda → Result Text DispatchResult × W
  stages tool envelope w l =
      attempt (tool_dependencies (host_with l) clock identity tool tools) envelope w

  -- A tool call has passed all gates.
  pub record IsGoverned (tool : KitRegistryItem) (w : W) : Type 0 where
    pub authorized_in : W
    pub permission : IsPermitted host.check_tuple (tool_authorization identity tool) w authorized_in
    pub enabled :
        (check_circuit_breaker host.store tool.kit_id clock.checked_at authorized_in).0 ≡ true
    pub checked_in : W
    pub uncapped :
        check_daily_cap host.store identity.principal tool.kit_id clock.checked_on
          (check_circuit_breaker host.store tool.kit_id clock.checked_at authorized_in).1
        ≡ (true, checked_in)
    pub db : UserKitDbItem
    pub provisioned_in : W
    pub provisioned :
        host.get_user_kit_db identity.principal tool.kit_id checked_in
        ≡ (ok (some db), provisioned_in)

  abbrev Outcomes :
      KitRegistryItem
      → DispatchEnvelope Args
      → W
      → (Lambda → Result Text DispatchResult × W)
      → Type 0
  Outcomes tool envelope w run =
      ((g : IsGoverned tool w) × ((l : Lambda)
          → run l
            ≡ recorded host.store clock identity tool (
                l (get_kit_function_id tool.kit_id tools)
                  (invocation_of identity tool envelope g.db) g.provisioned_in)))
      ⊎ ((r : Result Text DispatchResult) × (w' : W) × ((l : Lambda) → run l ≡ (r, w')))

  governed_tool :
      (tool : KitRegistryItem) (envelope : DispatchEnvelope Args) (w : W)
      → Outcomes tool envelope w (stages (some tool) envelope w)
  unfolding attempt resolved settle_validation validated authorized settle_grant settle_policy
      invoked context_of requirements_of evaluate_grant evaluate_policy tool_dependencies
      resolve_tool invoke_tool invoke_with
  governed_tool tool envelope w =
      elim (Bool-cases (envelope.identity.principal == [] || envelope.actor == [])) [
        | inl absent ↦ inr (
          ok (
              dispatch_error DispatchErrorCode.policy_denied
                (codes "A principal and actor are required for dispatch.")),
          w,
          λ l. simp absent refl,
        )
        | inr given ↦
            elim (run_cases
              (decide_or_refuse (codes "Grant provider failed: ")
                (check_tool_grant host.check_tuple identity tool))
              w) [
                | inl (m, w1, h1) ↦ inr (err m, w1, λ l. simp (given, h1) refl)
                | inr (grant, w1, h1) ↦ elim (Bool-cases grant.allowed) [
                  | inr denied ↦ inr (
                    ok (
                        dispatch_error DispatchErrorCode.missing_grant
                          (or_else grant.reason (codes "The requested kit grant is missing."))),
                    w1,
                    λ l. simp (given, h1, denied) refl,
                  )
                  | inl granted ↦
                      elim (run_cases
                        (decide_or_refuse (codes "Policy provider failed: ")
                          (check_tool_policy host.store clock identity tool))
                        w1) [
                          | inl (m, w2, h2) ↦
                              inr (err m, w2, λ l. simp (given, h1, granted, h2) refl)
                          | inr (policy, w2, h2) ↦ elim (Bool-cases policy.allowed) [
                            | inr denied ↦ inr (
                              ok (
                                  dispatch_error DispatchErrorCode.policy_denied (
                                    or_else policy.reason
                                      (codes "The request was denied by policy."))),
                              w2,
                              λ l. simp (given, h1, granted, h2, denied) refl,
                            )
                            | inl permitted ↦
                                elim (run_cases
                                  (host.get_user_kit_db identity.principal tool.kit_id) w2) [
                                    | inl (m, w3, h3) ↦ inr (
                                      ok (dispatch_error DispatchErrorCode.provider_failure m),
                                      w3,
                                      λ l. simp (given, h1, granted, h2, permitted, h3) refl,
                                    )
                                    | inr (none, w3, h3) ↦ inr (
                                      ok (not_provisioned tool),
                                      w3,
                                      λ l. simp (given, h1, granted, h2, permitted, h3) refl,
                                    )
                                    | inr (some db, w3, h3) ↦
                                        let (enabled, below) =
                                          permitted_tool host clock identity tool w1 w2 policy h2
                                            permitted in
                                        inl (
                                          record {
                                            authorized_in = w1;
                                            permission =
                                                granted_tool host clock identity tool w w1 grant h1
                                                  granted;
                                            enabled = enabled;
                                            checked_in = w2;
                                            uncapped = below;
                                            db = db;
                                            provisioned_in = w3;
                                            provisioned = h3;
                                          },
                                          λ l.
                                              simp (given, h1, granted, h2, permitted, h3)
                                                (recorded_ok host.store clock identity tool _),
                                        )
                                  ]
                          ]
                        ]
                ]
              ]
      ]

  unknown_stages :
      (envelope : DispatchEnvelope Args) (w : W)
      → (r : Result Text DispatchResult) × (w' : W) × ((l : Lambda)
          → stages none envelope w l ≡ (r, w'))
  unfolding attempt resolved tool_dependencies resolve_tool
  unknown_stages envelope w =
      elim (Bool-cases (envelope.identity.principal == [] || envelope.actor == [])) [
        | inl absent ↦ (
          ok (
              dispatch_error DispatchErrorCode.policy_denied
                (codes "A principal and actor are required for dispatch.")),
          w,
          λ l. simp absent refl,
        )
        | inr given ↦ (
          ok (
              dispatch_error DispatchErrorCode.unknown_tool
                (codes "Unknown tool: " ++ envelope.command)),
          w,
          λ l. simp given refl,
        )
      ]

module _ {W Args : Type 0} (host : RouterHost W Args) (clock : Clock) (request_id : Text)
    (tools : List KitRegistryItem) (tool_name user_id : Text) (args : Args)
    (context : RequestContext) (duration_ms : Text) where
  abbrev pub caller : McpRequestIdentity
  caller = or_else context.identity (interactive_identity user_id)

  abbrev pub found_tool : Option KitRegistryItem
  found_tool = find (λ t. t.tool_name == tool_name) tools

  abbrev pub request : DispatchEnvelope Args
  request = tool_envelope request_id tool_name args caller found_tool context

  -- The call of the tool, with another way to invoke kits.
  abbrev pub called : Lambda host clock caller tools → W → DispatchResult × W
  called l w =
      dispatch_tool_call (host_with host clock caller tools l) clock request_id tools tool_name
        user_id args context duration_ms w

  -- A result, with its event in the audit sink.
  abbrev pub audited : DispatchResult × W → DispatchResult × W
  audited (r, w) =
      (r, notify (audit_call host.audit_sink (to_dispatch_audit_event request r duration_ms)) w)

  called-audited :
      (l : Lambda host clock caller tools) (w : W) (out : Result Text DispatchResult × W)
      → stages host clock caller tools found_tool request w l ≡ out
      → called l w ≡ audited (recovered failed out)
  unfolding dispatch_tool_call dispatch tool_dependencies
  called-audited l w out e = rw (← e) refl

  at_found :
      (tool : Option KitRegistryItem) (l : Lambda host clock caller tools) (w : W)
      (out : Result Text DispatchResult × W)
      → found_tool ≡ tool
      → stages host clock caller tools tool request w l ≡ out
      → stages host clock caller tools found_tool request w l ≡ out
  at_found tool l w out same h =
      subst (λ t. stages host clock caller tools t request w l ≡ out) (sym same) h

  -- The gateway calls a kit in one way only. Either the tool is in the registry, the caller is
  -- authorized for it, its breaker is not open, the day's calls of the caller are below the cap and
  -- the caller has a database for the kit, each seen in the world that the check before it left, and
  -- the call ends with the recorded answer of the kit's function; or the result and the world are the
  -- same however kits are invoked. In both the audit sink gets one event, that of the result.
  pub dispatch_tool_call_cases :
      (w : W)
      → ((tool : KitRegistryItem) × (found_tool ≡ some tool)
          × (g : IsGoverned host clock caller tools tool w) × ((l : Lambda host clock caller tools)
              → called l w
                ≡ audited (
                    recovered failed (
                      recorded host.store clock caller tool (
                        l
                          (get_kit_function_id tool.kit_id tools)
                          (invocation_of caller tool request g.db)
                          g.provisioned_in)))))
        ⊎ ((r : Result Text DispatchResult) × (w' : W) × ((l : Lambda host clock caller tools)
              → called l w ≡ audited (recovered failed (r, w'))))
  dispatch_tool_call_cases w = elim (Option-cases found_tool) [
    | inl unknown ↦
        let (r, w', same) = unknown_stages host clock caller tools request w in
        inr (r, w', λ l. called-audited l w (r, w') (at_found none l w (r, w') unknown (same l)))
    | inr (tool, known) ↦ elim (governed_tool host clock caller tools tool request w) [
      | inl (g, runs) ↦ inl (
        tool,
        known,
        g,
        λ l.
            let out = recorded host.store clock caller tool (
              l (get_kit_function_id tool.kit_id tools) (invocation_of caller tool request g.db)
                g.provisioned_in) in
            called-audited l w out (at_found (some tool) l w out known (runs l)),
      )
      | inr (r, w', same) ↦
          inr (
            r,
            w',
            λ l. called-audited l w (r, w') (at_found (some tool) l w (r, w') known (same l)),
          )
    ]
  ]
