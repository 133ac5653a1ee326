-- ===== src/Dispatch/Types.antt =====
-- The types of packages/sdk/src/server/dispatch.ts. What a host or a kit supplies is an action on a
-- world `W` of its own: it reads and changes the world, and returns or throws (the message of the
-- error). Arguments and contexts of kits are any types.
use kitstack.Base.{
  ◌≡◌, refl, ap, ok_injective, ◌⊎◌, inl, inr, Bool, Option, none, some, List, Text, codes, Result,
  ok, err,
}
use kitstack.Audit.Dispatch.{DispatchAuditEvent}

-- A call that may throw; what it changed before it threw stays changed.
abbrev pub Action : Type 0 → Type 0 → Type 0
Action W A = W → Result Text A × W

module _ {W A : Type 0} where
  abbrev pub pure : A → Action W A
  pure a w = (ok a, w)

  abbrev resume : {B : Type 0} → (A → Action W B) → Result Text A × W → Result Text B × W
  resume f (ok a, w) = f a w
  resume f (err e, w) = (err e, w)

  abbrev pub bind : {B : Type 0} → Action W A → (A → Action W B) → Action W B
  bind m f w = resume f (m w)

  abbrev pub recovered : (Text → A) → Result Text A × W → A × W
  recovered recover (ok a, w) = (a, w)
  recovered recover (err e, w) = (recover e, w)

  -- `try { … } catch (error) { … }`
  abbrev pub try_or : Action W A → (Text → A) → W → A × W
  try_or m recover w = recovered recover (m w)

module _ {W A : Type 0} where
  -- A call throws or answers.
  pub run_cases :
      (m : Action W A) (w : W)
      → ((e : Text) × (w' : W) × (m w ≡ (err e, w'))) ⊎ ((a : A) × (w' : W) × (m w ≡ (ok a, w')))
  run_cases m w = go (m w) refl
    where
      go :
          (out : Result Text A × W)
          → m w ≡ out
          → ((e : Text) × (w' : W) × (m w ≡ (err e, w')))
            ⊎ ((a : A) × (w' : W) × (m w ≡ (ok a, w')))
      go (err e, w') h = inl (e, w', h)
      go (ok a, w') h = inr (a, w', h)

pub answers_injective :
    {W A : Type 0} {a b : A} {w w' : W} → ◌≡◌ {A = Result Text A × W} (ok a, w) (ok b, w') → a ≡ b
answers_injective e = ok_injective (ap (λ p. p.0) e)

-- A callback that the host may leave out, and whose failure is swallowed.
abbrev pub notify : {W : Type 0} → Option (Action W (Unit {0})) → W → W
notify none w = w
notify (some call) w = (call w).1

pub data DispatchErrorCode : Type 0 where
  unknown_kit unknown_tool invalid_arguments missing_grant policy_denied provider_failure :
      DispatchErrorCode

abbrev pub code_text : DispatchErrorCode → Text
code_text DispatchErrorCode.unknown_kit = codes "unknown_kit"
code_text DispatchErrorCode.unknown_tool = codes "unknown_tool"
code_text DispatchErrorCode.invalid_arguments = codes "invalid_arguments"
code_text DispatchErrorCode.missing_grant = codes "missing_grant"
code_text DispatchErrorCode.policy_denied = codes "policy_denied"
code_text DispatchErrorCode.provider_failure = codes "provider_failure"

pub data KitToolContentBlock : Type 0 where
  text : Text → KitToolContentBlock
  resource : (uri mime_type body : Text) → KitToolContentBlock

-- `KitToolResult & { errorCode? }`
pub record DispatchResult : Type 0 where
  pub content : List KitToolContentBlock
  pub is_error : Option Bool
  pub error_code : Option DispatchErrorCode

-- A delegation is an identifier or a record, whose content nothing here reads.
pub data Delegation : Type 0 where
  identifier : Text → Delegation
  chain : Delegation

pub record RequestIdentity : Type 0 where
  pub principal : Text
  pub actor : Text
  pub delegation : Option Delegation

pub record ChannelContext : Type 0 where
  pub kind : Text
  pub id : Option Text

pub record SessionContext : Type 0 where
  pub id : Text
  pub trace_id : Text
  pub parent_id : Option Text

pub record DispatchEnvelope (Args : Type 0) : Type 0 where
  pub kit_id : Text
  pub command : Text
  pub args : Args
  pub identity : RequestIdentity
  pub actor : Text
  pub delegation : Option Delegation
  pub channel : ChannelContext
  pub session : SessionContext

pub record DispatchRequestContext : Type 0 where
  pub actor : Option Text
  pub delegation : Option Delegation
  pub channel : Option ChannelContext
  pub session : Option SessionContext

pub data DispatchValidation (Args : Type 0) : Type 0 where
  success : Args → DispatchValidation Args
  failure : Text → DispatchValidation Args

pub record AuthzRequirement : Type 0 where
  pub relation : Text
  pub object_type : Text
  pub object_id : Text

pub data ToolMode : Type 0 where
  assist act : ToolMode

pub record DispatchTarget (W Args Ctx : Type 0) : Type 0 where
  pub kit_id : Text
  pub command : Text
  pub validate : Option (Args → Action W (DispatchValidation Args))
  pub authorize : Option (Args → Option Ctx → Action W (List AuthzRequirement))
  pub mode : Option ToolMode

pub record DispatchResolution (W Args Ctx : Type 0) : Type 0 where
  pub target : Option (DispatchTarget W Args Ctx)
  pub error : Option (DispatchErrorCode × Text)

pub record DispatchDecision : Type 0 where
  pub allowed : Bool
  pub reason : Option Text

-- What a grant or policy provider answers: `boolean | DispatchDecision`.
pub data Verdict : Type 0 where
  boolean : Bool → Verdict
  decision : DispatchDecision → Verdict

pub record DispatchDependencies (W Args Ctx : Type 0) : Type 0 where
  pub resolve : DispatchEnvelope Args → Action W (DispatchResolution W Args Ctx)
  pub create_context : Option (DispatchEnvelope Args → Args → Action W Ctx)
  pub check_grant :
      Option (DispatchEnvelope Args → List AuthzRequirement → Option Ctx → Action W Verdict)
  pub check_policy :
      Option
        (DispatchEnvelope Args → DispatchTarget W Args Ctx → Args → Option Ctx → Action W Verdict)
  pub invoke :
      DispatchEnvelope Args
      → DispatchTarget W Args Ctx
      → Args
      → Option Ctx
      → Action W DispatchResult
  pub audit : Option (DispatchAuditEvent → Action W (Unit {0}))
  pub on_complete : Option (DispatchEnvelope Args → DispatchResult → Text → Action W (Unit {0}))
