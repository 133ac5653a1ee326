-- ===== src/Agent/Metadata.antt =====
-- What of a model's response reaches the hooks: `safeString`, `safeNumber`, `metadataFor` and
-- `controlMetadata` of packages/sdk/src/define-agent.ts.
pub mod Bounded
use kitstack.Base.{
  ℕ, ◌≤◌, ◌≡◌, Bool, true, false, not, ◌&&◌, Option, none, some, Text, codes, is_blank, trim,
  slice_to, nat_eq, if◌then◌else◌, Result, ok, err,
}
use kitstack.Agent.Types.{
  Field, missing, null, present, Number, nan, infinity, finite, AgentTurnMetadata,
}

unfoldable pub safe_string : Field Text → Field Text
unfolding is_blank trim
safe_string null = null
safe_string missing = missing
safe_string (present s) = if is_blank s then missing else present (slice_to 256 (trim s))

-- `Number.isFinite(value) && !(value < 0)`; minus zero is not below zero
unfoldable pub is_usable : Number → Bool
is_usable nan = false
is_usable (infinity negative) = false
is_usable (finite negative mantissa halvings) = not (negative && not (nat_eq mantissa 0))

unfoldable pub safe_number : Field Number → Field Number
unfolding is_usable
safe_number null = null
safe_number missing = missing
safe_number (present n) = if is_usable n then present n else missing

-- The connector's own description of itself, config.model.
pub record AgentModelConnector : Type 0 where
  pub provider : Option Text
  pub model : Option Text
  pub routing_reason : Option Text
  -- It may throw, and answers the same counts alike.
  pub estimate_cost_usd : Option (Field Number → Field Number → Result Text (Field Number))

abbrev of_option {ℓ} : {A : Type ℓ} → Option A → Field A
of_option none = missing
of_option (some a) = present a

-- `value ?? other`
abbrev or_default {ℓ} : {A : Type ℓ} → Field A → Field A → Field A
or_default (present a) other = present a
or_default _ other = other

abbrev pub empty_metadata : AgentTurnMetadata
empty_metadata = record {
  provider = missing;
  model = missing;
  request_tokens = missing;
  response_tokens = missing;
  cost_usd = missing;
  latency_ms = missing;
  routing_reason = missing;
  cancellation_reason = missing;
  timeout_reason = missing;
}

abbrev pub response_metadata : Option AgentTurnMetadata → AgentTurnMetadata
response_metadata none = empty_metadata
response_metadata (some m) = m

abbrev pub estimate :
    Option (Field Number → Field Number → Result Text (Field Number))
    → Field Number
    → Field Number
    → Field Number
    → Result Text (Field Number)
estimate estimator missing requests responses = elim estimator [
  | none ↦ ok missing
  | some f ↦ f requests responses
]
estimate estimator cost requests responses = ok cost

-- `estimatedCost`, or the error that the estimate throws.
unfoldable pub estimated_cost :
    AgentModelConnector → Option AgentTurnMetadata → Result Text (Field Number)
unfolding safe_number
estimated_cost connector response =
    let metadata = response_metadata response in
    estimate connector.estimate_cost_usd (safe_number metadata.cost_usd)
      (safe_number metadata.request_tokens) (safe_number metadata.response_tokens)

-- What `metadataFor` returns, by the estimated cost.
unfoldable pub metadata_with :
    AgentModelConnector → Option AgentTurnMetadata → Field Number → ℕ → AgentTurnMetadata
unfolding safe_string safe_number
metadata_with connector response estimated_cost duration_ms =
    let metadata = response_metadata response in
    record {
      provider = safe_string (or_default metadata.provider (of_option connector.provider));
      model = safe_string (or_default metadata.model (of_option connector.model));
      request_tokens = safe_number metadata.request_tokens;
      response_tokens = safe_number metadata.response_tokens;
      cost_usd = safe_number estimated_cost;
      latency_ms =
          or_default (safe_number metadata.latency_ms) (present (finite false duration_ms 0));
      routing_reason =
          safe_string (or_default metadata.routing_reason (of_option connector.routing_reason));
      cancellation_reason = missing;
      timeout_reason = missing;
    }

unfoldable pub metadata_for :
    AgentModelConnector → Option AgentTurnMetadata → ℕ → Result Text AgentTurnMetadata
unfolding estimated_cost metadata_with
metadata_for connector response duration_ms = elim (estimated_cost connector response) [
  | err message ↦ err message
  | ok cost ↦ ok (metadata_with connector response cost duration_ms)
]
