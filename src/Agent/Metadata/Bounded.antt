-- ===== src/Agent/Metadata/Bounded.antt =====
-- What a hook can get of a model's response, in packages/sdk/src/define-agent.ts.
use kitstack.Base.{
  ℕ, zero, suc, ◌≤◌, ◌≡◌, true, false, Option, Text, length, is_blank, trim, slice_to, Bool-cases,
  inl, inr, arith, nat_eq, nat_eq_iff, [], ◌∷◌, Ensures, Result-cases,
}
use kitstack.Agent.Types.{
  Field, missing, null, present, Number, nan, infinity, finite, AgentTurnMetadata,
}
use kitstack.Agent.Metadata.{
  AgentModelConnector, safe_string, safe_number, is_usable, metadata_for, or_default, of_option,
  estimated_cost, metadata_with, response_metadata,
}

length-slice_to : (n : ℕ) (s : Text) → length (slice_to n s) ≤ n
length-slice_to zero s = omega arith
length-slice_to (suc n) [] = omega arith
length-slice_to (suc n) (c ∷ s) = omega (arith, length-slice_to n s)

abbrev pub IsShort : Field Text → Type 0
IsShort (present s) = length s ≤ 256
IsShort _ = Unit

-- A number that JSON can carry, and not below zero.
abbrev pub IsMeasure : Field Number → Type 0
IsMeasure (present (finite negative mantissa halvings)) = negative ≡ true → mantissa ≡ 0
IsMeasure (present _) = ⊥
IsMeasure _ = Unit

safe_string-IsShort : (f : Field Text) → IsShort (safe_string f)
unfolding safe_string
safe_string-IsShort missing = tt
safe_string-IsShort null = tt
safe_string-IsShort (present s) = elim (Bool-cases (is_blank s)) [
  | inl blank ↦ rw blank tt
  | inr named ↦ rw named (length-slice_to 256 (trim s))
]

safe_number-IsMeasure : (f : Field Number) → IsMeasure (safe_number f)
unfolding safe_number is_usable
safe_number-IsMeasure missing = tt
safe_number-IsMeasure null = tt
safe_number-IsMeasure (present nan) = tt
safe_number-IsMeasure (present (infinity negative)) = tt
safe_number-IsMeasure (present (finite false m k)) = λ e. absurd (cc e)
safe_number-IsMeasure (present (finite true m k)) = elim (Bool-cases (nat_eq m 0)) [
  | inl z ↦ rw z (λ e. (nat_eq_iff m 0).0 z)
  | inr nz ↦ rw nz tt
]

pub record IsBounded (m : AgentTurnMetadata) : Type 0 where
  pub provider : IsShort m.provider
  pub model : IsShort m.model
  pub routing_reason : IsShort m.routing_reason
  pub request_tokens : IsMeasure m.request_tokens
  pub response_tokens : IsMeasure m.response_tokens
  pub cost_usd : IsMeasure m.cost_usd
  pub latency_ms : IsMeasure m.latency_ms

or_clock :
    (f : Field Number) (n : ℕ) → IsMeasure f → IsMeasure (or_default f (present (finite false n 0)))
or_clock missing n h = λ e. absurd (cc e)
or_clock null n h = λ e. absurd (cc e)
or_clock (present x) n h = h

metadata_with-IsBounded :
    (connector : AgentModelConnector) (response : Option AgentTurnMetadata) (cost : Field Number)
    (duration_ms : ℕ)
    → IsBounded (metadata_with connector response cost duration_ms)
unfolding metadata_with
metadata_with-IsBounded connector response cost duration_ms =
    let m = response_metadata response in
    record {
      provider = safe_string-IsShort (or_default m.provider (of_option connector.provider));
      model = safe_string-IsShort (or_default m.model (of_option connector.model));
      routing_reason =
          safe_string-IsShort (or_default m.routing_reason (of_option connector.routing_reason));
      request_tokens = safe_number-IsMeasure m.request_tokens;
      response_tokens = safe_number-IsMeasure m.response_tokens;
      cost_usd = safe_number-IsMeasure cost;
      latency_ms =
          or_clock (safe_number m.latency_ms) duration_ms (safe_number-IsMeasure m.latency_ms);
    }

-- Whatever a model's response, its connector and its cost estimate say, the metadata of an event,
-- where the estimate does not throw, has texts of at most 256 code units, and its numbers are finite
-- and not below zero.
pub metadata_for-IsBounded :
    (connector : AgentModelConnector) (response : Option AgentTurnMetadata) (duration_ms : ℕ)
    → Ensures IsBounded (metadata_for connector response duration_ms)
unfolding metadata_for
metadata_for-IsBounded connector response duration_ms =
    elim (Result-cases (estimated_cost connector response)) [
      | inl (message, thrown) ↦ rw (metadata_for, thrown) tt
      | inr (cost, given) ↦
          rw (metadata_for, given) (metadata_with-IsBounded connector response cost duration_ms)
    ]
