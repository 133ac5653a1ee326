-- ===== src/Router/Dispatcher.antt =====
-- packages/mcp-server/src/router/tool-dispatcher.ts: a tool call of the gateway, with its circuit
-- breaker and its daily cap. The items of the DynamoDB table of oauth-store.ts are shown as the values
-- that their `data` texts encode; the readings of the clock and the random request id are arguments.
-- The logs are left out.
pub mod Breaker
use kitstack.Base.{
  ℕ, suc, ◌+◌, ◌*◌, Bool, true, false, ◌||◌, ◌&&◌, not, Option, none, some, List, [], ◌∷◌, Text,
  codes, ◌++◌, Result, ok, err, if◌then◌else◌, ◌==◌, text_instance, or_else, ltb, leb, is_blank,
  trim,
}
use kitstack.Dispatch.Types.{Action, pure, bind, try_or}

abbrev pub circuit_breaker_threshold : ℕ
circuit_breaker_threshold = 3

abbrev pub circuit_breaker_cooldown_ms : ℕ
circuit_breaker_cooldown_ms = 300000

abbrev pub daily_invocation_cap : ℕ
daily_invocation_cap = 500

-- The item `CIRCUIT#${kitId}`, `STATE`; an absent `errorCount` counts as 0.
pub record CircuitData : Type 0 where
  pub error_count : ℕ
  pub disabled_until : Option ℕ

-- The reads and writes of the two kinds of items.
pub record OAuthStore (W : Type 0) : Type 0 where
  pub get_circuit : (kit_id : Text) → Action W (Option CircuitData)
  pub put_circuit : (kit_id : Text) → CircuitData → Action W (Unit {0})
  pub get_count : (user_id kit_id date : Text) → Action W (Option ℕ)
  pub put_count : (user_id kit_id date : Text) → ℕ → Action W (Unit {0})

-- `data.disabledUntil && Date.now() < data.disabledUntil`
abbrev pub is_open : ℕ → Option CircuitData → Bool
is_open now none = false
is_open now (some state) = elim state.disabled_until [
  | none ↦ false
  | some until ↦ ltb 0 until && ltb now until
]

-- The state after a result.
unfoldable pub next_circuit : (now : ℕ) → (is_error : Bool) → Option CircuitData → CircuitData
next_circuit now is_error item =
    let state = or_else item (record { error_count = 0; disabled_until = none }) in
    let count = suc state.error_count in
    if is_error
    then record {
      error_count = count;
      disabled_until =
          if leb circuit_breaker_threshold count
          then some (now + circuit_breaker_cooldown_ms)
          else state.disabled_until;
    }
    else record { error_count = 0; disabled_until = none }

abbrev pub count_after : Option ℕ → ℕ
count_after none = 1
count_after (some count) = suc count

abbrev pub below_cap : Option ℕ → Bool
below_cap none = true
below_cap (some count) = ltb count daily_invocation_cap

module _ {W : Type 0} (store : OAuthStore W) where
  -- Whether the kit is not disabled; it fails open.
  unfoldable pub check_circuit_breaker : (kit_id : Text) → (now : ℕ) → W → Bool × W
  check_circuit_breaker kit_id now =
      try_or (bind (store.get_circuit kit_id) (λ item. pure (not (is_open now item))))
        (λ error. true)

  unfoldable pub record_circuit_breaker_result :
      (kit_id : Text) → (is_error : Bool) → (now : ℕ) → W → Unit {0} × W
  unfolding next_circuit
  record_circuit_breaker_result kit_id is_error now =
      try_or
        (bind (store.get_circuit kit_id)
          (λ item. store.put_circuit kit_id (next_circuit now is_error item)))
        (λ error. tt)

  -- Whether the day's calls are below the cap; it fails closed.
  unfoldable pub check_daily_cap : (user_id kit_id date : Text) → W → Bool × W
  check_daily_cap user_id kit_id date =
      try_or (bind (store.get_count user_id kit_id date) (λ item. pure (below_cap item)))
        (λ error. false)

  unfoldable pub increment_daily_cap : (user_id kit_id date : Text) → W → Unit {0} × W
  increment_daily_cap user_id kit_id date =
      try_or
        (bind (store.get_count user_id kit_id date)
          (λ item. store.put_count user_id kit_id date (count_after item)))
        (λ error. tt)
