-- ===== src/Router/Dispatcher/Breaker.antt =====
-- The circuit breaker and the daily cap of packages/mcp-server/src/router/tool-dispatcher.ts, on a
-- store that keeps what is put into it.
use mathlib.Core.Path.{◌∙◌}
use kitstack.Base.{
  ℕ, zero, suc, ◌+◌, ◌≡◌, refl, ap, Bool, true, false, ◌&&◌, not, Option, none, some, List, [], ◌∷◌,
  Text, ok, Bool-cases, inl, inr, or_else, ltb, leb, arith,
}
use kitstack.Dispatch.Types.{run_cases, Action, bind, try_or}
use kitstack.Router.Dispatcher.{
  CircuitData, OAuthStore, is_open, next_circuit, check_circuit_breaker,
  record_circuit_breaker_result, check_daily_cap, increment_daily_cap, circuit_breaker_threshold,
  circuit_breaker_cooldown_ms, daily_invocation_cap, count_after, below_cap,
}

-- The results of a kit, the latest first: when each was recorded, and whether it is an error.
abbrev pub Results : Type 0
Results = List (ℕ × Bool)

-- How many errors there are since the last result that is none.
abbrev pub trailing_errors : Results → ℕ
trailing_errors [] = 0
trailing_errors ((at, true) ∷ older) = suc (trailing_errors older)
trailing_errors ((at, false) ∷ older) = 0

abbrev pub last_time : Results → ℕ
last_time [] = 0
last_time ((at, is_error) ∷ older) = at

-- The kit is shut off: three errors or more in a row, the last one less than five minutes ago.
abbrev pub is_shut : ℕ → Results → Bool
is_shut now results =
    leb circuit_breaker_threshold (trailing_errors results)
    && ltb now (last_time results + circuit_breaker_cooldown_ms)

-- The item of a kit after its results.
abbrev circuit_after : Results → Option CircuitData
circuit_after [] = none
circuit_after ((at, is_error) ∷ older) = some (next_circuit at is_error (circuit_after older))

counted :
    (results : Results)
    → (or_else
        (circuit_after results)
        (record { error_count = 0; disabled_until = none })).error_count
      ≡ trailing_errors results
unfolding next_circuit
counted [] = refl
counted ((at, true) ∷ older) = ap suc (counted older)
counted ((at, false) ∷ older) = refl

-- No time limit is kept below the threshold.
unlimited :
    (results : Results)
    → leb circuit_breaker_threshold (trailing_errors results) ≡ false
    → (or_else
        (circuit_after results)
        (record { error_count = 0; disabled_until = none })).disabled_until
      ≡ none
unfolding next_circuit
unlimited [] h = refl
unlimited ((at, true) ∷ older) h = ground (arith, counted older, unlimited older)
unlimited ((at, false) ∷ older) h = refl

is_open-circuit_after :
    (now : ℕ) (results : Results) → is_open now (circuit_after results) ≡ is_shut now results
unfolding next_circuit
is_open-circuit_after now [] = refl
is_open-circuit_after now ((at, true) ∷ older) =
    elim (Bool-cases (leb circuit_breaker_threshold (suc (trailing_errors older)))) [
      | inl tripped ↦ rw (counted older, tripped) (ground arith)
      | inr fine ↦
          let before : leb circuit_breaker_threshold (trailing_errors older) ≡ false =
            ground arith in
          rw (counted older, fine, unlimited older before) refl
    ]
is_open-circuit_after now ((at, false) ∷ older) = refl

-- A store that keeps what is put into it, in which no call fails.
pub record IsKept {W : Type 0} (store : OAuthStore W) : Type 0 where
  pub circuit : W → Text → Option CircuitData
  pub count : W → (user_id kit_id date : Text) → Option ℕ
  pub gets_circuit :
      (w : W) (kit_id : Text) → store.get_circuit kit_id w ≡ (ok (circuit w kit_id), w)
  pub gets_count :
      (w : W) (user_id kit_id date : Text)
      → store.get_count user_id kit_id date w ≡ (ok (count w user_id kit_id date), w)
  pub puts_circuit :
      (w : W) (kit_id : Text) (item : CircuitData)
      → circuit (store.put_circuit kit_id item w).1 kit_id ≡ some item
  pub puts_count :
      (w : W) (user_id kit_id date : Text) (n : ℕ)
      → count (store.put_count user_id kit_id date n w).1 user_id kit_id date ≡ some n

-- The item of a day with `n` calls.
abbrev item_of : ℕ → Option ℕ
item_of zero = none
item_of (suc n) = some (suc n)

count_after-item_of : (n : ℕ) → count_after (item_of n) ≡ suc n
count_after-item_of zero = refl
count_after-item_of (suc n) = refl

below_cap-item_of : (n : ℕ) → below_cap (item_of n) ≡ ltb n daily_invocation_cap
below_cap-item_of zero = refl
below_cap-item_of (suc n) = refl

module _ {W : Type 0} (store : OAuthStore W) (kept : IsKept store) where
  -- The results of a kit, recorded one after the other.
  abbrev pub record_all : (kit_id : Text) → Results → W → W
  record_all kit_id [] w = w
  record_all kit_id ((at, is_error) ∷ older) w =
      (record_circuit_breaker_result store kit_id is_error at (record_all kit_id older w)).1

  try_or_world : (m : Action W (Unit {0})) (w : W) → (try_or m (λ error. tt) w).1 ≡ (m w).1
  try_or_world m w = elim (run_cases m w) [
    | inl (e, w', h) ↦ rw (try_or, h) refl
    | inr (a, w', h) ↦ rw (try_or, h) refl
  ]

  circuit_recorded :
      (kit_id : Text) (results : Results) (w : W)
      → kept.circuit w kit_id ≡ none
      → kept.circuit (record_all kit_id results w) kit_id ≡ circuit_after results
  unfolding record_circuit_breaker_result
  circuit_recorded kit_id [] w h = h
  circuit_recorded kit_id ((at, is_error) ∷ older) w h =
      let before = record_all kit_id older w in
      rw
        (
          try_or_world
              (bind (store.get_circuit kit_id)
                (λ item. store.put_circuit kit_id (next_circuit at is_error item)))
              before,
          bind,
          kept.gets_circuit before kit_id,
          circuit_recorded kit_id older w h,
        )
        (kept.puts_circuit before kit_id (next_circuit at is_error (circuit_after older)))

  -- After any results of a kit, recorded one after the other on a store that keeps them, the breaker
  -- lets a call through exactly when there are not three errors or more since the last success, or
  -- the last result is at least the cooldown of five minutes ago.
  pub check_circuit_breaker-record_all :
      (kit_id : Text) (results : Results) (w : W) (now : ℕ)
      → kept.circuit w kit_id ≡ none
      → (check_circuit_breaker store kit_id now (record_all kit_id results w)).0
        ≡ not (is_shut now results)
  unfolding check_circuit_breaker
  check_circuit_breaker-record_all kit_id results w now h =
      let after = record_all kit_id results w in
      rw
        (
          bind,
          kept.gets_circuit after kit_id,
          circuit_recorded kit_id results w h,
          is_open-circuit_after now results,
        )
        refl

  -- So many calls of a day, counted one after the other.
  abbrev pub count_calls : (user_id kit_id date : Text) → ℕ → W → W
  count_calls user_id kit_id date zero w = w
  count_calls user_id kit_id date (suc n) w =
      (increment_daily_cap store user_id kit_id date (count_calls user_id kit_id date n w)).1

  calls_counted :
      (user_id kit_id date : Text) (n : ℕ) (w : W)
      → kept.count w user_id kit_id date ≡ none
      → kept.count (count_calls user_id kit_id date n w) user_id kit_id date ≡ item_of n
  unfolding increment_daily_cap
  calls_counted user_id kit_id date zero w h = h
  calls_counted user_id kit_id date (suc n) w h =
      let before = count_calls user_id kit_id date n w in
      rw
        (
          try_or_world
              (bind (store.get_count user_id kit_id date)
                (λ item. store.put_count user_id kit_id date (count_after item)))
              before,
          bind,
          kept.gets_count before user_id kit_id date,
          calls_counted user_id kit_id date n w h,
        )
        (kept.puts_count before user_id kit_id date (count_after (item_of n))
          ∙ ap some (count_after-item_of n))

  -- After `n` calls of a user to a kit, counted one after the other on a store that keeps the counts of
  -- that day, the cap lets another call through exactly when `n` is below 500.
  pub check_daily_cap-count_calls :
      (user_id kit_id date : Text) (n : ℕ) (w : W)
      → kept.count w user_id kit_id date ≡ none
      → (check_daily_cap store user_id kit_id date (count_calls user_id kit_id date n w)).0
        ≡ ltb n daily_invocation_cap
  unfolding check_daily_cap
  check_daily_cap-count_calls user_id kit_id date n w h =
      let after = count_calls user_id kit_id date n w in
      rw (bind, kept.gets_count after user_id kit_id date, calls_counted user_id kit_id date n w h)
        (below_cap-item_of n)
