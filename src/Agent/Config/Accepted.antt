-- ===== src/Agent/Config/Accepted.antt =====
-- Which configurations `validateConfig` of packages/sdk/src/define-agent.ts lets through.
use mathlib.Core.Path.{subst}
use Prim.Native.Nat.{◌%◌, ◌/◌, ◌^◌}
use native.Mathlib.Nat.{mul_comm, div-add-mod, mul-mod_left, one-le-pow}
use kitstack.Agent.Types.{Number, nan, infinity, finite}
use kitstack.Base.{
  ℕ, zero, suc, ◌*◌, ◌+◌, ◌≤◌, not, ◌||◌, ◌<◌, ◌≡◌, ◌↔◌, refl, ap, Bool, true, false, List, [], ◌∷◌,
  Text, is_blank, any, All, Memᴰ, or_else, ◌==◌, text_instance, eq_iff, eq_refl, Bool-cases, inl,
  inr, Result, ok, err, ok_injective, ◌>>◌, arith, any_of_mem, mem_of_any,
}
use kitstack.Agent.Config.{
  DefineAgentConfig, Limits, require_strings, require_tools, validate_config, guard, no_turns,
  no_time, is_integer, is_finite, is_below_one, is_at_most_zero, required_strings,
  default_max_turns, default_max_duration_ms,
}

-- A text with something other than white space in it.
abbrev pub IsNamed : Text → Type 0
IsNamed t = is_blank t ≡ false

abbrev pub AreDistinct : List Text → Type 0
AreDistinct [] = Unit
AreDistinct (t ∷ ts) = ¬ Memᴰ t ts × AreDistinct ts

-- A whole number of at least one, as a double.
abbrev pub IsCount : Number → Type 0
IsCount (finite negative mantissa halvings) =
    (negative ≡ false) × ((n : ℕ) × (mantissa ≡ suc n * 2 ^ halvings))
IsCount _ = ⊥

-- A finite number above zero, a fraction maybe.
abbrev pub IsDuration : Number → Type 0
IsDuration (finite negative mantissa halvings) = (negative ≡ false) × (0 < mantissa)
IsDuration _ = ⊥

pub record IsValid (config : DefineAgentConfig) : Type 0 where
  pub strings : All IsNamed (
      config.id ∷ config.kit_id ∷ config.trigger_id ∷ config.trigger_identity
      ∷ config.instructions_version ∷ config.instructions_content ∷ [])
  pub named : All IsNamed config.tools
  pub distinct : AreDistinct config.tools
  pub some_turns : IsCount (or_else config.max_turns default_max_turns)
  pub some_time : IsDuration (or_else config.max_duration_ms default_max_duration_ms)

abbrev values : List (Text × Text) → List Text
values [] = []
values ((name, value) ∷ more) = value ∷ values more

require_strings_iff :
    (l : List (Text × Text)) → (require_strings l ≡ ok tt) ↔ All IsNamed (values l)
unfolding require_strings
require_strings_iff [] = ((λ _. tt), (λ _. refl))
require_strings_iff ((name, value) ∷ more) = elim (Bool-cases (is_blank value)) [
  | inl blank ↦ ((λ h. absurd (cc (rw blank at h))), (λ h. absurd (cc (h.0, blank))))
  | inr named ↦
      let (to, from) = require_strings_iff more in
      ((λ h. (named, to (rw named at h))), (λ h. rw named (from h.1)))
]

-- The accepted rest of a list of tools, after some names.
abbrev IsFresh : List Text → List Text → Type 0
IsFresh names tools = (t : Text) → Memᴰ t tools → ¬ Memᴰ t names

is_seen : List Text → Text → Bool
is_seen names t = any (λ seen. seen == t) names

is_seen_iff : (names : List Text) (t : Text) → (is_seen names t ≡ true) ↔ Memᴰ t names
unfolding is_seen
is_seen_iff names t = (
  λ h.
      let (a, m, e) = mem_of_any (λ seen. seen == t) names h in
      subst (λ x. Memᴰ x names) ((eq_iff a t).0 e) m,
  λ m. any_of_mem (λ seen. seen == t) names m (eq_refl t),
)

require_tools_sound :
    (names tools : List Text)
    → require_tools names tools ≡ ok tt
    → All IsNamed tools × AreDistinct tools × IsFresh names tools
unfolding require_tools is_seen
require_tools_sound names [] h = (tt, tt, λ t m. elim m [ ])
require_tools_sound names (t ∷ ts) h = elim (Bool-cases (is_blank t)) [
  | inl blank ↦ absurd (cc (rw blank at h))
  | inr named ↦ elim (Bool-cases (is_seen names t)) [
    | inl seen ↦ absurd (cc (rw (named, seen) at h))
    | inr unseen ↦
        let (all_named, distinct, fresh) =
          require_tools_sound (t ∷ names) ts (rw (named, unseen) at h) in
        (
          (named, all_named),
          ((λ m. fresh t m (Memᴰ.head refl)), distinct),
          λ s m k. elim m [
            | Memᴰ.head same ↦
                absurd (cc (unseen, (is_seen_iff names t).1 (subst (λ x. Memᴰ x names) same k)))
            | Memᴰ.tail later ↦ fresh s later (Memᴰ.tail k)
          ],
        )
  ]
]

require_tools_complete :
    (names tools : List Text)
    → All IsNamed tools × AreDistinct tools × IsFresh names tools
    → require_tools names tools ≡ ok tt
unfolding require_tools is_seen
require_tools_complete names [] h = refl
require_tools_complete names (t ∷ ts) ((named, all_named), (alone, distinct), fresh) =
    elim (Bool-cases (is_seen names t)) [
      | inl seen ↦ absurd (fresh t (Memᴰ.head refl) ((is_seen_iff names t).0 seen))
      | inr unseen ↦
          rw (named, unseen)
            (require_tools_complete (t ∷ names) ts (
              all_named,
              distinct,
              λ s m k. elim k [
                | Memᴰ.head same ↦ alone (subst (λ x. Memᴰ x ts) same m)
                | Memᴰ.tail later ↦ fresh s (Memᴰ.tail m) later
              ],
            ))
    ]

then_iff :
    {A : Type 0} (m : Result Text (Unit {0})) (k : Result Text A) {a : A}
    → (m >> k ≡ ok a) ↔ ((m ≡ ok tt) × (k ≡ ok a))
then_iff (ok tt) k = ((λ h. (refl, h)), (λ h. h.1))
then_iff (err e) k = ((λ h. absurd (cc h)), (λ h. absurd (cc (h.0))))

guard_iff : (test : Bool) (message : Text) → (guard test message ≡ ok tt) ↔ (test ≡ true)
guard_iff true message = ((λ _. refl), (λ _. refl))
guard_iff false message = ((λ h. absurd (cc h)), (λ h. absurd (cc h)))

-- A multiple of a power of two that is not below it.
count_iff :
    (mantissa unit : ℕ)
    → 0 < unit
    → ((mantissa % unit ≡ 0) × (unit ≤ mantissa)) ↔ ((n : ℕ) × (mantissa ≡ suc n * unit))
count_iff mantissa unit pos = (
  λ (whole, enough). multiple (mantissa / unit) (div-add-mod mantissa unit) whole enough,
  λ (n, same). rw same (mul-mod_left (suc n) unit, omega arith),
)
  where
    multiple :
        (q : ℕ)
        → unit * q + mantissa % unit ≡ mantissa
        → mantissa % unit ≡ 0
        → unit ≤ mantissa
        → (n : ℕ) × (mantissa ≡ suc n * unit)
    multiple zero same whole enough = absurd (omega (arith, pos, same, whole, enough))
    multiple (suc n) same whole enough = (n, grind (arith, mul_comm unit (suc n)))

IsCount-iff : (x : Number) → (not (not (is_integer x) || is_below_one x) ≡ true) ↔ IsCount x
IsCount-iff nan = ((λ h. absurd (cc h)), (λ h. absurd h))
IsCount-iff (infinity negative) = ((λ h. absurd (cc h)), (λ h. absurd h))
IsCount-iff (finite true mantissa halvings) =
    ((λ h. absurd (ground arith)), (λ h. absurd (cc (h.0))))
IsCount-iff (finite false mantissa halvings) =
    let (to, from) = count_iff mantissa (2 ^ halvings) (one-le-pow halvings 2 (omega arith)) in
    (
      λ h. (refl, to (ground arith)),
      λ (_, h). let (whole, enough) = from h in ground (arith, whole, enough),
    )

IsDuration-iff : (x : Number) → (not (not (is_finite x) || is_at_most_zero x) ≡ true) ↔ IsDuration x
IsDuration-iff nan = ((λ h. absurd (cc h)), (λ h. absurd h))
IsDuration-iff (infinity negative) = ((λ h. absurd (cc h)), (λ h. absurd h))
IsDuration-iff (finite true mantissa halvings) = ((λ h. absurd (cc h)), (λ h. absurd (cc (h.0))))
IsDuration-iff (finite false mantissa halvings) = ((λ h. (refl, ground arith)), (λ h. ground arith))

abbrev pub limits_of : DefineAgentConfig → Limits
limits_of config = record {
  max_turns = or_else config.max_turns default_max_turns;
  max_duration_ms = or_else config.max_duration_ms default_max_duration_ms;
}

-- `validateConfig` accepts a configuration exactly when its six identifying texts and all its tools'
-- names are not blank, no two tools have one name, the limit on turns, or its default, is a whole
-- number of at least one, and the limit on time, or its default, is finite and above zero; no infinity
-- and no NaN is accepted, and a fraction only for the time. It answers the limits given, or the defaults.
pub validate_config_iff :
    (config : DefineAgentConfig) (limits : Limits)
    → (validate_config config ≡ ok limits) ↔ (IsValid config × (limits_of config ≡ limits))
unfolding validate_config
validate_config_iff config limits = (
  λ h.
      let (strings, h1) = (then_iff (require_strings (required_strings config)) _).0 h in
      let (tools, h2) = (then_iff _ _).0 h1 in
      let (turns, h3) = (then_iff _ _).0 h2 in
      let (time, h4) = (then_iff _ _).0 h3 in
      let (named, distinct, _) = require_tools_sound [] config.tools tools in
      (
        record {
          strings = (require_strings_iff (required_strings config)).0 strings;
          named = named;
          distinct = distinct;
          some_turns = (IsCount-iff _).0 ((guard_iff _ no_turns).0 turns);
          some_time = (IsDuration-iff _).0 ((guard_iff _ no_time).0 time);
        },
        ok_injective h4,
      ),
  λ (valid, same). (then_iff _ _).1 (
    (require_strings_iff (required_strings config)).1 valid.strings,
    (then_iff _ _).1 (
      require_tools_complete [] config.tools (valid.named, valid.distinct, λ t m k. elim k [ ]),
      (then_iff _ _).1 (
        (guard_iff _ no_turns).1 ((IsCount-iff _).1 valid.some_turns),
        (then_iff _ _).1
            ((guard_iff _ no_time).1 ((IsDuration-iff _).1 valid.some_time), ap ok same),
      ),
    ),
  ),
)
