-- ===== src/Agent/Config.antt =====
-- `validateConfig` of packages/sdk/src/define-agent.ts. That a field is there and has its type is what
-- the types say here; what is left is the run-time part: blank strings, tool names, and limits that may
-- be any number.
pub mod Accepted
use Prim.Native.Nat.{◌%◌, ◌^◌}
use kitstack.Agent.Types.{Number, nan, infinity, finite}
use kitstack.Base.{
  nat_eq, ℕ, zero, suc, ◌*◌, ◌≡◌, refl, Bool, true, false, ◌||◌, not, Option, none, some, List, [],
  ◌∷◌, ◌++◌, Text, codes, is_blank, any, or_else, ltb, if◌then◌else◌, ◌==◌, text_instance, Result,
  ok, err, ◌>>=◌, ◌>>◌,
}

pub record DefineAgentConfig : Type 0 where
  pub id : Text
  pub kit_id : Text
  pub trigger_id : Text
  pub trigger_identity : Text
  pub instructions_version : Text
  pub instructions_content : Text
  pub tools : List Text
  pub max_turns : Option Number
  pub max_duration_ms : Option Number

pub record Limits : Type 0 where
  pub max_turns : Number
  pub max_duration_ms : Number

abbrev pub default_max_turns : Number
default_max_turns = finite false 10 0

abbrev pub default_max_duration_ms : Number
default_max_duration_ms = finite false 60000 0

-- `Number.isInteger`
abbrev pub is_integer : Number → Bool
is_integer (finite negative mantissa halvings) = nat_eq (mantissa % 2 ^ halvings) 0
is_integer _ = false

-- `Number.isFinite`
abbrev pub is_finite : Number → Bool
is_finite (finite negative mantissa halvings) = true
is_finite _ = false

-- `value < 1`
abbrev pub is_below_one : Number → Bool
is_below_one nan = false
is_below_one (infinity negative) = negative
is_below_one (finite negative mantissa halvings) = negative || ltb mantissa (2 ^ halvings)

-- `value <= 0`
abbrev pub is_at_most_zero : Number → Bool
is_at_most_zero nan = false
is_at_most_zero (infinity negative) = negative
is_at_most_zero (finite negative mantissa halvings) = negative || nat_eq mantissa 0

unfoldable pub require_strings : List (Text × Text) → Result Text (Unit {0})
unfolding is_blank
require_strings [] = ok tt
require_strings ((name, value) ∷ more) =
    if is_blank value
    then err (codes "defineAgent: " ++ (name ++ codes " must be a non-empty string"))
    else require_strings more

-- The loop over the tools, with the set of names seen.
unfoldable pub require_tools : List Text → List Text → Result Text (Unit {0})
unfolding is_blank
require_tools names [] = ok tt
require_tools names (tool ∷ tools) =
    let rest = require_tools (tool ∷ names) tools in
    if is_blank tool
    then err (codes "defineAgent: every tool must have a non-empty name")
    else if any (λ seen. seen == tool) names
    then err (codes "defineAgent: duplicate tool name \"" ++ (tool ++ codes "\""))
    else rest

abbrev guard : Bool → Text → Result Text (Unit {0})
guard true message = ok tt
guard false message = err message

abbrev pub no_turns : Text
no_turns = codes "defineAgent: maxTurns must be a positive integer"

abbrev pub no_time : Text
no_time = codes "defineAgent: maxDurationMs must be a positive number"

abbrev pub required_strings : DefineAgentConfig → List (Text × Text)
required_strings config =
    (codes "id", config.id)
    ∷ (codes "kitId", config.kit_id)
    ∷ (codes "trigger.id", config.trigger_id)
    ∷ (codes "trigger.identity", config.trigger_identity)
    ∷ (codes "instructions.version", config.instructions_version)
    ∷ (codes "instructions.content", config.instructions_content)
    ∷ []

unfoldable pub validate_config : DefineAgentConfig → Result Text Limits
unfolding require_strings require_tools
validate_config config = do
  require_strings (required_strings config)
  require_tools [] config.tools
  let max_turns = or_else config.max_turns default_max_turns
  let max_duration_ms = or_else config.max_duration_ms default_max_duration_ms
  guard (not (not (is_integer max_turns) || is_below_one max_turns)) no_turns
  guard (not (not (is_finite max_duration_ms) || is_at_most_zero max_duration_ms)) no_time
  ok (record { max_turns = max_turns; max_duration_ms = max_duration_ms })
