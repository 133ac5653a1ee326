-- ===== src/Plugins/Version.antt =====
-- The version ranges of packages/sdk/src/plugins/registry.ts: how a version or a token of a range is
-- read, and when a version satisfies the token. `Number` of a run of digits is taken as exact, as it
-- is below 2^53.
pub mod Ranges
use kitstack.Base.{
  ℕ, zero, suc, ◌+◌, ◌*◌, ◌-◌, Bool, true, false, ◌||◌, ◌&&◌, not, Option, none, some, List, [],
  ◌∷◌, ◌++◌, map, Text, codes, all, any, keep, is_space, length, leb, ltb, nat_eq, if◌then◌else◌,
  ◌==◌, text_instance, or_else, head?,
}

pub record SemVer : Type 0 where
  pub major : ℕ
  pub minor : ℕ
  pub patch : ℕ

-- The sign of `compareVersions`.
pub data Comparison : Type 0 where
  below equal above : Comparison

abbrev sign : ℕ → ℕ → Comparison
sign a b = if ltb a b then below else if ltb b a then above else equal

-- `left || right`: the first difference that is not zero
abbrev or_sign : Comparison → Comparison → Comparison
or_sign equal later = later
or_sign first later = first

unfoldable pub compare_versions : SemVer → SemVer → Comparison
compare_versions l r =
    or_sign (sign l.major r.major) (or_sign (sign l.minor r.minor) (sign l.patch r.patch))

abbrev at_least : Comparison → Bool
at_least below = false
at_least _ = true

abbrev is_below : Comparison → Bool
is_below below = true
is_below _ = false

abbrev is_equal : Comparison → Bool
is_equal equal = true
is_equal _ = false

-- A version of one to three parts, the absent ones zero.
pub record PartialVersion : Type 0 where
  pub version : SemVer
  pub precision : ℕ

-- `value.split(".")`, from the end of the text.
unfoldable pub split_dots : Text → List Text
split_dots [] = [] ∷ []
split_dots (c ∷ s) = add_to c (split_dots s)
  where
    add_to : ℕ → List Text → List Text
    add_to d [] = (d ∷ []) ∷ []
    add_to d (part ∷ parts) = if nat_eq d 46 then [] ∷ part ∷ parts else (d ∷ part) ∷ parts

-- `x`, `X` or `*`
abbrev is_wildcard : Text → Bool
is_wildcard (c ∷ []) = nat_eq c 120 || nat_eq c 88 || nat_eq c 42
is_wildcard _ = false

abbrev is_digit : ℕ → Bool
is_digit c = leb 48 c && leb c 57

-- `/^\d+$/`
abbrev is_number : Text → Bool
is_number [] = false
is_number (c ∷ s) = all is_digit (c ∷ s)

abbrev number_from : ℕ → Text → ℕ
number_from n [] = n
number_from n (c ∷ s) = number_from (10 * n + (c - 48)) s

-- The parts before the first wildcard.
abbrev before_wildcard : List Text → List Text
before_wildcard [] = []
before_wildcard (part ∷ parts) = if is_wildcard part then [] else part ∷ before_wildcard parts

-- A wildcard with a part after it that is none.
abbrev is_mixed : List Text → Bool
is_mixed [] = false
is_mixed (part ∷ parts) =
    if is_wildcard part then any (λ p. not (is_wildcard p)) parts else is_mixed parts

abbrev nth_or_zero : ℕ → List ℕ → ℕ
nth_or_zero n [] = 0
nth_or_zero zero (x ∷ xs) = x
nth_or_zero (suc n) (x ∷ xs) = nth_or_zero n xs

-- `value.replace(/^v/, "")`
abbrev without_v : Text → Text
without_v [] = []
without_v (c ∷ s) = if nat_eq c 118 then s else c ∷ s

abbrev of_numbers : List ℕ → PartialVersion
of_numbers numbers = record {
  version = record {
    major = nth_or_zero 0 numbers;
    minor = nth_or_zero 1 numbers;
    patch = nth_or_zero 2 numbers;
  };
  precision = length numbers;
}

unfoldable pub parse_partial_version : Text → Option PartialVersion
unfolding split_dots
parse_partial_version value =
    let parts = split_dots (without_v value) in
    let numeric = before_wildcard parts in
    if ltb 3 (length parts)
      || is_mixed parts
      || nat_eq (length numeric) 0
      || not (all is_number numeric)
    then none
    else some (of_numbers (map (number_from 0) numeric))

abbrev of_precision_three : Option PartialVersion → Option SemVer
of_precision_three none = none
of_precision_three (some parsed) = if nat_eq parsed.precision 3 then some parsed.version else none

unfoldable pub parse_version : Text → Option SemVer
unfolding parse_partial_version
parse_version value = of_precision_three (parse_partial_version value)

pub data Operator : Type 0 where
  caret tilde greater_equal less_equal greater less exactly plain : Operator

-- `>=` or `>`, after the first character.
abbrev with_equal : Operator → Operator → Text → Operator × Text
with_equal loose strict [] = (strict, [])
with_equal loose strict (c ∷ s) = if nat_eq c 61 then (loose, s) else (strict, c ∷ s)

-- The operator of a token, and the rest of it.
unfoldable pub operator_of : Text → Operator × Text
operator_of [] = (plain, [])
operator_of (c ∷ s) =
    if nat_eq c 94
    then (caret, s)
    else if nat_eq c 126
    then (tilde, s)
    else if nat_eq c 62
    then with_equal greater_equal greater s
    else if nat_eq c 60
    then with_equal less_equal less s
    else if nat_eq c 61
    then (exactly, s)
    else (plain, c ∷ s)

abbrev upper_of_caret : SemVer → SemVer
upper_of_caret v =
    if ltb 0 v.major
    then record { major = v.major + 1; minor = 0; patch = 0 }
    else if ltb 0 v.minor
    then record { major = 0; minor = v.minor + 1; patch = 0 }
    else record { major = 0; minor = 0; patch = v.patch + 1 }

abbrev upper_of_tilde : SemVer → SemVer
upper_of_tilde v = record { major = v.major; minor = v.minor + 1; patch = 0 }

unfoldable pub satisfies_parsed : SemVer → Operator → PartialVersion → Bool
unfolding compare_versions
satisfies_parsed candidate caret p =
    at_least (compare_versions candidate p.version)
    && is_below (compare_versions candidate (upper_of_caret p.version))
satisfies_parsed candidate tilde p =
    at_least (compare_versions candidate p.version)
    && is_below (compare_versions candidate (upper_of_tilde p.version))
satisfies_parsed candidate greater_equal p = at_least (compare_versions candidate p.version)
satisfies_parsed candidate less_equal p =
    let c = compare_versions candidate p.version in is_below c || is_equal c
satisfies_parsed candidate greater p =
    let c = compare_versions candidate p.version in at_least c && not (is_equal c)
satisfies_parsed candidate less p = is_below (compare_versions candidate p.version)
satisfies_parsed candidate exactly p = is_equal (compare_versions candidate p.version)
satisfies_parsed candidate plain p =
    if nat_eq p.precision 1
    then nat_eq candidate.major p.version.major
    else if nat_eq p.precision 2
    then nat_eq candidate.major p.version.major && nat_eq candidate.minor p.version.minor
    else is_equal (compare_versions candidate p.version)

abbrev satisfies_option : SemVer → Operator → Option PartialVersion → Bool
satisfies_option candidate operator none = false
satisfies_option candidate operator (some parsed) = satisfies_parsed candidate operator parsed

unfoldable pub satisfies_token : SemVer → Text → Bool
unfolding operator_of parse_partial_version satisfies_parsed
satisfies_token candidate token =
    let (operator, value) = operator_of token in
    is_wildcard token || satisfies_option candidate operator (parse_partial_version value)

-- The text before the first separator gains a character.
abbrev add_first : ℕ → List Text → List Text
add_first c [] = (c ∷ []) ∷ []
add_first c (part ∷ parts) = (c ∷ part) ∷ parts

-- `range.split("||")`, with the bar that may begin a separator kept back.
unfoldable pub split_after : Bool → Text → List Text
split_after false [] = [] ∷ []
split_after true [] = (124 ∷ []) ∷ []
split_after false (c ∷ s) =
    let rest = split_after (nat_eq c 124) s in if nat_eq c 124 then rest else add_first c rest
split_after true (c ∷ s) =
    let rest = split_after false s in
    if nat_eq c 124 then [] ∷ rest else add_first 124 (add_first c rest)

-- The runs between white space, empty ones included.
unfoldable pub split_spaces : Text → List Text
split_spaces [] = [] ∷ []
split_spaces (c ∷ s) =
    let rest = split_spaces s in if is_space c then [] ∷ rest else add_first c rest

abbrev is_filled : Text → Bool
is_filled [] = false
is_filled _ = true

-- `alternative.trim().split(/\s+/).filter(Boolean)`: the runs between white space.
unfoldable pub tokens : Text → List Text
unfolding split_spaces keep
tokens s = keep is_filled (split_spaces s)

-- An alternative without tokens, or of wildcards only, allows every version.
abbrev satisfies_alternative : SemVer → Text → Bool
satisfies_alternative candidate alternative =
    all is_wildcard (tokens alternative) || all (satisfies_token candidate) (tokens alternative)

abbrev satisfies_range : Option SemVer → List Text → Bool
satisfies_range none alternatives = false
satisfies_range (some candidate) alternatives = any (satisfies_alternative candidate) alternatives

unfoldable pub version_satisfies : Text → Text → Bool
unfolding parse_version satisfies_token split_after tokens
version_satisfies version range = satisfies_range (parse_version version) (split_after false range)

abbrev is_some : Option PartialVersion → Bool
is_some none = false
is_some (some _) = true

-- A token of a range that can be read.
abbrev is_readable : Text → Bool
is_readable token = is_wildcard token || is_some (parse_partial_version (operator_of token).1)

unfoldable pub is_supported_range : Text → Bool
unfolding operator_of parse_partial_version split_after tokens
is_supported_range range =
    all (λ alternative. ltb 0 (length (tokens alternative)) && all is_readable (tokens alternative))
      (split_after false range)
