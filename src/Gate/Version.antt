-- ===== src/Gate/Version.antt =====
-- internal/gate/version.go: semantic versions, their order, and the constraints on a tool's version.
-- Regular expressions are the parameter `Regexp`.
pub mod Order
use togi.Prelude.{
  ℕ, zero, suc, ◌≡◌, refl, Bool, true, false, not, ◌&&◌, ◌||◌, Option, none, some, List, [], ◌∷◌,
  ltb, leb, ◌==◌, if◌then◌else◌, length, drop,
}
use togi.Text.{Bytes, ascii, bytes_ltb, is_empty, has_prefix, contains_byte}
use togi.Text.Space.{fields, fields_from, space_width}
use togi.Text.Split.{split}

-- strings.Cut at a byte; none where the byte is not found
unfoldable pub cut : ℕ → Bytes → Bytes × Option Bytes
cut sep [] = ([], none)
cut sep (c ∷ s) =
    let (before, after) = cut sep s in if c == sep then ([], some s) else (c ∷ before, after)

pub record PrereleaseIdentifier : Type 0 where
  pub value : Bytes
  pub numeric : Bool

-- `core` is an array of three.
pub record SemanticVersion : Type 0 where
  pub major : Bytes
  pub minor : Bytes
  pub patch : Bytes
  pub prerelease : List PrereleaseIdentifier

pub data VersionError : Type 0 where
  invalid_build core_parts invalid_prerelease : VersionError
  invalid_core : Bytes → VersionError
  constraint_required : VersionError
  unsupported_constraint malformed_constraint : Bytes → VersionError
  invalid_constraint_version : Bytes → VersionError → VersionError

pub data VersionResult {ℓ} (A : Type ℓ) : Type ℓ where
  ok : A → VersionResult A
  err : VersionError → VersionResult A

abbrev digit : ℕ → Bool
digit c = leb b'0' c && leb c b'9'

abbrev only_digits : Bytes → Bool
only_digits [] = true
only_digits (c ∷ s) = digit c && only_digits s

unfoldable pub all_digits : Bytes → Bool
all_digits s = not (is_empty s) && only_digits s

abbrev ascii_letter_or_digit : ℕ → Bool
ascii_letter_or_digit c = digit c || leb b'A' c && leb c b'Z' || leb b'a' c && leb c b'z'

-- identifier[0] == '0', where there is a first byte
abbrev starts_with_zero : Bytes → Bool
starts_with_zero [] = false
starts_with_zero (c ∷ s) = c == b'0'

unfoldable pub valid_numeric_identifier : Bytes → Bool
unfolding all_digits
valid_numeric_identifier s =
    not (is_empty s) && (all_digits s && (length s == 1 || not (starts_with_zero s)))

-- The runes above ASCII are refused byte by byte.
abbrev identifier_bytes : Bytes → Bool
identifier_bytes [] = true
identifier_bytes (c ∷ s) = (ascii_letter_or_digit c || c == b'-') && identifier_bytes s

unfoldable pub valid_identifier : Bool → Bytes → Bool
unfolding all_digits
valid_identifier prerelease s =
    if is_empty s
    then false
    else if not (identifier_bytes s)
    then false
    else not (prerelease && (all_digits s && (ltb 1 (length s) && starts_with_zero s)))

unfoldable pub all_valid : Bool → List Bytes → Bool
unfolding valid_identifier
all_valid prerelease [] = true
all_valid prerelease (s ∷ ss) =
    if valid_identifier prerelease s then all_valid prerelease ss else false

unfoldable pub valid_identifiers : Bytes → Bool → Bool
unfolding all_valid split
valid_identifiers value prerelease =
    if is_empty value then false else all_valid prerelease (split b'.' value)

unfoldable pub prerelease_of : List Bytes → List PrereleaseIdentifier
unfolding all_digits
prerelease_of [] = []
prerelease_of (s ∷ ss) = record { value = s; numeric = all_digits s } ∷ prerelease_of ss

unfoldable pub core_of : List Bytes → VersionResult SemanticVersion
unfolding valid_numeric_identifier
core_of (a ∷ b ∷ c ∷ []) =
    if not (valid_numeric_identifier a)
    then err (invalid_core a)
    else if not (valid_numeric_identifier b)
    then err (invalid_core b)
    else if not (valid_numeric_identifier c)
    then err (invalid_core c)
    else ok (record { major = a; minor = b; patch = c; prerelease = [] })
core_of _ = err core_parts

unfoldable pub with_prerelease : Option Bytes → SemanticVersion → VersionResult SemanticVersion
unfolding valid_identifiers prerelease_of
with_prerelease none v = ok v
with_prerelease (some text) v =
    if not (valid_identifiers text true)
    then err invalid_prerelease
    else ok (record v { prerelease = prerelease_of (split b'.' text) })

unfoldable pub valid_build : Option Bytes → Bool
unfolding valid_identifiers contains_byte
valid_build none = true
valid_build (some build) = not (contains_byte build b'+' || not (valid_identifiers build false))

unfoldable pub parse_semantic_version : Bytes → VersionResult SemanticVersion
unfolding cut valid_build core_of with_prerelease
parse_semantic_version value =
    let (version_text, build) = cut b'+' value in
    let (core_text, prerelease_text) = cut b'-' version_text in
    if not (valid_build build) then err invalid_build else elim (core_of (split b'.' core_text)) [
      | err e ↦ err e
      | ok v ↦ with_prerelease prerelease_text v
    ]

-- The results -1, 0 and 1 of a comparison.
pub data Comparison : Type 0 where
  below same above : Comparison

-- The second comparison decides where the first does not.
abbrev pub or_else : Comparison → Comparison → Comparison
or_else below next = below
or_else same next = next
or_else above next = above

abbrev pub compare_bytes : Bytes → Bytes → Comparison
compare_bytes left right =
    if bytes_ltb left right then below else if bytes_ltb right left then above else same

unfoldable pub compare_numeric_identifiers : Bytes → Bytes → Comparison
compare_numeric_identifiers left right =
    if ltb (length left) (length right)
    then below
    else if ltb (length right) (length left)
    then above
    else compare_bytes left right

unfoldable pub compare_prerelease_identifier :
    PrereleaseIdentifier → PrereleaseIdentifier → Comparison
unfolding compare_numeric_identifiers
compare_prerelease_identifier left right =
    if left.numeric && right.numeric
    then compare_numeric_identifiers left.value right.value
    else if left.numeric
    then below
    else if right.numeric
    then above
    else compare_bytes left.value right.value

-- The loop over the identifiers that both have, then the lengths.
unfoldable pub compare_prereleases :
    List PrereleaseIdentifier → List PrereleaseIdentifier → Comparison
unfolding compare_prerelease_identifier
compare_prereleases [] [] = same
compare_prereleases [] (b ∷ bs) = below
compare_prereleases (a ∷ as') [] = above
compare_prereleases (a ∷ as') (b ∷ bs) =
    or_else (compare_prerelease_identifier a b) (compare_prereleases as' bs)

-- A release is above its prereleases.
unfoldable pub compare_releases : List PrereleaseIdentifier → List PrereleaseIdentifier → Comparison
unfolding compare_prereleases
compare_releases [] [] = same
compare_releases [] (b ∷ bs) = above
compare_releases (a ∷ as') [] = below
compare_releases (a ∷ as') (b ∷ bs) = compare_prereleases (a ∷ as') (b ∷ bs)

unfoldable pub compare_semantic_versions : SemanticVersion → SemanticVersion → Comparison
unfolding compare_numeric_identifiers compare_releases
compare_semantic_versions left right =
    or_else (compare_numeric_identifiers left.major right.major) (
      or_else (compare_numeric_identifiers left.minor right.minor) (
        or_else (compare_numeric_identifiers left.patch right.patch)
          (compare_releases left.prerelease right.prerelease)))

-- The operators ">=" and "<"
pub data VersionOperator : Type 0 where
  at_least less_than : VersionOperator

pub record VersionConstraint : Type 0 where
  pub operator : VersionOperator
  pub version : SemanticVersion

unfoldable pub constraint_of : VersionOperator → Bytes → Bytes → VersionResult VersionConstraint
unfolding parse_semantic_version
constraint_of operator part version_text =
    if is_empty version_text
    then err (malformed_constraint part)
    else elim (parse_semantic_version version_text) [
      | err e ↦ err (invalid_constraint_version version_text e)
      | ok v ↦ ok (record { operator = operator; version = v })
    ]

unfoldable pub parse_part : Bytes → VersionResult VersionConstraint
unfolding constraint_of has_prefix
parse_part part =
    if has_prefix part (ascii ">=")
    then constraint_of at_least part (drop 2 part)
    else if has_prefix part (ascii "<") && not (has_prefix part (ascii "<="))
    then constraint_of less_than part (drop 1 part)
    else err (unsupported_constraint part)

unfoldable pub parse_parts : List Bytes → VersionResult (List VersionConstraint)
unfolding parse_part
parse_parts [] = ok []
parse_parts (part ∷ parts) =
    let rest = parse_parts parts in
    elim (parse_part part) [
      | err e ↦ err e
      | ok c ↦ elim rest [ err e ↦ err e | ok cs ↦ ok (c ∷ cs) ]
    ]

abbrev require_parts : List Bytes → VersionResult (List VersionConstraint)
require_parts [] = err constraint_required
require_parts (part ∷ parts) = parse_parts (part ∷ parts)

unfoldable pub parse_constraint : Bytes → VersionResult (List VersionConstraint)
unfolding parse_parts fields
parse_constraint value = require_parts (fields value)

unfoldable pub satisfies : SemanticVersion → VersionConstraint → Bool
unfolding compare_semantic_versions
satisfies v c = elim c.operator [
  | at_least ↦ elim (compare_semantic_versions v c.version) [
    | below ↦ false
    | same ↦ true
    | above ↦ true
  ]
  | less_than ↦ elim (compare_semantic_versions v c.version) [
    | below ↦ true
    | same ↦ false
    | above ↦ false
  ]
]

unfoldable pub satisfies_all : SemanticVersion → List VersionConstraint → Bool
unfolding satisfies
satisfies_all v [] = true
satisfies_all v (c ∷ cs) = if satisfies v c then satisfies_all v cs else false

pub record Version : Type 0 where
  pub command : List Bytes
  pub pattern : Bytes
  pub constraint : Bytes

-- Package regexp: what Compile gives, NumSubexp, and match[1] of FindStringSubmatch.
pub record Regexp : Type 1 where
  pub Pattern : Type 0
  pub compile : Bytes → Option Pattern
  pub groups : Pattern → ℕ
  pub first_group : Pattern → Bytes → Option Bytes

pub data ObserveError : Type 0 where
  invalid_pattern group_required not_found : ObserveError
  invalid_observed : VersionError → ObserveError
  invalid_constraint : VersionError → ObserveError

-- `observed, matches, err`
pub record Observation : Type 0 where
  pub observed : Bytes
  pub matches : Bool
  pub error : Option ObserveError

abbrev pub failed : Bytes → ObserveError → Observation
failed text e = record { observed = text; matches = false; error = some e }

unfoldable pub judge_observed : Bytes → Bytes → Observation
unfolding parse_semantic_version parse_constraint satisfies_all
judge_observed constraint observed = elim (parse_semantic_version observed) [
  | err e ↦ failed observed (invalid_observed e)
  | ok v ↦ elim (parse_constraint constraint) [
    | err e ↦ failed observed (invalid_constraint e)
    | ok cs ↦ record { observed = observed; matches = satisfies_all v cs; error = none }
  ]
]

module _ (R : Regexp) where
  unfoldable pub observe_match : Bytes → Option Bytes → Observation
  observe_match constraint none = failed [] not_found
  observe_match constraint (some []) = failed [] not_found
  observe_match constraint (some (c ∷ s)) = judge_observed constraint (c ∷ s)

  unfoldable pub observe : Version → Bytes → Observation
  unfolding observe_match
  observe v raw =
      if length v.command == 0 && (is_empty v.pattern && is_empty v.constraint)
      then record { observed = []; matches = true; error = none }
      else elim (R.compile v.pattern) [
        | none ↦ failed [] invalid_pattern
        | some p ↦
            if ltb (R.groups p) 1
            then failed [] group_required
            else observe_match v.constraint (R.first_group p raw)
      ]
