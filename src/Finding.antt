-- ===== src/Finding.antt =====
-- internal/finding/finding.go: a normalized finding, its identity and its validation. The hash of
-- crypto/sha256 is the parameter `sha256` of what uses it.
pub mod FilePath
pub mod Group
pub mod Scope
pub mod Identity
use togi.Prelude.{
  ℕ, zero, suc, ◌-◌, ◌≡◌, refl, Bool, true, false, not, ◌&&◌, ◌||◌, List, [], ◌∷◌, ◌++◌, Option,
  none, some, ltb, leb, ◌==◌, if◌then◌else◌, length,
}
use togi.Prelude.Int.{ℤ, pos, negsuc, ltb_ℤ, leb_ℤ, eqb_ℤ}
use togi.Text.{Bytes, ascii, bytes_eqb, is_empty, index_byte}
use togi.Text.Space.{is_blank, fields, join}
use togi.Text.Encode.{write_fields, hex_encode}
use togi.Finding.FilePath.{clean_path, parse_path, PathError, PathResult, minted, refused}

-- Go's string type of three constants; any other text is `other`.
pub data Severity : Type 0 where
  error warning info : Severity
  other : Bytes → Severity

pub record Occurrence : Type 0 where
  pub line : ℤ
  pub end_line : ℤ

pub record Finding : Type 0 where
  pub gate : Bytes
  pub language : Bytes
  pub rule_id : Bytes
  pub severity : Severity
  pub file : Bytes
  pub line : ℤ
  pub end_line : ℤ
  pub snippet : Bytes
  pub occurrences : List Occurrence
  pub message : Bytes
  pub fingerprint : Bytes

-- filepath.ToSlash is the identity on the supported platform.
unfoldable pub normalize_file : Bytes → Bytes
unfolding clean_path
normalize_file file = clean_path file

unfoldable pub normalize_snippet : Bytes → Bytes
unfolding fields join
normalize_snippet snippet = join (ascii " ") (fields snippet)

-- The fields that identify a finding.
unfoldable pub identity_fields : Finding → List Bytes
unfolding normalize_file normalize_snippet
identity_fields f = f.gate ∷ f.rule_id ∷ normalize_file f.file ∷ normalize_snippet f.snippet ∷ []

-- What `Fingerprint` writes to the hash.
unfoldable pub identity_bytes : Finding → Bytes
unfolding identity_fields write_fields
identity_bytes f = write_fields (identity_fields f)

unfoldable pub hex_character : ℕ → Bool
hex_character c = leb b'0' c && leb c b'9' || leb b'a' c && leb c b'f'

abbrev all_hex : Bytes → Bool
all_hex [] = true
all_hex (c ∷ s) = hex_character c && all_hex s

-- hex.EncodedLen(sha256.Size)
abbrev pub fingerprint_length : ℕ
fingerprint_length = 64

unfoldable pub valid_fingerprint : Bytes → Bool
unfolding hex_character
valid_fingerprint value = if length value == fingerprint_length then all_hex value else false

unfoldable pub valid_severity : Severity → Bool
valid_severity error = true
valid_severity warning = true
valid_severity info = true
valid_severity (other _) = false

-- slash > 0 && slash < len(ruleID)-1
unfoldable pub tool_qualified_rule_id : Bytes → Bool
unfolding index_byte
tool_qualified_rule_id rule_id = elim (index_byte rule_id b'/') [
  | none ↦ false
  | some slash ↦ ltb 0 slash && ltb slash (length rule_id - 1)
]

pub data FindingError : Type 0 where
  gate_required language_required rule_id_required rule_id_unqualified : FindingError
  invalid_severity file_required snippet_required message_required : FindingError
  bad_path : PathError → FindingError
  line_not_positive end_line_precedes_line : FindingError
  bad_occurrence : ℕ → FindingError → FindingError
  fingerprint_mismatch : FindingError

-- The first failing case of the `switch`, if any.
unfoldable pub validate_identity : Finding → Option FindingError
unfolding is_blank tool_qualified_rule_id valid_severity parse_path
validate_identity f =
    if is_blank f.gate
    then some gate_required
    else if is_blank f.language
    then some language_required
    else if is_blank f.rule_id
    then some rule_id_required
    else if not (tool_qualified_rule_id f.rule_id)
    then some rule_id_unqualified
    else if not (valid_severity f.severity)
    then some invalid_severity
    else if is_empty f.file
    then some file_required
    else if is_blank f.snippet
    then some snippet_required
    else if is_blank f.message
    then some message_required
    else elim (parse_path f.file) [ minted _ ↦ none | refused e ↦ some (bad_path e) ]

unfoldable pub validate_location : ℤ → ℤ → Option FindingError
validate_location line end_line =
    if leb_ℤ line (pos 0)
    then some line_not_positive
    else if not (eqb_ℤ end_line (pos 0)) && ltb_ℤ end_line line
    then some end_line_precedes_line
    else none

unfoldable pub validate_occurrences : ℕ → List Occurrence → Option FindingError
unfolding validate_location
validate_occurrences index [] = none
validate_occurrences index (o ∷ os) = elim (validate_location o.line o.end_line) [
  | none ↦ validate_occurrences (suc index) os
  | some e ↦ some (bad_occurrence index e)
]

module _ (sha256 : Bytes → Bytes) where
  unfoldable pub fingerprint : Finding → Bytes
  unfolding identity_bytes hex_encode
  fingerprint f = hex_encode (sha256 (identity_bytes f))

  unfoldable pub validate : Finding → Option FindingError
  unfolding validate_identity validate_occurrences fingerprint bytes_eqb
  validate f = elim (validate_identity f) [
    | some e ↦ some e
    | none ↦ elim (validate_location f.line f.end_line) [
      | some e ↦ some e
      | none ↦ elim (validate_occurrences 0 f.occurrences) [
        | some e ↦ some e
        | none ↦
            if not (is_empty f.fingerprint) && not (bytes_eqb f.fingerprint (fingerprint f))
            then some fingerprint_mismatch
            else none
      ]
    ]
  ]

abbrev pub sample_finding : Finding
sample_finding = record {
  gate = ascii "lint";
  language = ascii "go";
  rule_id = ascii "golangci/errcheck";
  severity = error;
  file = ascii "internal/run/run.go";
  line = pos 12;
  end_line = pos 0;
  snippet = ascii "defer  file.Close()";
  occurrences = [];
  message = ascii "unchecked error";
  fingerprint = [];
}

sample_valid : validate (λ s. s) sample_finding ≡ none
unfolding validate
sample_valid = refl

sample_unqualified :
    validate (λ s. s) (record sample_finding { rule_id = ascii "errcheck/" })
    ≡ some rule_id_unqualified
unfolding validate
sample_unqualified = refl
