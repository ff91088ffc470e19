-- ===== src/Flywheel/Plan.antt =====
-- internal/flywheel/plan.go: the plan that the flywheel persists. Blocking findings in canonical
-- form are grouped into one batch for each primary file. The hash is the parameter `sha256`.
pub mod Canonical
pub mod Partition
pub mod Distinct
pub mod Segments
use togi.Prelude.{
  ℕ, zero, suc, ◌+◌, ◌-◌, ◌^◌, Bool, true, false, ◌&&◌, ◌||◌, not, Option, none, some, List, [],
  ◌∷◌, ◌++◌, map, ltb, ◌==◌, if◌then◌else◌, length,
}
use togi.Prelude.Int.{ℤ, pos, negsuc, ltb_ℤ, eqb_ℤ}
use togi.Prelude.Order.{by_key}
use togi.Prelude.Sort.{sort}
use togi.Text.{Bytes, ascii, bytes_eqb, bytes_ltb, is_empty, mem_bytes}
use togi.Text.Encode.{put_uint64, write_field, write_fields, hex_encode}
use togi.Finding.{Severity, error, warning, info, other, Occurrence, Finding, FindingError}
use togi.Finding.Group.{
  GroupResult, grouped, invalid, panicked, group, severity_eqb, occurrence_eqb,
}
use togi.Flywheel.Multiset.{Counts, add_count}

pub data BatchStatus : Type 0 where
  batch_pending batch_running batch_done batch_stuck : BatchStatus

pub data AttemptStatus : Type 0 where
  attempt_running attempt_passed attempt_failed : AttemptStatus

pub record Attempt : Type 0 where
  pub number : ℕ
  pub status : AttemptStatus
  pub failure : Bytes
  pub changed_files : List Bytes
  pub commit : Bytes

pub record BatchIdentity : Type 0 where
  pub wave_digest : Bytes
  pub identity_proof : Bytes

-- The unexported `proof` is an argument of its own where it is set.
pub record Batch : Type 0 where
  pub id : Bytes
  pub primary_file : Bytes
  pub findings : List Finding
  pub status : BatchStatus
  pub attempts : List Attempt
  pub identity : BatchIdentity

pub record Plan : Type 0 where
  pub schema_version : ℕ
  pub batches : List Batch

-- `Plan{}`
abbrev pub empty_plan : Plan
empty_plan = record { schema_version = 0; batches = [] }

pub data PlanError : Type 0 where
  fingerprint_required not_canonical duplicate_fingerprint group_panicked : ℕ → PlanError
  ungroupable : ℕ → FindingError → PlanError

pub data PlanResult {ℓ} (A : Type ℓ) : Type ℓ where
  ok : A → PlanResult A
  err : PlanError → PlanResult A

abbrev pub map_ok : {A B : Type 0} → (A → B) → PlanResult A → PlanResult B
map_ok f (ok a) = ok (f a)
map_ok f (err e) = err e

unfoldable pub occurrences_eqb : List Occurrence → List Occurrence → Bool
occurrences_eqb [] [] = true
occurrences_eqb (a ∷ as') (b ∷ bs) = occurrence_eqb a b && occurrences_eqb as' bs
occurrences_eqb _ _ = false

-- reflect.DeepEqual on findings; where both have no occurrence, the caller has made both nil.
unfoldable pub finding_eqb : Finding → Finding → Bool
finding_eqb a b =
    bytes_eqb a.gate b.gate
    && (bytes_eqb a.language b.language
        && (bytes_eqb a.rule_id b.rule_id
            && (severity_eqb a.severity b.severity
                && (bytes_eqb a.file b.file
                    && (eqb_ℤ a.line b.line
                        && (eqb_ℤ a.end_line b.end_line
                            && (bytes_eqb a.snippet b.snippet
                                && (occurrences_eqb a.occurrences b.occurrences
                                    && (bytes_eqb a.message b.message
                                        && bytes_eqb a.fingerprint b.fingerprint)))))))))

unfoldable pub less_plan_finding : Finding → Finding → Bool
less_plan_finding =
    by_key bytes_eqb bytes_ltb (λ f. f.file)
      (by_key eqb_ℤ ltb_ℤ (λ f. f.line)
        (by_key bytes_eqb bytes_ltb (λ f. f.gate)
          (by_key bytes_eqb bytes_ltb (λ f. f.rule_id)
            (λ left right. bytes_ltb left.fingerprint right.fingerprint))))

-- What one finding has to pass: the first error of the loop's body, if any.
abbrev pub regrouped : ℕ → Finding → GroupResult → Option PlanError
regrouped index item (grouped (g ∷ [])) =
    if finding_eqb g item then none else some (not_canonical index)
regrouped index item (grouped _) = some (not_canonical index)
regrouped index item (invalid _ e) = some (ungroupable index e)
regrouped index item panicked = some (group_panicked index)

unfoldable pub count_of : Finding → ℕ
count_of item = 1 + length item.occurrences

unfoldable pub counts_from : Counts → List Finding → Counts
counts_from result [] = result
counts_from result (item ∷ items) =
    counts_from (add_count item.fingerprint (count_of item) result) items

-- uint64(value)
abbrev uint64_of : ℤ → ℕ
uint64_of (pos n) = n
uint64_of (negsuc n) = 2 ^ 64 - suc n

unfoldable pub severity_text : Severity → Bytes
severity_text error = ascii "error"
severity_text warning = ascii "warning"
severity_text info = ascii "info"
severity_text (other s) = s

unfoldable pub wave_bytes : List Finding → Bytes
wave_bytes [] = []
wave_bytes (item ∷ items) =
    write_field item.fingerprint ++ (put_uint64 (count_of item) ++ wave_bytes items)

unfoldable pub proof_occurrences : List Occurrence → Bytes
proof_occurrences [] = []
proof_occurrences (o ∷ os) =
    put_uint64 (uint64_of o.line) ++ (put_uint64 (uint64_of o.end_line) ++ proof_occurrences os)

unfoldable pub proof_findings : List Finding → Bytes
proof_findings [] = []
proof_findings (f ∷ fs) =
    write_fields (
      f.gate
      ∷ f.language
      ∷ f.rule_id
      ∷ severity_text f.severity
      ∷ f.file
      ∷ f.snippet
      ∷ f.message
      ∷ f.fingerprint
      ∷ [])
    ++ (put_uint64 (uint64_of f.line)
        ++ (put_uint64 (uint64_of f.end_line)
            ++ (put_uint64 (length f.occurrences)
                ++ (proof_occurrences f.occurrences ++ proof_findings fs))))

module _ (sha256 : Bytes → Bytes) where
  unfoldable pub check_finding : ℕ → List Bytes → Finding → Option PlanError
  check_finding index seen item =
      if is_empty item.fingerprint
      then some (fingerprint_required index)
      else elim (regrouped index item (group sha256 (item ∷ []))) [
        | some e ↦ some e
        | none ↦
            if mem_bytes item.fingerprint seen then some (duplicate_fingerprint index) else none
      ]

  unfoldable pub check_findings : ℕ → List Bytes → List Finding → Option PlanError
  check_findings index seen [] = none
  check_findings index seen (item ∷ items) = elim (check_finding index seen item) [
    | some e ↦ some e
    | none ↦ check_findings (suc index) (item.fingerprint ∷ seen) items
  ]

  unfoldable pub canonical_findings : List Finding → PlanResult (List Finding)
  canonical_findings findings = elim (check_findings 0 [] findings) [
    | some e ↦ err e
    | none ↦ ok (sort less_plan_finding findings)
  ]

  unfoldable pub blocking_multiset : List Finding → PlanResult Counts
  blocking_multiset findings = map_ok (counts_from []) (canonical_findings findings)

  unfoldable pub blocker_wave_digest : List Finding → Bytes
  blocker_wave_digest findings =
      hex_encode (sha256 (ascii "togi/fix-wave-identity/v1" ++ (0 ∷ wave_bytes findings)))

  unfoldable pub batch_id : Bytes → Bytes → Bytes
  batch_id primary_file wave_digest =
      ascii "batch-"
      ++ hex_encode (
          sha256 (
            ascii "togi/fix-batch-identity/v1"
            ++ (0 ∷ write_fields (primary_file ∷ wave_digest ∷ []))))

  unfoldable pub batch_identity_proof : Bytes → Bytes → Bytes → List Finding → Bytes
  batch_identity_proof id primary_file wave_digest findings = sha256 (
      ascii "togi/validated-fix-batch/v1"
      ++ (0
          ∷ (write_fields (id ∷ primary_file ∷ wave_digest ∷ [])
              ++ (put_uint64 (length findings) ++ proof_findings findings))))

  abbrev pub new_batch : Bytes → Finding → Batch
  new_batch digest item = record {
    id = batch_id item.file digest;
    primary_file = item.file;
    findings = item ∷ [];
    status = batch_pending;
    attempts = [];
    identity = record { wave_digest = []; identity_proof = [] };
  }

  abbrev pub push_finding : Batch → Finding → Batch
  push_finding b item = record b { findings = b.findings ++ item ∷ [] }

  -- The body of the loop of `NewPlan`: the item goes to the last batch, or opens one.
  unfoldable pub add_item : Bytes → List Batch → Finding → List Batch
  add_item digest [] item = new_batch digest item ∷ []
  add_item digest (b ∷ []) item =
      if bytes_eqb b.primary_file item.file
      then push_finding b item ∷ []
      else b ∷ new_batch digest item ∷ []
  add_item digest (b ∷ c ∷ bs) item = b ∷ add_item digest (c ∷ bs) item

  unfoldable pub add_items : Bytes → List Batch → List Finding → List Batch
  add_items digest batches [] = batches
  add_items digest batches (item ∷ items) = add_items digest (add_item digest batches item) items

  -- The second loop of `NewPlan`.
  unfoldable pub identify : Bytes → Batch → Batch
  identify digest b = record b {
    identity = record {
      wave_digest = digest;
      identity_proof = batch_identity_proof b.id b.primary_file digest b.findings;
    };
  }

  unfoldable pub identify_all : Bytes → List Batch → List Batch
  identify_all digest [] = []
  identify_all digest (b ∷ bs) = identify digest b ∷ identify_all digest bs

  unfoldable pub plan_of : List Finding → Plan
  plan_of ordered =
      let digest = blocker_wave_digest ordered in
      record { schema_version = 1; batches = identify_all digest (add_items digest [] ordered) }

  unfoldable pub new_plan : List Finding → PlanResult Plan
  new_plan findings = map_ok plan_of (canonical_findings findings)
