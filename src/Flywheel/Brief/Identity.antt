-- ===== src/Flywheel/Brief/Identity.antt =====
-- internal/flywheel/brief.go and internal/flywheel/plan.go: the identity of a plan's batches.
use togi.Prelude.{
  ℕ, ◌<◌, ◌/◌, ◌%◌, ◌≡◌, refl, sym, ap, subst, ◌∙◌, true, false, Bool-cases, inl, inr, none, List,
  [], ◌∷◌, ◌++◌, arith, All, All-Memᴰ, Memᴰ, length,
}
use togi.Text.{Bytes, ascii, bytes_eqb, is_empty, has_prefix}
use togi.Text.Encode.{hex_encode, hex_digit, length-hex_encode, write_fields}
use togi.Text.Order.{bytes_eqb_iff}
use togi.Finding.{Finding}
use togi.Finding.Identity.{IsByte}
use togi.Flywheel.Plan.{
  Batch, BatchStatus, Attempt, batch_id, batch_identity_proof, map_ok, Plan, PlanResult, ok, err,
  new_plan, plan_of, add_item, add_items, identify, identify_all, blocker_wave_digest,
  canonical_findings,
}
use togi.Flywheel.Plan.Partition.{findings_of, IsFiled, plan_of-partition}
use togi.Flywheel.Plan.Segments.{
  AreCanonical, AreCanonical-split, AreCanonical-canonical_findings,
  canonical_findings-AreCanonical,
}
use togi.Flywheel.Brief.{
  BriefInput, BriefError, brief_too_long, BriefResult, validate_brief_input_bounds, valid_revision,
  check_brief, with_bounds, with_findings, with_identity, hex_byte, all_hex_bytes,
  valid_brief_batch_id, all_in_file, check_identity, write_brief, build_brief,
}
use togi.Flywheel.Brief.Refusals.{write_brief-refusal}

all_in_file-filed :
    (file : Bytes) (fs : List Finding) → All (λ f. f.file ≡ file) fs → all_in_file file fs ≡ true
all_in_file-filed file [] h = refl
all_in_file-filed file (f ∷ fs) h =
    ground (arith, (bytes_eqb_iff f.file file).1 h.0, all_in_file-filed file fs h.1)

module _ (sha256 : Bytes → Bytes) where
  -- What `NewPlan` gives a batch of a wave for its name.
  record IsNamed (digest : Bytes) (b : Batch) : Type 0 where
    pub id : b.id ≡ batch_id sha256 b.primary_file digest

  IsNamed-add_item :
      (digest : Bytes) (bs : List Batch) (f : Finding)
      → All (IsNamed digest) bs
      → All (IsNamed digest) (add_item sha256 digest bs f)
  unfolding add_item
  IsNamed-add_item digest [] f h = (record { id = refl }, tt)
  IsNamed-add_item digest (b ∷ []) f h = elim (Bool-cases (bytes_eqb b.primary_file f.file)) [
    | inl e ↦ rw e (record { id = h.0.id }, tt)
    | inr e ↦ rw e (h.0, (record { id = refl }, tt))
  ]
  IsNamed-add_item digest (b ∷ c ∷ bs) f h = (h.0, IsNamed-add_item digest (c ∷ bs) f h.1)

  IsNamed-add_items :
      (digest : Bytes) (bs : List Batch) (fs : List Finding)
      → All (IsNamed digest) bs
      → All (IsNamed digest) (add_items sha256 digest bs fs)
  unfolding add_items
  IsNamed-add_items digest bs [] h = h
  IsNamed-add_items digest bs (f ∷ fs) h =
      IsNamed-add_items digest (add_item sha256 digest bs f) fs (IsNamed-add_item digest bs f h)

  -- A batch with its wave and its proof
  record IsIdentified (b : Batch) : Type 0 where
    pub wave : is_empty b.identity.wave_digest ≡ false
    pub id : b.id ≡ batch_id sha256 b.primary_file b.identity.wave_digest
    pub proof :
        b.identity.identity_proof
        ≡ batch_identity_proof sha256 b.id b.primary_file b.identity.wave_digest b.findings

  IsIdentified-identify_all :
      (digest : Bytes) (bs : List Batch)
      → is_empty digest ≡ false
      → All (IsNamed digest) bs
      → All IsIdentified (identify_all sha256 digest bs)
  unfolding identify_all identify
  IsIdentified-identify_all digest [] e h = tt
  IsIdentified-identify_all digest (b ∷ bs) e h =
      (record { wave = e; id = h.0.id; proof = refl }, IsIdentified-identify_all digest bs e h.1)

  check_identity-none :
      (b : Batch) → IsFiled b → IsIdentified b → check_identity sha256 b b.findings ≡ none
  unfolding check_identity
  check_identity-none b f i =
      let (g, gs, q) = f.nonempty in
      ground (
        arith,
        q,
        all_in_file-filed b.primary_file b.findings f.filed,
        i.wave,
        (bytes_eqb_iff _ _).1 i.id,
        (bytes_eqb_iff _ _).1 i.proof,
      )

  AreCanonical-batches :
      (bs : List Batch)
      → AreCanonical sha256 (findings_of bs)
      → All (λ b. AreCanonical sha256 b.findings) bs
  unfolding findings_of
  AreCanonical-batches [] c = tt
  AreCanonical-batches (b ∷ bs) c =
      let (d, e) = AreCanonical-split sha256 b.findings (findings_of bs) c in
      (d, AreCanonical-batches bs e)

-- The bytes of a batch's name
hex_digit-hex_byte : (n : ℕ) → n < 16 → hex_byte (hex_digit n) ≡ true
hex_digit-hex_byte n h = ground (arith, h)

hex_encode-all_hex_bytes : (s : Bytes) → All IsByte s → all_hex_bytes (hex_encode s) ≡ true
unfolding hex_encode
hex_encode-all_hex_bytes [] h = refl
hex_encode-all_hex_bytes (b ∷ s) h = ground (
  arith,
  hex_digit-hex_byte (b / 16) (omega (arith, h.0)),
  hex_digit-hex_byte (b % 16) (omega arith),
  hex_encode-all_hex_bytes s h.1,
)

-- What SHA-256 gives
abbrev pub IsDigest : Bytes → Type 0
IsDigest s = (length s ≡ 32) × All IsByte s

batch_id-valid :
    (sha256 : Bytes → Bytes) (file digest : Bytes)
    → ((s : Bytes) → IsDigest (sha256 s))
    → valid_brief_batch_id (batch_id sha256 file digest) ≡ true
unfolding batch_id
batch_id-valid sha256 file digest h =
    named (sha256 (ascii "togi/fix-batch-identity/v1" ++ (0 ∷ write_fields (file ∷ digest ∷ []))))
      (h _)
  where
    named : (s : Bytes) → IsDigest s → valid_brief_batch_id (ascii "batch-" ++ hex_encode s) ≡ true
    named s d =
        unfold valid_brief_batch_id has_prefix in
        ground (arith, length-hex_encode s, d.0, hex_encode-all_hex_bytes s d.1)

-- What `runAttempt` gives `BuildBrief`: a batch with a status and attempts of the run.
abbrev pub input_of : Batch → BatchStatus → List Attempt → Bytes → Bytes → Bytes → BriefInput
input_of b status attempts base head failure = record {
  merge_base = base;
  original_head = head;
  batch = record b { status = status; attempts = attempts };
  retry_failure = failure;
}

abbrev written : (Bytes → Bytes) → BriefInput → BriefResult (List Finding) → BriefResult Bytes
written json input (BriefResult.err e) = BriefResult.err e
written json input (BriefResult.ok canonical) = write_brief json input canonical []

module _ (sha256 : Bytes → Bytes) (digests : (s : Bytes) → IsDigest (sha256 s)) where
  -- A batch whose identity is in order.
  record IsBriefable (b : Batch) : Type 0 where
    pub named : valid_brief_batch_id b.id ≡ true
    pub canonical : canonical_findings sha256 b.findings ≡ ok b.findings
    pub identified : check_identity sha256 b b.findings ≡ none

  IsBriefable-of :
      (b : Batch)
      → IsFiled b
      → IsIdentified sha256 b
      → AreCanonical sha256 b.findings
      → IsBriefable b
  IsBriefable-of b f i c = record {
    named =
        subst (λ id. valid_brief_batch_id id ≡ true) (sym i.id)
          (batch_id-valid sha256 b.primary_file b.identity.wave_digest digests);
    canonical = canonical_findings-AreCanonical sha256 b.findings c;
    identified = check_identity-none sha256 b f i;
  }

  check_brief-IsBriefable :
      (b : Batch) (status : BatchStatus) (attempts : List Attempt) (base head failure : Bytes)
      → IsBriefable b
      → valid_revision base ≡ true
      → valid_revision head ≡ true
      → validate_brief_input_bounds (input_of b status attempts base head failure) ≡ none
      → check_brief sha256 (input_of b status attempts base head failure)
        ≡ BriefResult.ok b.findings
  unfolding check_brief
  check_brief-IsBriefable b status attempts base head failure k vb vh within =
      let input = input_of b status attempts base head failure in
      ap (with_bounds sha256 input) within
      ∙ ground (arith, vb, vh, k.named)
      ∙ ap (with_findings sha256 input) k.canonical
      ∙ ap (with_identity b.findings) (same_identity ∙ k.identified)
    where
      same_identity :
          check_identity sha256 (record b { status = status; attempts = attempts }) b.findings
          ≡ check_identity sha256 b b.findings
      same_identity = unfold check_identity in refl

  digest_nonempty : (fs : List Finding) → is_empty (blocker_wave_digest sha256 fs) ≡ false
  unfolding blocker_wave_digest
  digest_nonempty fs = nonempty _ (digests _)
    where
      nonempty : (s : Bytes) → IsDigest s → is_empty (hex_encode s) ≡ false
      nonempty [] d = ground (arith, d.0)
      nonempty (c ∷ s) d = unfold hex_encode in refl

  plan_of-IsBriefable :
      (ordered : List Finding)
      → AreCanonical sha256 ordered
      → All IsFiled (plan_of sha256 ordered).batches
      → findings_of (plan_of sha256 ordered).batches ≡ ordered
      → All IsBriefable (plan_of sha256 ordered).batches
  plan_of-IsBriefable ordered c filed same =
      all3 (plan_of sha256 ordered).batches filed identified (
        AreCanonical-batches sha256 (plan_of sha256 ordered).batches
          (subst (AreCanonical sha256) (sym same) c))
    where
      identified : All (IsIdentified sha256) (plan_of sha256 ordered).batches
      identified =
          unfold plan_of in
          IsIdentified-identify_all sha256 (blocker_wave_digest sha256 ordered)
            (add_items sha256 (blocker_wave_digest sha256 ordered) [] ordered)
            (digest_nonempty ordered)
            (IsNamed-add_items sha256 (blocker_wave_digest sha256 ordered) [] ordered tt)

      all3 :
          (bs : List Batch)
          → All IsFiled bs
          → All (IsIdentified sha256) bs
          → All (λ b. AreCanonical sha256 b.findings) bs
          → All IsBriefable bs
      all3 [] f i k = tt
      all3 (b ∷ bs) f i k = (IsBriefable-of b f.0 i.0 k.0, all3 bs f.1 i.1 k.1)

  new_plan-IsBriefable :
      (fs : List Finding) (plan : Plan)
      → new_plan sha256 fs ≡ ok plan
      → All IsBriefable plan.batches
  unfolding new_plan
  new_plan-IsBriefable fs plan h = go (canonical_findings sha256 fs) refl h
    where
      go :
          (r : PlanResult (List Finding))
          → canonical_findings sha256 fs ≡ r
          → map_ok (plan_of sha256) r ≡ ok plan
          → All IsBriefable plan.batches
      go (err e) k q = ground (arith, q)
      go (ok ordered) k q =
          let same : plan_of sha256 ordered ≡ plan = ground (arith, q) in
          let (parts, filed) = plan_of-partition sha256 ordered in
          subst (λ p. All IsBriefable p.batches) same
            (plan_of-IsBriefable ordered (AreCanonical-canonical_findings sha256 fs ordered k) filed
              parts)

  -- For a batch of a plan that `NewPlan` returns, whatever its status has become and whatever
  -- attempts it holds, where the two revisions are valid, nothing exceeds the bounds on the input,
  -- and a digest has 32 bytes, `BuildBrief` gives what the writer of the brief makes of the batch's
  -- findings, and it fails with no other error than that the brief is too long.
  pub new_plan-build_brief :
      (json : Bytes → Bytes) (fs : List Finding) (plan : Plan)
      → new_plan sha256 fs ≡ ok plan
      → (b : Batch) (status : BatchStatus) (attempts : List Attempt) (base head failure : Bytes)
      → Memᴰ b plan.batches
      → valid_revision base ≡ true
      → valid_revision head ≡ true
      → validate_brief_input_bounds (input_of b status attempts base head failure) ≡ none
      → (build_brief sha256 json (input_of b status attempts base head failure)
          ≡ write_brief json (input_of b status attempts base head failure) b.findings [])
        × ((e : BriefError)
            → build_brief sha256 json (input_of b status attempts base head failure)
              ≡ BriefResult.err e
            → e ≡ brief_too_long)
  unfolding build_brief
  new_plan-build_brief json fs plan h b status attempts base head failure m vb vh within =
      let input = input_of b status attempts base head failure in
      let k : IsBriefable b =
        All-Memᴰ IsBriefable plan.batches (new_plan-IsBriefable fs plan h) m in
      let built : build_brief sha256 json input ≡ write_brief json input b.findings [] =
        ap (written json input)
          (check_brief-IsBriefable b status attempts base head failure k vb vh within) in
      (built, λ e q. write_brief-refusal json input b.findings [] e (sym built ∙ q))
