-- ===== src/Flywheel/Validate/Soundness.antt =====
-- internal/flywheel/validate.go: what a passed validation has seen.
use togi.Prelude.{
  ◌<◌, ◌≡◌, ◌≢◌, refl, ap, ◌∙◌, ◌⊎◌, Bool, true, false, not, ◌||◌, Bool-cases, inl, inr, none, some,
  List, [], ◌∷◌, arith, length, ◌==◌,
}
use togi.Prelude.Check.{Passage, onward, refuse, call, ◌>>=◌}
use togi.Prelude.Check.Sound.{
  Holds, Sound, Sound-bind, Sound-then, Sound-give, Sound-call, Sound-refuse, Sound-require,
  Sound-of_option, Sound-weaken,
}
use togi.Text.{Bytes, bytes_eqb}
use togi.Text.Order.{bytes_eqb_iff}
use togi.Text.Trim.{sorted_set}
use togi.Finding.{Finding}
use togi.Flywheel.Multiset.{Counts, lookup_count, has_key, strictly_shrinks, multiset_subset}
use togi.Flywheel.Plan.{Batch, PlanResult, blocking_multiset}
use togi.Flywheel.Engine.Ports.{
  ValidationResult, passed, semantic_failure, infrastructure_failure, Reply, ok, err,
}
use togi.Flywheel.Validate.{
  Validator, GateValidation, Stage, validation_failure, of_reply, of_plan, check_context,
  verify_prepared, select_packages, baseline_and_assigned, validate_integrity, judge_gates,
  validate_gates, validate_suite, suite_stage, validate_stages, validate,
  unwaived_integrity_findings, canonical_gate_errors, assigned_remains,
}

module _ (sha256 : Bytes → Bytes) (V : Validator) where
  open V use {World, Proof}

  -- A result that is not a pass.
  abbrev IsRefused : ValidationResult Proof → Type 0
  IsRefused r = r.kind ≢ passed

  abbrev Sure : {A : Type 0} → (A → Type 0) → Stage V A → Type 0
  Sure Q m = Sound IsRefused Q m

  broken-IsRefused :
      (files : List Bytes) (t : Bytes) (fs : List Finding)
      → IsRefused (validation_failure V files infrastructure_failure t fs)
  unfolding validation_failure
  broken-IsRefused files t fs h = cc

  failed-IsRefused :
      (files : List Bytes) (t : Bytes) (fs : List Finding)
      → IsRefused (validation_failure V files semantic_failure t fs)
  unfolding validation_failure
  failed-IsRefused files t fs h = cc

  Sure-of_reply :
      {A : Type 0} (r : Reply A) (f : Bytes → ValidationResult Proof)
      → ((t : Bytes) → IsRefused (f t))
      → Sure (λ a. r ≡ ok a) (of_reply V r f)
  unfolding of_reply
  Sure-of_reply (ok a) f h = Sound-give IsRefused _ a refl
  Sure-of_reply (err t) f h = Sound-refuse IsRefused _ (f t) (h t)

  Sure-of_plan :
      {A : Type 0} (r : PlanResult A) (otherwise : ValidationResult Proof)
      → IsRefused otherwise
      → Sure (λ a. r ≡ PlanResult.ok a) (of_plan V r otherwise)
  unfolding of_plan
  Sure-of_plan (PlanResult.ok a) o h = Sound-give IsRefused _ a refl
  Sure-of_plan (PlanResult.err e) o h = Sound-refuse IsRefused _ o h

  -- The context has not ended in some world.
  Sure-context :
      (files : List Bytes)
      → Sure (λ _. (w : World) × ((V.context_end w).0 ≡ none)) (check_context V files)
  unfolding check_context
  Sure-context files =
      Sound-bind IsRefused (λ e. (w : World) × ((V.context_end w).0 ≡ e)) _ _ _
        (Sound-call IsRefused V.context_end)
        (elim [
          | none ↦ λ p. Sound-give IsRefused (λ _. (w : World) × ((V.context_end w).0 ≡ none)) tt p
          | some cause ↦ λ p.
              Sound-refuse IsRefused (λ _. (w : World) × ((V.context_end w).0 ≡ none)) _
                (broken-IsRefused files _ [])
        ])

  -- The workspace is as the proof says in some world.
  unfoldable pub Verified : Proof → Type 0
  Verified proof = (w : World) × ((V.verify proof w).0 ≡ ok tt)

  -- A reply in some world that is not an error.
  unfoldable pub Replied : {A : Type 0} → (World → Reply A × World) → A → Type 0
  Replied f a = (w : World) × ((f w).0 ≡ ok a)

  Sure-call_reply :
      {A : Type 0} (port : World → Reply A × World) (f : Bytes → ValidationResult Proof)
      → ((t : Bytes) → IsRefused (f t))
      → Sure (Replied port) (call port >>= λ r. of_reply V r f)
  unfolding Replied
  Sure-call_reply port f h =
      Sound-bind IsRefused (λ r. (w : World) × ((port w).0 ≡ r))
        (λ a. (w : World) × ((port w).0 ≡ ok a)) _ _ (Sound-call IsRefused port)
        λ r q. Sound-weaken IsRefused _ _ _ (λ a p. (q.0, q.1 ∙ p)) (Sure-of_reply r f h)

  Sure-verify :
      (files : List Bytes) (stage : Bytes) (proof : Proof)
      → Sure (λ _. Verified proof) (verify_prepared V files stage proof)
  unfolding verify_prepared Verified Replied
  Sure-verify files stage proof =
      Sound-then IsRefused _ _ _ _
        (Sound-require IsRefused (V.present proof) _ (broken-IsRefused files _ []))
        λ p.
          Sound-weaken IsRefused (Replied (V.verify proof))
            (λ _. (w : World) × ((V.verify proof w).0 ≡ ok tt)) _ (λ a r. r)
            (Sure-call_reply (V.verify proof) _ (λ t. broken-IsRefused files _ []))

  -- The packages that the changed files select.
  unfoldable pub Selected : List Bytes → Proof → List Bytes × Bool → Type 0
  Selected changed proof selected =
      (0 < length changed)
      × (V.present proof ≡ true)
      × Replied (V.changed_packages (V.validation_root proof) changed) selected

  Sure-select :
      (changed : List Bytes) (proof : Proof)
      → Sure (Selected changed proof) (select_packages sha256 V changed proof)
  unfolding select_packages Selected
  Sure-select changed proof = Sound-then IsRefused _ _ _ _ (Sure-context []) λ _.
      Sound-then IsRefused _ _ _ _
        (Sound-require IsRefused (not (length changed == 0)) _ (failed-IsRefused [] _ []))
        λ some_change.
          Sound-then IsRefused _ _ _ _
            (Sound-require IsRefused (V.present proof) _ (broken-IsRefused [] _ []))
            λ present.
              Sound-then IsRefused _ _ _ _ (Sound-require IsRefused _ _ (broken-IsRefused [] _ []))
                λ _. Sound-bind IsRefused _ _ _ _ (Sound-call IsRefused _) λ confined _.
                  Sound-then IsRefused (Unit {0}) _ _ _
                    (Sound-weaken IsRefused _ _ _ (λ _ _. tt)
                      (Sure-of_reply confined _ (λ t. broken-IsRefused [] _ [])))
                    λ _.
                      Sound-weaken IsRefused _ _ _
                        (λ a r. (ground (arith, some_change), present, r))
                        (Sure-call_reply (V.changed_packages (V.validation_root proof) changed) _
                          (λ t. broken-IsRefused [] _ []))

  -- The multisets of the baseline and of the batch, of which the second is part of the first.
  unfoldable pub Assigned : Batch → Counts × Counts → Type 0
  Assigned batch counts =
      (blocking_multiset sha256 V.baseline ≡ PlanResult.ok counts.0)
      × (blocking_multiset sha256 batch.findings ≡ PlanResult.ok counts.1)
      × (0 < length counts.1)
      × (multiset_subset counts.1 counts.0 ≡ true)

  Sure-Assigned :
      (files : List Bytes) (batch : Batch)
      → Sure (Assigned batch) (baseline_and_assigned sha256 V files batch)
  unfolding baseline_and_assigned Assigned
  Sure-Assigned files batch =
      Sound-then IsRefused _ _ _ _ (Sound-require IsRefused _ _ (broken-IsRefused files _ [])) λ _.
        Sound-bind IsRefused _ _ _ _
          (Sure-of_plan (blocking_multiset sha256 V.baseline) _ (broken-IsRefused files _ []))
          λ baseline b.
            Sound-then IsRefused _ _ _ _ (Sound-require IsRefused _ _ (broken-IsRefused files _ []))
              λ _.
                Sound-bind IsRefused _ _ _ _
                  (Sure-of_plan (blocking_multiset sha256 batch.findings) _
                    (broken-IsRefused files _ []))
                  λ assigned a.
                    Sound-then IsRefused _ _ _ _
                      (Sound-require IsRefused (not (length assigned == 0)) _
                        (broken-IsRefused files _ []))
                      λ some_assigned.
                        Sound-then IsRefused _ _ _ _
                          (Sound-require IsRefused (multiset_subset assigned baseline) _
                            (broken-IsRefused files _ []))
                          λ subset.
                            Sound-give IsRefused _ (baseline, assigned)
                              (b, a, ground (arith, some_assigned), subset)

  -- The tree of the attempt, whose integrity findings are all waived.
  unfoldable pub IsIntact : Bytes → Type 0
  IsIntact root =
      (tree : V.Tree) × Replied (V.snapshot_attempt root) tree
      × (findings : List Finding) × (V.check_integrity V.original tree ≡ ok findings)
      × (unwaived_integrity_findings V.waived findings ≡ [])

  length_zero : {A : Type 0} (xs : List A) → (length xs == 0) ≡ true → xs ≡ []
  length_zero [] h = refl
  length_zero (x ∷ xs) h = ground (arith, h)

  Sure-integrity :
      (files : List Bytes) (root : Bytes) (proof : Proof)
      → Sure (λ _. IsIntact root) (validate_integrity sha256 V files root proof)
  unfolding validate_integrity IsIntact Replied
  Sure-integrity files root proof =
      Sound-bind IsRefused _ _ _ _ (Sound-call IsRefused (V.snapshot_attempt root)) λ snapshot seen.
        Sound-bind IsRefused _ _ _ _ (Sure-of_reply snapshot _ (λ t. broken-IsRefused files _ []))
          λ tree got. Sound-then IsRefused _ _ _ _ (Sure-context files) λ _.
            Sound-bind IsRefused _ _ _ _
              (Sure-of_reply (V.check_integrity V.original tree) _
                (λ t. broken-IsRefused files _ []))
              λ findings checked.
                Sound-then IsRefused _ _ _ _
                  (Sound-require IsRefused
                    (length (unwaived_integrity_findings V.waived findings) == 0) _
                    (failed-IsRefused files _ _))
                  λ none_left. Sound-then IsRefused _ _ _ _ (Sure-verify files _ proof) λ _.
                    Sound-weaken IsRefused _ _ _
                      (λ _ _.
                        (tree, (seen.0, seen.1 ∙ got), findings, checked, length_zero _ none_left))
                      (Sure-context files)

  assigned_gone :
      (k : Bytes) (assigned after : Counts)
      → assigned_remains assigned after ≡ false
      → has_key k assigned ≡ true
      → lookup_count k after ≡ 0
  unfolding assigned_remains has_key
  assigned_gone k [] after h g = cc
  assigned_gone k ((j, n) ∷ m) after h g = elim (Bool-cases (bytes_eqb k j)) [
    | inl e ↦ rw ((bytes_eqb_iff k j).0 e) (ground (arith, h))
    | inr e ↦ assigned_gone k m after (ground (arith, h)) (ground (arith, g, e))
  ]

  -- The gates' evidence: no error, and blockers that are fewer and none of them assigned.
  unfoldable pub Improves : Counts → Counts → GateValidation → Type 0
  Improves baseline assigned gates =
      (canonical_gate_errors gates.errored ≡ some [])
      × (after : Counts) × (blocking_multiset sha256 gates.blocking ≡ PlanResult.ok after)
      × (strictly_shrinks after baseline ≡ true)
      × ((k : Bytes) → has_key k assigned ≡ true → lookup_count k after ≡ 0)

  Sure-judge :
      (files : List Bytes) (baseline assigned : Counts) (gates : GateValidation)
      → Sure
          (λ _. Improves baseline assigned gates)
          (judge_gates sha256 V files baseline assigned gates)
  unfolding judge_gates Improves
  Sure-judge files baseline assigned gates =
      Sound-then IsRefused _ _ _ _ (Sound-require IsRefused _ _ (broken-IsRefused files _ [])) λ _.
        Sound-bind IsRefused _ _ _ _
          (Sure-of_plan (blocking_multiset sha256 gates.blocking) _ (broken-IsRefused files _ []))
          λ after counted.
            Sound-bind IsRefused _ _ _ _
              (Sound-of_option IsRefused (canonical_gate_errors gates.errored) _
                (broken-IsRefused files _ []))
              λ errors named.
                Sound-then IsRefused _ _ _ _
                  (Sound-require IsRefused (length errors == 0) _ (broken-IsRefused files _ _))
                  λ no_errors.
                    Sound-then IsRefused _ _ _ _
                      (Sound-require IsRefused (not (assigned_remains assigned after)) _
                        (failed-IsRefused files _ _))
                      λ gone.
                        Sound-then IsRefused _ _ _ _
                          (Sound-require IsRefused (multiset_subset after baseline) _
                            (failed-IsRefused files _ _))
                          λ _.
                            Sound-weaken IsRefused _ _ _
                              (λ _ shrunk. (
                                named ∙ ap some (length_zero errors no_errors),
                                after,
                                counted,
                                shrunk,
                                λ k. assigned_gone k assigned after (ground (arith, gone)),
                              ))
                              (Sound-require IsRefused (strictly_shrinks after baseline) _
                                (failed-IsRefused files _ _))

  -- Evidence that the gates gave in some world.
  unfoldable pub Reported : Batch → Proof → GateValidation → Type 0
  Reported batch proof gates =
      (w : World) × ((V.run_gates (V.validation_root proof) batch w).0 ≡ gates)

  Sure-gates :
      (files : List Bytes) (batch : Batch) (proof : Proof) (baseline assigned : Counts)
      → Sure
          (λ gates. Reported batch proof gates × Improves baseline assigned gates)
          (validate_gates sha256 V files batch proof baseline assigned)
  unfolding validate_gates Reported
  Sure-gates files batch proof baseline assigned =
      Sound-bind IsRefused _ _ _ _
        (Sound-call IsRefused (V.run_gates (V.validation_root proof) batch))
        λ gates reported. Sound-then IsRefused _ _ _ _ (Sure-verify files _ proof) λ _.
          Sound-then IsRefused _ _ _ _ (Sure-context files) λ _.
            Sound-then IsRefused _ _ _ _ (Sure-judge files baseline assigned gates)
              λ better. Sound-give IsRefused _ gates (reported, better)

  -- A suite that passed in some world, where a package is selected.
  unfoldable pub SuitePassed : Proof → List Bytes × Bool → Type 0
  SuitePassed proof (packages, full) =
      (full || not (length packages == 0) ≡ false)
      ⊎ ((w : World) × ((V.run_packages (V.validation_root proof) packages full w).0.passed ≡ true))

  Sure-suite :
      (files : List Bytes) (proof : Proof) (blocking : List Finding) (packages : List Bytes)
      (full : Bool)
      → Sure
          (λ _.
            (w : World) × ((V.run_packages (V.validation_root proof) packages full w).0.passed
              ≡ true))
          (validate_suite sha256 V files proof blocking packages full)
  unfolding validate_suite
  Sure-suite files proof blocking packages full =
      Sound-then IsRefused _ _ _ _ (Sure-context files) λ _.
        Sound-bind IsRefused _ _ _ _
          (Sound-call IsRefused (V.run_packages (V.validation_root proof) packages full))
          λ suite ran. Sound-then IsRefused _ _ _ _ (Sure-verify files _ proof) λ _.
            Sound-then IsRefused _ _ _ _ (Sure-context files) λ _.
              Sound-then IsRefused _ _ _ _
                (Sound-require IsRefused _ _ (broken-IsRefused files _ _))
                λ _.
                  Sound-weaken IsRefused _ _ _ (λ _ good. (ran.0, ap (λ s. s.passed) ran.1 ∙ good))
                    (Sound-require IsRefused suite.passed _ (failed-IsRefused files _ _))

  Sure-suite_stage :
      (files : List Bytes) (proof : Proof) (blocking : List Finding) (packages : List Bytes)
      (full : Bool)
      → Sure
          (λ _. SuitePassed proof (packages, full))
          (suite_stage sha256 V files proof blocking packages full)
  unfolding suite_stage SuitePassed
  Sure-suite_stage files proof blocking packages full =
      elim (Bool-cases (full || not (length packages == 0))) [
        | inl e ↦ rw e (
            Sound-weaken IsRefused _ _ _ (λ _ p. inr p)
              (Sure-suite files proof blocking packages full))
        | inr e ↦ rw e (Sound-give IsRefused _ tt (inl refl))
      ]

  -- What a passed validation has seen.
  pub record IsAccepted (root : Bytes) (changed : List Bytes) (batch : Batch) (proof : Proof)
      : Type 0 where
    pub selected : List Bytes × Bool
    pub counts : Counts × Counts
    pub gates : GateValidation
    pub selection : Selected changed proof selected
    pub assignment : Assigned batch counts
    pub intact : IsIntact root
    pub reported : Reported batch proof gates
    pub improved : Improves counts.0 counts.1 gates
    pub suite : SuitePassed proof selected
    pub verified : Verified proof

  Sure-stages :
      (root : Bytes) (changed : List Bytes) (batch : Batch) (proof : Proof)
      → Sure
          (λ _. IsAccepted root changed batch proof)
          (validate_stages sha256 V root changed batch proof)
  unfolding validate_stages
  Sure-stages root changed batch proof =
      let files = sorted_set changed in
      Sound-bind IsRefused _ _ _ _ (Sure-select changed proof) λ selected selection.
        Sound-bind IsRefused _ _ _ _ (Sure-Assigned files batch) λ counts assignment.
          Sound-then IsRefused _ _ _ _ (Sure-integrity files root proof) λ intact.
            Sound-bind IsRefused _ _ _ _ (Sure-gates files batch proof counts.0 counts.1)
              λ gates seen.
                Sound-then IsRefused _ _ _ _
                  (Sure-suite_stage files proof gates.blocking selected.0 selected.1)
                  λ suite. Sound-then IsRefused _ _ _ _ (Sure-verify files _ proof) λ verified.
                    Sound-then IsRefused _ _ _ _ (Sure-context files) λ _.
                      Sound-give IsRefused _ _ (record {
                        selected = selected;
                        counts = counts;
                        gates = gates;
                        selection = selection;
                        assignment = assignment;
                        intact = intact;
                        reported = seen.0;
                        improved = seen.1;
                        suite = suite;
                        verified = verified;
                      })

  -- A validation passes only if some file changed, the batch's blockers are a part of the baseline,
  -- the integrity findings of the attempt's tree are all waived, the gates ran without an error and
  -- their blockers strictly shrink the baseline and leave no assigned one, the suite passed if a
  -- package was selected, and the proof was verified.
  pub validate-passed :
      (root : Bytes) (changed : List Bytes) (batch : Batch) (proof : Proof) (w : World)
      → (validate sha256 V root changed batch proof w).0.kind ≡ passed
      → IsAccepted root changed batch proof
  unfolding validate
  validate-passed root changed batch proof w h =
      go (validate_stages sha256 V root changed batch proof w).0
        (validate_stages sha256 V root changed batch proof w).1
        ((Sure-stages root changed batch proof).at w) h
    where
      go :
          (p : Passage (ValidationResult Proof) (ValidationResult Proof)) (w' : World)
          → Holds IsRefused (λ _. IsAccepted root changed batch proof) p
          → (elim p as (λ _. ValidationResult Proof × World) [
            | onward result ↦ (result, w')
            | refuse result ↦ (result, w')
          ]).0.kind
            ≡ passed
          → IsAccepted root changed batch proof
      go (onward r) w' a e = a
      go (refuse r) w' a e = absurd (a e)
