-- ===== src/Flywheel/Plan/Partition.antt =====
-- internal/flywheel/plan.go: the findings in the batches of a plan.
use togi.Prelude.{
  ◌≡◌, refl, sym, ap, subst, ◌∙◌, Bool-cases, inl, inr, none, List, [], ◌∷◌, ◌++◌, arith, All,
  All-append,
}
use mathlib.Core.List.{append-nil, append_assoc, Perm}
use togi.Prelude.Sort.{sort, sort-perm}
use togi.Text.Order.{bytes_eqb_iff}
use togi.Text.{Bytes, bytes_eqb}
use togi.Finding.{Finding}
use togi.Flywheel.Plan.{
  Batch, new_batch, map_ok, check_findings, Plan, PlanResult, ok, err, new_plan, plan_of, add_item,
  add_items, identify, identify_all, blocker_wave_digest, less_plan_finding, canonical_findings,
}
use togi.Flywheel.Plan.Canonical.{canonical_findings-ok}

-- The findings of the batches, in order.
unfoldable pub findings_of : List Batch → List Finding
findings_of [] = []
findings_of (b ∷ bs) = b.findings ++ findings_of bs

-- A batch has a finding, and each of its findings has its primary file.
pub record IsFiled (b : Batch) : Type 0 where
  pub nonempty : (f : Finding) × (fs : List Finding) × (b.findings ≡ f ∷ fs)
  pub filed : All (λ f. f.file ≡ b.primary_file) b.findings

module _ (sha256 : Bytes → Bytes) where
  findings_of-add_item :
      (digest : Bytes) (bs : List Batch) (f : Finding)
      → findings_of (add_item sha256 digest bs f) ≡ findings_of bs ++ f ∷ []
  unfolding add_item findings_of
  findings_of-add_item digest [] f = refl
  findings_of-add_item digest (b ∷ []) f = elim (Bool-cases (bytes_eqb b.primary_file f.file)) [
    | inl e ↦
        rw e (
          append-nil (b.findings ++ f ∷ []) ∙ ap (λ fs. fs ++ f ∷ []) (sym (append-nil b.findings)))
    | inr e ↦ rw e (ap (λ fs. fs ++ f ∷ []) (sym (append-nil b.findings)))
  ]
  findings_of-add_item digest (b ∷ c ∷ bs) f =
      ap (λ fs. b.findings ++ fs) (findings_of-add_item digest (c ∷ bs) f)
      ∙ sym (append_assoc b.findings (findings_of (c ∷ bs)) (f ∷ []))

  findings_of-add_items :
      (digest : Bytes) (bs : List Batch) (fs : List Finding)
      → findings_of (add_items sha256 digest bs fs) ≡ findings_of bs ++ fs
  unfolding add_items
  findings_of-add_items digest bs [] = sym (append-nil (findings_of bs))
  findings_of-add_items digest bs (f ∷ fs) =
      findings_of-add_items digest (add_item sha256 digest bs f) fs
      ∙ ap (λ gs. gs ++ fs) (findings_of-add_item digest bs f)
      ∙ append_assoc (findings_of bs) (f ∷ []) fs

  findings_of-identify_all :
      (digest : Bytes) (bs : List Batch)
      → findings_of (identify_all sha256 digest bs) ≡ findings_of bs
  unfolding identify_all identify findings_of
  findings_of-identify_all digest [] = refl
  findings_of-identify_all digest (b ∷ bs) =
      ap (λ fs. b.findings ++ fs) (findings_of-identify_all digest bs)

  IsFiled-new : (digest : Bytes) (f : Finding) → IsFiled (new_batch sha256 digest f)
  IsFiled-new digest f = record { nonempty = (f, [], refl); filed = (refl, tt) }

  IsFiled-add_item :
      (digest : Bytes) (bs : List Batch) (f : Finding)
      → All IsFiled bs
      → All IsFiled (add_item sha256 digest bs f)
  unfolding add_item
  IsFiled-add_item digest [] f h = (IsFiled-new digest f, tt)
  IsFiled-add_item digest (b ∷ []) f h = elim (Bool-cases (bytes_eqb b.primary_file f.file)) [
    | inl e ↦ rw e (
      record {
        nonempty = let (g, gs, q) = h.0.nonempty in (g, gs ++ f ∷ [], ap (λ fs. fs ++ f ∷ []) q);
        filed =
            All-append (λ g. g.file ≡ b.primary_file) b.findings (f ∷ []) h.0.filed
              (sym ((bytes_eqb_iff b.primary_file f.file).0 e), tt);
      },
      tt,
    )
    | inr e ↦ rw e (h.0, (IsFiled-new digest f, tt))
  ]
  IsFiled-add_item digest (b ∷ c ∷ bs) f h = (h.0, IsFiled-add_item digest (c ∷ bs) f h.1)

  IsFiled-add_items :
      (digest : Bytes) (bs : List Batch) (fs : List Finding)
      → All IsFiled bs
      → All IsFiled (add_items sha256 digest bs fs)
  unfolding add_items
  IsFiled-add_items digest bs [] h = h
  IsFiled-add_items digest bs (f ∷ fs) h =
      IsFiled-add_items digest (add_item sha256 digest bs f) fs (IsFiled-add_item digest bs f h)

  IsFiled-identify_all :
      (digest : Bytes) (bs : List Batch)
      → All IsFiled bs
      → All IsFiled (identify_all sha256 digest bs)
  unfolding identify_all identify
  IsFiled-identify_all digest [] h = tt
  IsFiled-identify_all digest (b ∷ bs) h =
      (record { nonempty = h.0.nonempty; filed = h.0.filed }, IsFiled-identify_all digest bs h.1)

  pub plan_of-partition :
      (fs : List Finding)
      → (findings_of (plan_of sha256 fs).batches ≡ fs) × All IsFiled (plan_of sha256 fs).batches
  unfolding plan_of findings_of
  plan_of-partition fs =
      let digest = blocker_wave_digest sha256 fs in
      (
        findings_of-identify_all digest (add_items sha256 digest [] fs)
            ∙ findings_of-add_items digest [] fs,
        IsFiled-identify_all digest (add_items sha256 digest [] fs)
            (IsFiled-add_items digest [] fs tt),
      )

  -- The batches of a plan that `NewPlan` returns hold, one after the other, the given findings in
  -- canonical order, each exactly as often as it was given; each batch has at least one finding, and
  -- all of its findings are in its primary file.
  pub new_plan-partition :
      (fs : List Finding) (plan : Plan)
      → new_plan sha256 fs ≡ ok plan
      → (findings_of plan.batches ≡ sort less_plan_finding fs)
        × Perm (findings_of plan.batches) fs
        × All IsFiled plan.batches
  unfolding new_plan
  new_plan-partition fs plan h =
      go (canonical_findings sha256 fs) (canonical_findings-ok sha256 fs) h
    where
      go :
          (r : PlanResult (List Finding))
          → ((ordered : List Finding)
              → r ≡ ok ordered
              → (check_findings sha256 0 [] fs ≡ none) × (ordered ≡ sort less_plan_finding fs))
          → map_ok (plan_of sha256) r ≡ ok plan
          → (findings_of plan.batches ≡ sort less_plan_finding fs)
            × Perm (findings_of plan.batches) fs
            × All IsFiled plan.batches
      go (err e) k q = ground (arith, q)
      go (ok ordered) k q =
          let e : plan_of sha256 ordered ≡ plan = ground (arith, q) in
          let p = plan_of-partition ordered in
          let same = p.0 ∙ (k ordered refl).1 in
          subst
            (λ x.
              (findings_of x.batches ≡ sort less_plan_finding fs)
              × Perm (findings_of x.batches) fs
              × All IsFiled x.batches)
            e (same, subst (λ gs. Perm gs fs) (sym same) (sort-perm less_plan_finding fs), p.1)
