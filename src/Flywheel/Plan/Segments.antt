-- ===== src/Flywheel/Plan/Segments.antt =====
-- internal/flywheel/plan.go: a part of canonical findings is canonical.
use togi.Prelude.{
  ℕ, suc, ◌≡◌, refl, sym, ap, subst, ◌∙◌, false, Option, none, some, List, [], ◌∷◌, ◌++◌, arith,
  All, if◌then◌else◌,
}
use togi.Prelude.Sort.{sort, IsSorted, All-sort, sort-IsSorted}
use togi.Text.{Bytes, is_empty, mem_bytes}
use togi.Finding.{Finding}
use togi.Finding.Group.{group}
use togi.Flywheel.Plan.{
  PlanError, duplicate_fingerprint, PlanResult, ok, err, regrouped, check_finding, check_findings,
  canonical_findings, less_plan_finding,
}
use togi.Flywheel.Plan.Canonical.{canonical_findings-ok}
use togi.Flywheel.Plan.Distinct.{
  sort-sorted, All-split, IsSorted-split, less_plan_finding-IsWeakOrder, AreDistinct,
  AreDistinct-sort, AreDistinct-split, IsNew, IsNew-tail, IsNew-cons, regrouped-any,
}

module _ (sha256 : Bytes → Bytes) where
  -- A finding that `canonicalFindings` takes, whatever came before it.
  pub record IsCanonical (f : Finding) : Type 0 where
    pub fingerprinted : is_empty f.fingerprint ≡ false
    pub alone : (n : ℕ) → regrouped n f (group sha256 (f ∷ [])) ≡ none

  check_finding-none :
      (i : ℕ) (seen : List Bytes) (f : Finding)
      → check_finding sha256 i seen f ≡ none
      → IsCanonical f × IsNew seen f
  unfolding check_finding
  check_finding-none i seen f h =
      let named : is_empty f.fingerprint ≡ false = ground (arith, h) in
      let (a, b) = go (regrouped i f (group sha256 (f ∷ []))) (rw named at h) in
      (
        record {
          fingerprinted = named;
          alone = λ n. regrouped-any i n f (group sha256 (f ∷ [])) a;
        },
        b,
      )
    where
      go :
          (o : Option PlanError)
          → (elim o as (λ x. Option PlanError) [
            | some e ↦ some e
            | none ↦ if mem_bytes f.fingerprint seen then some (duplicate_fingerprint i) else none
          ])
            ≡ none
          → (o ≡ none) × IsNew seen f
      go none h = (refl, ground (arith, h))
      go (some e) h = ground (arith, h)

  check_finding-new :
      (i : ℕ) (seen : List Bytes) (f : Finding)
      → IsCanonical f
      → IsNew seen f
      → check_finding sha256 i seen f ≡ none
  unfolding check_finding
  check_finding-new i seen f c n = rw c.fingerprinted (
      ap
        (λ o. elim o as (λ x. Option PlanError) [
          | some e ↦ some e
          | none ↦ if mem_bytes f.fingerprint seen then some (duplicate_fingerprint i) else none
        ])
        (c.alone i)
      ∙ ground (arith, n))

  check_findings-none :
      (i : ℕ) (seen : List Bytes) (fs : List Finding)
      → check_findings sha256 i seen fs ≡ none
      → All IsCanonical fs × All (IsNew seen) fs × AreDistinct fs
  unfolding check_findings AreDistinct
  check_findings-none i seen [] h = (tt, tt, tt)
  check_findings-none i seen (f ∷ fs) h =
      let (first, rest) = go (check_finding sha256 i seen f) h in
      let (c, n) = check_finding-none i seen f first in
      let (cs, ns, d) = check_findings-none (suc i) (f.fingerprint ∷ seen) fs rest in
      let (ns', differs) = IsNew-tail f seen fs ns in ((c, cs), (n, ns'), (differs, d))
    where
      go :
          (o : Option PlanError)
          → (elim o as (λ x. Option PlanError) [
            | some e ↦ some e
            | none ↦ check_findings sha256 (suc i) (f.fingerprint ∷ seen) fs
          ])
            ≡ none
          → (o ≡ none) × (check_findings sha256 (suc i) (f.fingerprint ∷ seen) fs ≡ none)
      go none h = (refl, h)
      go (some e) h = ground (arith, h)

  check_findings-new :
      (i : ℕ) (seen : List Bytes) (fs : List Finding)
      → All IsCanonical fs
      → All (IsNew seen) fs
      → AreDistinct fs
      → check_findings sha256 i seen fs ≡ none
  unfolding check_findings AreDistinct
  check_findings-new i seen [] c n d = refl
  check_findings-new i seen (f ∷ fs) c n d =
      ap
        (λ o. elim o as (λ x. Option PlanError) [
          | some e ↦ some e
          | none ↦ check_findings sha256 (suc i) (f.fingerprint ∷ seen) fs
        ])
        (check_finding-new i seen f c.0 n.0)
      ∙ check_findings-new (suc i) (f.fingerprint ∷ seen) fs c.1 (IsNew-cons f seen fs n.1 d.0) d.1

  IsNew-nothing : (fs : List Finding) → All (IsNew []) fs
  unfolding mem_bytes
  IsNew-nothing [] = tt
  IsNew-nothing (f ∷ fs) = (refl, IsNew-nothing fs)

  -- Findings in canonical form and order, no two of them with one fingerprint
  pub record AreCanonical (fs : List Finding) : Type 0 where
    pub each : All IsCanonical fs
    pub distinct : AreDistinct fs
    pub sorted : IsSorted less_plan_finding fs

  pub AreCanonical-canonical_findings :
      (fs ordered : List Finding) → canonical_findings sha256 fs ≡ ok ordered → AreCanonical ordered
  AreCanonical-canonical_findings fs ordered h =
      let (checked, same) = canonical_findings-ok sha256 fs ordered h in
      let (each, _, distinct) = check_findings-none 0 [] fs checked in
      subst AreCanonical (sym same) (record {
        each = All-sort IsCanonical less_plan_finding fs each;
        distinct = AreDistinct-sort less_plan_finding fs distinct;
        sorted = sort-IsSorted less_plan_finding-IsWeakOrder fs;
      })

  -- Canonical findings stay as they are.
  pub canonical_findings-AreCanonical :
      (fs : List Finding) → AreCanonical fs → canonical_findings sha256 fs ≡ ok fs
  unfolding canonical_findings
  canonical_findings-AreCanonical fs c =
      ap
        (λ o. elim o as (λ x. PlanResult (List Finding)) [
          | some e ↦ err e
          | none ↦ ok (sort less_plan_finding fs)
        ])
        (check_findings-new 0 [] fs c.each (IsNew-nothing fs) c.distinct)
      ∙ ap ok (sort-sorted less_plan_finding fs c.sorted)

  pub AreCanonical-split :
      (xs ys : List Finding) → AreCanonical (xs ++ ys) → AreCanonical xs × AreCanonical ys
  AreCanonical-split xs ys c =
      let (e, e') = All-split IsCanonical xs ys c.each in
      let (d, d') = AreDistinct-split xs ys c.distinct in
      let (s, s') = IsSorted-split less_plan_finding xs ys c.sorted in
      (
        record { each = e; distinct = d; sorted = s },
        record { each = e'; distinct = d'; sorted = s' },
      )
