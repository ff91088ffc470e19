-- ===== src/Flywheel/Plan/Canonical.antt =====
-- internal/flywheel/plan.go: what a blocking multiset counts.
use togi.Prelude.{
  ℕ, ◌+◌, ◌<◌, ◌≡◌, refl, Bool, false, none, List, [], ◌∷◌, arith, Bool-cases, inl, inr, length,
  if◌then◌else◌, ◌∙◌,
}
use togi.Prelude.Sort.{sort, insert}
use togi.Text.{Bytes, bytes_eqb}
use togi.Text.Order.{bytes_eqb_iff}
use togi.Finding.{Finding}
use togi.Flywheel.Multiset.{Counts, lookup_count, has_key, add_count}
use togi.Flywheel.Multiset.Shrink.{IsCounts, total}
use togi.Flywheel.Plan.{
  ok, count_of, counts_from, less_plan_finding, canonical_findings, check_findings,
  blocking_multiset,
}

-- The number of places that findings with one fingerprint name.
unfoldable pub places_at : Bytes → List Finding → ℕ
places_at k [] = 0
places_at k (f ∷ fs) =
    (if bytes_eqb k f.fingerprint then 1 + length f.occurrences else 0) + places_at k fs

places_at-insert :
    (k : Bytes) (less : Finding → Finding → Bool) (f : Finding) (fs : List Finding)
    → places_at k (insert less f fs) ≡ places_at k (f ∷ fs)
unfolding places_at insert
places_at-insert k less f [] = refl
places_at-insert k less f (g ∷ fs) = elim (Bool-cases (less g f)) [
  | inl e ↦ rw e (omega (arith, places_at-insert k less f fs))
  | inr e ↦ rw e refl
]

places_at-sort :
    (k : Bytes) (less : Finding → Finding → Bool) (fs : List Finding)
    → places_at k (sort less fs) ≡ places_at k fs
unfolding places_at sort
places_at-sort k less [] = refl
places_at-sort k less (f ∷ fs) =
    places_at-insert k less f (sort less fs) ∙ omega (arith, places_at-sort k less fs)

-- The number of places that findings name: the primary one of each, and its occurrences.
unfoldable pub occurrence_total : List Finding → ℕ
occurrence_total [] = 0
occurrence_total (f ∷ fs) = count_of f + occurrence_total fs

occurrence_total-insert :
    (less : Finding → Finding → Bool) (f : Finding) (fs : List Finding)
    → occurrence_total (insert less f fs) ≡ count_of f + occurrence_total fs
unfolding occurrence_total insert
occurrence_total-insert less f [] = refl
occurrence_total-insert less f (g ∷ fs) = elim (Bool-cases (less g f)) [
  | inl e ↦ rw e (omega (arith, occurrence_total-insert less f fs))
  | inr e ↦ rw e
]

occurrence_total-sort :
    (less : Finding → Finding → Bool) (fs : List Finding)
    → occurrence_total (sort less fs) ≡ occurrence_total fs
unfolding occurrence_total sort
occurrence_total-sort less [] = refl
occurrence_total-sort less (f ∷ fs) =
    omega (arith, occurrence_total-insert less f (sort less fs), occurrence_total-sort less fs)

has_key-add_count :
    (k j : Bytes) (n : ℕ) (m : Counts)
    → bytes_eqb k j ≡ false
    → has_key k m ≡ false
    → has_key k (add_count j n m) ≡ false
unfolding has_key add_count
has_key-add_count k j n [] e h = ground arith
has_key-add_count k j n ((i, c) ∷ m) e h = ground (arith, has_key-add_count k j n m)

add_count-IsCounts :
    (j : Bytes) (n : ℕ) (m : Counts) → 0 < n → IsCounts m → IsCounts (add_count j n m)
unfolding add_count has_key
add_count-IsCounts j n [] p v = (p, refl, tt)
add_count-IsCounts j n ((i, c) ∷ m) p v = elim (Bool-cases (bytes_eqb j i)) [
  | inl e ↦ rw e (omega (arith, v.0), v.1, v.2)
  | inr e ↦
      rw e (v.0, has_key-add_count i j n m (eqb_flip j i e) v.1, add_count-IsCounts j n m p v.2)
]
  where
    eqb_flip : (a b : Bytes) → bytes_eqb a b ≡ false → bytes_eqb b a ≡ false
    eqb_flip a b e = elim (Bool-cases (bytes_eqb b a)) [
      | inl q ↦ cc ((bytes_eqb_iff b a).0 q, (bytes_eqb_iff a a).1 refl)
      | inr q ↦ q
    ]

total-add_count : (j : Bytes) (n : ℕ) (m : Counts) → total (add_count j n m) ≡ total m + n
unfolding total add_count
total-add_count j n [] = omega arith
total-add_count j n ((i, c) ∷ m) = elim (Bool-cases (bytes_eqb j i)) [
  | inl e ↦ rw e (omega arith)
  | inr e ↦ rw e (omega (arith, total-add_count j n m))
]

lookup_count-add_count :
    (k j : Bytes) (n : ℕ) (m : Counts)
    → lookup_count k (add_count j n m) ≡ (if bytes_eqb k j then n else 0) + lookup_count k m
unfolding lookup_count add_count
lookup_count-add_count k j n [] = ground arith
lookup_count-add_count k j n ((i, c) ∷ m) =
    ground (
      arith,
      bytes_eqb_iff k j,
      bytes_eqb_iff k i,
      bytes_eqb_iff j i,
      lookup_count-add_count k j n m,
    )

lookup_count-counts_from :
    (k : Bytes) (m : Counts) (fs : List Finding)
    → lookup_count k (counts_from m fs) ≡ places_at k fs + lookup_count k m
unfolding counts_from places_at count_of
lookup_count-counts_from k m [] = omega arith
lookup_count-counts_from k m (f ∷ fs) =
    lookup_count-counts_from k (add_count f.fingerprint (count_of f) m) fs
    ∙ omega (arith, lookup_count-add_count k f.fingerprint (count_of f) m)

count_of_pos : (f : Finding) → 0 < count_of f
unfolding count_of
count_of_pos f = omega arith

counts_from-IsCounts : (m : Counts) (fs : List Finding) → IsCounts m → IsCounts (counts_from m fs)
unfolding counts_from
counts_from-IsCounts m [] v = v
counts_from-IsCounts m (f ∷ fs) v =
    counts_from-IsCounts (add_count f.fingerprint (count_of f) m) fs
      (add_count-IsCounts f.fingerprint (count_of f) m (count_of_pos f) v)

total-counts_from :
    (m : Counts) (fs : List Finding) → total (counts_from m fs) ≡ total m + occurrence_total fs
unfolding counts_from occurrence_total
total-counts_from m [] = omega arith
total-counts_from m (f ∷ fs) = omega (
  arith,
  total-counts_from (add_count f.fingerprint (count_of f) m) fs,
  total-add_count f.fingerprint (count_of f) m,
)

module _ (sha256 : Bytes → Bytes) where
  -- Canonical findings are the findings, sorted.
  pub canonical_findings-ok :
      (fs ordered : List Finding)
      → canonical_findings sha256 fs ≡ ok ordered
      → (check_findings sha256 0 [] fs ≡ none) × (ordered ≡ sort less_plan_finding fs)
  unfolding canonical_findings
  canonical_findings-ok fs ordered h = ground arith

  -- A multiset that `BlockingMultiset` returns has the fingerprints of the findings, each once,
  -- with the number of places that the findings of this fingerprint name (a finding names one, and
  -- one more for each occurrence), and its counts add up to the places that all findings name.
  pub blocking_multiset-IsCounts :
      (fs : List Finding) (m : Counts)
      → blocking_multiset sha256 fs ≡ ok m
      → IsCounts m
        × ((k : Bytes) → lookup_count k m ≡ places_at k fs)
        × (total m ≡ occurrence_total fs)
  unfolding blocking_multiset canonical_findings total lookup_count
  blocking_multiset-IsCounts fs m h =
      let e : m ≡ counts_from [] (sort less_plan_finding fs) = ground arith in
      rw e (
        counts_from-IsCounts [] (sort less_plan_finding fs) tt,
        λ k.
            lookup_count-counts_from k [] (sort less_plan_finding fs)
            ∙ omega (arith, places_at-sort k less_plan_finding fs),
        omega (
          arith,
          total-counts_from [] (sort less_plan_finding fs),
          occurrence_total-sort less_plan_finding fs,
        ),
      )
