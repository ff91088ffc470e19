-- ===== src/Flywheel/Engine/Ports/Bounded.antt =====
-- internal/flywheel/engine.go: `boundedFailure`, the bound on a failure's text.
use togi.Prelude.{
  ℕ, zero, suc, ◌-◌, ◌≤◌, ◌<◌, ◌≡◌, refl, ◌⊎◌, inl, inr, true, Bool-cases, [], ◌∷◌, ◌++◌, arith,
  leb, length, length-append, take,
}
use togi.Text.{Bytes}
use togi.Text.Utf8.{to_valid_utf8, rune_start}
use togi.Flywheel.Engine.Ports.{
  rune_boundary, bounded_failure, byte_at, failure_truncation_marker, max_diagnostic_bytes,
}

length-take : (n : ℕ) (s : Bytes) → length (take n s) ≤ n
length-take zero s = omega arith
length-take (suc n) [] = omega arith
length-take (suc n) (c ∷ s) = omega (arith, length-take n s)

rune_boundary_le : (n : ℕ) (s : Bytes) → rune_boundary n s ≤ n
unfolding rune_boundary
rune_boundary_le zero s = omega arith
rune_boundary_le (suc n) s = ground (arith, rune_boundary_le n s)

rune_boundary-start :
    (n : ℕ) (s : Bytes)
    → (rune_boundary n s ≡ 0) ⊎ (rune_start (byte_at (rune_boundary n s) s) ≡ true)
unfolding rune_boundary
rune_boundary-start zero s = inl refl
rune_boundary-start (suc n) s = elim (Bool-cases (rune_start (byte_at (suc n) s))) [
  | inl e ↦ rw e (inr e)
  | inr e ↦ rw e (rune_boundary-start n s)
]

-- A bounded failure is at most 16384 bytes long. It is the valid UTF-8 text of the failure, or this
-- text is longer than that, and the bounded failure is a prefix of it, empty or ending before the
-- start of a rune, with the marker behind it.
pub length-bounded_failure :
    (failure : Bytes)
    → (length (bounded_failure failure) ≤ max_diagnostic_bytes)
      × ((bounded_failure failure ≡ to_valid_utf8 failure)
          ⊎ ((max_diagnostic_bytes < length (to_valid_utf8 failure))
              × (k : ℕ) × (bounded_failure failure
                  ≡ take k (to_valid_utf8 failure) ++ failure_truncation_marker)
              × ((k ≡ 0) ⊎ (rune_start (byte_at k (to_valid_utf8 failure)) ≡ true))))
unfolding bounded_failure
length-bounded_failure failure =
    let text = to_valid_utf8 failure in
    let k = rune_boundary (max_diagnostic_bytes - length failure_truncation_marker) text in
    let size = length-append (take k text) failure_truncation_marker in
    let short = length-take k text in
    let near = rune_boundary_le (max_diagnostic_bytes - length failure_truncation_marker) text in
    elim (Bool-cases (leb (length text) max_diagnostic_bytes)) [
      | inl e ↦ rw e (ground (arith, e), inl refl)
      | inr e ↦ rw e (
        omega (arith, size, short, near),
        inr (ground (arith, e), k, refl, rune_boundary-start _ text),
      )
    ]
