-- ===== src/Finding/Scope/Lines.antt =====
-- internal/finding/scope.go: the lines that a location and a range have in common.
use togi.Prelude.{
  ℕ, suc, ◌≡◌, ◌≢◌, refl, sym, subst, ◌⊎◌, inl, inr, Bool-cases, Option, none, some, List, [], ◌∷◌,
  arith, Memᴰ,
}
use togi.Prelude.Int.{ℤ, pos, negsuc, ◌≤ℤ◌, leb_ℤ, eqb_ℤ, eqb_ℤ_iff}
use togi.Text.{Bytes}
use togi.Finding.{
  Occurrence, Finding, FindingError, validate_location, validate_occurrences, validate,
  validate_identity, bad_occurrence,
}
use togi.Finding.Group.{locations_of}
use togi.Finding.Scope.{LineRange, location_end}

-- The line of a location, or one from it through the end line
abbrev pub IsLineOf : ℤ → Occurrence → Type 0
IsLineOf n l = (n ≡ l.line) ⊎ ((l.line ≤ℤ n) × (n ≤ℤ l.end_line))

abbrev pub IsLineIn : ℤ → LineRange → Type 0
IsLineIn n r = (r.start ≤ℤ n) × (n ≤ℤ r.end)

-- A location with a line, and an end line not before it if there is one
abbrev pub IsLocation : Occurrence → Type 0
IsLocation l = (pos 1 ≤ℤ l.line) × ((l.end_line ≡ pos 0) ⊎ (l.line ≤ℤ l.end_line))

≤ℤ_antisym : (a b : ℤ) → a ≤ℤ b → b ≤ℤ a → a ≡ b
≤ℤ_antisym (pos a) (pos b) h k = ground (arith, h, k)
≤ℤ_antisym (pos a) (negsuc b) h k = ground (arith, h, k)
≤ℤ_antisym (negsuc a) (pos b) h k = ground (arith, h, k)
≤ℤ_antisym (negsuc a) (negsuc b) h k = ground (arith, h, k)

abbrev EndsAt : Occurrence → Type 0
EndsAt l =
    ((l.end_line ≡ pos 0) × (location_end l ≡ l.line))
    ⊎ ((l.end_line ≢ pos 0) × (location_end l ≡ l.end_line))

-- The last line of a location, by whether it has an end line
location_end-cases : (l : Occurrence) → EndsAt l
location_end-cases l = elim (Bool-cases (eqb_ℤ l.end_line (pos 0))) [
  | inl e ↦ inl ((eqb_ℤ_iff l.end_line (pos 0)).0 e, rw e refl)
  | inr e ↦ inr (λ z. cc ((eqb_ℤ_iff l.end_line (pos 0)).1 z, e), rw e refl)
]

-- A range and a location that share a line
abbrev pub ShareLine : Occurrence → LineRange → Type 0
ShareLine l r = (n : ℤ) × IsLineOf n l × IsLineIn n r

pub ShareLine-of :
    (l : Occurrence) (r : LineRange)
    → r.start ≤ℤ r.end
    → l.line ≤ℤ r.end
    → r.start ≤ℤ location_end l
    → ShareLine l r
ShareLine-of l r v h k = elim (Bool-cases (leb_ℤ l.line r.start)) [
  | inl e ↦ (r.start, at_start (ground (arith, e)) (location_end-cases l), (omega arith, v))
  | inr e ↦ (l.line, inl refl, (ground (arith, e), h))
]
  where
    at_start : l.line ≤ℤ r.start → EndsAt l → IsLineOf r.start l
    at_start b (inl c) = inl (≤ℤ_antisym r.start l.line (subst (λ t. r.start ≤ℤ t) c.1 k) b)
    at_start b (inr c) = inr (b, subst (λ t. r.start ≤ℤ t) c.1 k)

≤ℤ_trans : (a b c : ℤ) → a ≤ℤ b → b ≤ℤ c → a ≤ℤ c
≤ℤ_trans a b c h k = omega (arith, h, k)

pub of-ShareLine :
    (l : Occurrence) (r : LineRange)
    → IsLocation l
    → ShareLine l r
    → (l.line ≤ℤ r.end) × (r.start ≤ℤ location_end l)
of-ShareLine l r v (n, inl e, i) = (
  subst (λ t. t ≤ℤ r.end) e i.1,
  ≤ℤ_trans r.start l.line (location_end l) (subst (λ t. r.start ≤ℤ t) e i.0)
      (line-location_end v.1 (location_end-cases l)),
)
  where
    line-location_end :
        (l.end_line ≡ pos 0) ⊎ (l.line ≤ℤ l.end_line) → EndsAt l → l.line ≤ℤ location_end l
    line-location_end w (inl c) = subst (λ t. l.line ≤ℤ t) (sym c.1) (omega arith)
    line-location_end (inl z) (inr c) = absurd (c.0 z)
    line-location_end (inr z) (inr c) = subst (λ t. l.line ≤ℤ t) (sym c.1) z
of-ShareLine l r v (n, inr e, i) = (
  ≤ℤ_trans l.line n r.end e.0 i.1,
  ≤ℤ_trans r.start n (location_end l) i.0 (within (location_end-cases l)),
)
  where
    within : EndsAt l → n ≤ℤ location_end l
    within (inl c) =
        let z : n ≤ℤ pos 0 = subst (λ t. n ≤ℤ t) c.0 e.1 in
        let first = v.0 in let behind = e.0 in absurd (ground (arith, z, first, behind))
    within (inr c) = subst (λ t. n ≤ℤ t) (sym c.1) e.1

-- A finding that passes `Validate` has such locations only.
validate_location-IsLocation :
    (l : Occurrence) → validate_location l.line l.end_line ≡ none → IsLocation l
unfolding validate_location
validate_location-IsLocation l h = (
  ground (arith, h),
  elim (Bool-cases (eqb_ℤ l.end_line (pos 0))) [
    | inl e ↦ inl ((eqb_ℤ_iff l.end_line (pos 0)).0 e)
    | inr e ↦ inr (ground (arith, e, h))
  ],
)

validate_occurrences-IsLocation :
    (index : ℕ) (os : List Occurrence) (l : Occurrence)
    → validate_occurrences index os ≡ none
    → Memᴰ l os
    → IsLocation l
unfolding validate_occurrences
validate_occurrences-IsLocation index [] l h m = elim m [ ]
validate_occurrences-IsLocation index (o ∷ os) l h m =
    go (validate_location o.line o.end_line) refl h m
      (validate_occurrences-IsLocation (suc index) os l)
  where
    go :
        (v : Option FindingError)
        → validate_location o.line o.end_line ≡ v
        → (elim v as (λ _. Option FindingError) [
          | none ↦ validate_occurrences (suc index) os
          | some e ↦ some (bad_occurrence index e)
        ])
          ≡ none
        → Memᴰ l (o ∷ os)
        → (validate_occurrences (suc index) os ≡ none → Memᴰ l os → IsLocation l)
        → IsLocation l
    go none e k (Memᴰ.head p) rec = subst IsLocation (sym p) (validate_location-IsLocation o e)
    go none e k (Memᴰ.tail n) rec = rec k n
    go (some x) e k n rec = cc k

pub validate-IsLocation :
    (sha256 : Bytes → Bytes) (f : Finding) (l : Occurrence)
    → validate sha256 f ≡ none
    → Memᴰ l (locations_of f)
    → IsLocation l
unfolding validate
validate-IsLocation sha256 f l h m = by_identity (validate_identity f) _ h λ k. at_location _ k m
  where
    at_location :
        (rest : Option FindingError)
        → (elim (validate_location f.line f.end_line) as (λ _. Option FindingError) [
          | some e ↦ some e
          | none ↦ elim (validate_occurrences 0 f.occurrences) as (λ _. Option FindingError) [
            | some e ↦ some e
            | none ↦ rest
          ]
        ])
          ≡ none
        → Memᴰ l (locations_of f)
        → IsLocation l
    at_location rest k n =
        go (validate_location f.line f.end_line) (validate_occurrences 0 f.occurrences) refl refl k
          n
      where
        go :
            (v w : Option FindingError)
            → validate_location f.line f.end_line ≡ v
            → validate_occurrences 0 f.occurrences ≡ w
            → (elim v as (λ _. Option FindingError) [
              | some e ↦ some e
              | none ↦ elim w as (λ _. Option FindingError) [ some e ↦ some e | none ↦ rest ]
            ])
              ≡ none
            → Memᴰ l (locations_of f)
            → IsLocation l
        go none none e d k (Memᴰ.head p) =
            subst IsLocation (sym p)
              (validate_location-IsLocation (record { line = f.line; end_line = f.end_line }) e)
        go none none e d k (Memᴰ.tail n) = validate_occurrences-IsLocation 0 f.occurrences l d n
        go none (some x) e d k n = cc k
        go (some x) w e d k n = cc k

    by_identity :
        (o rest : Option FindingError)
        → (elim o as (λ _. Option FindingError) [ some e ↦ some e | none ↦ rest ]) ≡ none
        → (rest ≡ none → IsLocation l)
        → IsLocation l
    by_identity none rest k then_located = then_located k
    by_identity (some x) rest k then_located = cc k
