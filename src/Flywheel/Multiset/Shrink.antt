-- ===== src/Flywheel/Multiset/Shrink.antt =====
-- internal/flywheel/plan.go: `StrictlyShrinks` as an order on multisets, and `multisetSubset` of
-- validate.go.
use togi.Prelude.{
  ℕ, ◌+◌, ◌≤◌, ◌<◌, ◌≡◌, refl, ◌↔◌, inl, inr, true, false, [], ◌∷◌, arith, ltb, if◌then◌else◌,
  Bool-cases,
}
use togi.Text.{Bytes, bytes_eqb}
use togi.Text.Order.{bytes_eqb_iff, bytes_eqb_refl}
use togi.Flywheel.Multiset.{
  Counts, lookup_count, has_key, shrink_counts, some_count_fell, all_positive, some_key_gone,
  strictly_shrinks, multiset_subset,
}

-- Go's maps hold a key once; the counts of a multiset are positive.
abbrev pub IsCounts : Counts → Type 0
IsCounts [] = Unit
IsCounts ((k, n) ∷ m) = (0 < n) × (has_key k m ≡ false) × IsCounts m

unfoldable pub total : Counts → ℕ
total [] = 0
total ((k, n) ∷ m) = n + total m

remove : Bytes → Counts → Counts
remove key [] = []
remove key ((k, n) ∷ m) = if bytes_eqb key k then remove key m else (k, n) ∷ remove key m

lookup_missing : (k : Bytes) (m : Counts) → has_key k m ≡ false → lookup_count k m ≡ 0
unfolding lookup_count has_key
lookup_missing k [] h = refl
lookup_missing k ((j, n) ∷ m) h = ground (arith, lookup_missing k m)

lookup_pos : (k : Bytes) (m : Counts) → IsCounts m → has_key k m ≡ true → 0 < lookup_count k m
unfolding lookup_count has_key
lookup_pos k [] v h = cc
lookup_pos k ((j, n) ∷ m) v h = ground (arith, lookup_pos k m v.2)

eqb_false :
    (k j : Bytes) (m : Counts) → has_key k m ≡ true → has_key j m ≡ false → bytes_eqb k j ≡ false
eqb_false k j m h g = elim (Bool-cases (bytes_eqb k j)) [
  | inl e ↦ cc ((bytes_eqb_iff k j).0 e)
  | inr e ↦ e
]

shrink_counts→le :
    (before after : Counts) (k : Bytes)
    → shrink_counts before after ≡ true
    → lookup_count k after ≤ lookup_count k before
unfolding shrink_counts lookup_count
shrink_counts→le before [] k h = omega arith
shrink_counts→le before ((j, n) ∷ after) k h =
    ground (arith, bytes_eqb_iff k j, shrink_counts→le before after k)

le→shrink_counts :
    (before after : Counts)
    → IsCounts after
    → ((k : Bytes) → has_key k after ≡ true → lookup_count k after ≤ lookup_count k before)
    → shrink_counts before after ≡ true
unfolding shrink_counts lookup_count has_key
le→shrink_counts before [] v h = refl
le→shrink_counts before ((j, n) ∷ after) v h =
    let tail : shrink_counts before after ≡ true =
      le→shrink_counts before after v.2 (λ k m. ground (arith, h k, eqb_false k j after m v.1)) in
    ground (arith, h j, bytes_eqb_refl j, tail)

some_count_fell→lt :
    (before after : Counts)
    → IsCounts after
    → some_count_fell before after ≡ true
    → (k : Bytes) × (has_key k after ≡ true) × (lookup_count k after < lookup_count k before)
unfolding some_count_fell lookup_count has_key
some_count_fell→lt before [] v h = cc
some_count_fell→lt before ((j, n) ∷ after) v h = elim (Bool-cases (ltb n (lookup_count j before))) [
  | inl e ↦ (j, ground (arith, bytes_eqb_refl j), ground (arith, bytes_eqb_refl j))
  | inr e ↦
      let (k, m, l) = some_count_fell→lt before after v.2 (ground arith) in
      (k, ground (arith), ground (arith, eqb_false k j after m v.1))
]

lt→some_count_fell :
    (before after : Counts) (k : Bytes)
    → has_key k after ≡ true
    → lookup_count k after < lookup_count k before
    → some_count_fell before after ≡ true
unfolding some_count_fell lookup_count has_key
lt→some_count_fell before [] k m l = cc
lt→some_count_fell before ((j, n) ∷ after) k m l =
    ground (arith, bytes_eqb_iff k j, lt→some_count_fell before after k)

some_key_gone→lt :
    (after before : Counts)
    → IsCounts before
    → some_key_gone after before ≡ true
    → (k : Bytes) × (has_key k before ≡ true) × (has_key k after ≡ false)
unfolding some_key_gone has_key
some_key_gone→lt after [] v h = cc
some_key_gone→lt after ((j, n) ∷ before) v h = elim (Bool-cases (has_key j after)) [
  | inl e ↦ let (k, m, l) = some_key_gone→lt after before v.2 (ground arith) in (k, ground arith, l)
  | inr e ↦ (j, ground (arith, bytes_eqb_refl j), e)
]

lt→some_key_gone :
    (after before : Counts) (k : Bytes)
    → has_key k before ≡ true
    → has_key k after ≡ false
    → some_key_gone after before ≡ true
unfolding some_key_gone has_key
lt→some_key_gone after [] k m l = cc
lt→some_key_gone after ((j, n) ∷ before) k m l =
    ground (arith, bytes_eqb_iff k j, lt→some_key_gone after before k)

all_positive_lem : (m : Counts) → IsCounts m → all_positive m ≡ true
unfolding all_positive
all_positive_lem [] v = refl
all_positive_lem ((k, n) ∷ m) v = ground (arith, all_positive_lem m)

-- `after` is below `before` at every fingerprint, and strictly at one.
abbrev pub IsBelow : Counts → Counts → Type 0
IsBelow after before =
    ((k : Bytes) → lookup_count k after ≤ lookup_count k before)
    × ((k : Bytes) × (lookup_count k after < lookup_count k before))

shrinks→below :
    (after before : Counts)
    → IsCounts after
    → IsCounts before
    → strictly_shrinks after before ≡ true
    → IsBelow after before
unfolding strictly_shrinks
shrinks→below after before va vb h =
    let s : shrink_counts before after ≡ true = ground arith in
    (
      λ k. shrink_counts→le before after k s,
      elim (Bool-cases (some_count_fell before after)) [
        | inl e ↦ let (k, m, l) = some_count_fell→lt before after va e in (k, l)
        | inr e ↦
            let (k, m, l) = some_key_gone→lt after before vb (ground arith) in
            (k, omega (arith, lookup_missing k after l, lookup_pos k before vb m))
      ],
    )

below→shrinks :
    (after before : Counts)
    → IsCounts after
    → IsCounts before
    → IsBelow after before
    → strictly_shrinks after before ≡ true
unfolding strictly_shrinks
below→shrinks after before va vb h =
    let s = le→shrink_counts before after va (λ k m. h.0 k) in
    let p = all_positive_lem before vb in
    let k = h.1.0 in
    elim (Bool-cases (has_key k after)) [
      | inl m ↦ ground (arith, s, p, lt→some_count_fell before after k m h.1.1)
      | inr g ↦ elim (Bool-cases (has_key k before)) [
        | inl m ↦ ground (arith, s, p, lt→some_key_gone after before k m g)
        | inr n ↦ absurd (omega (arith, h.1.1, lookup_missing k before n))
      ]
    ]

-- Of two multisets, `StrictlyShrinks` says yes exactly when the first is a sub-multiset of the
-- second and misses some of it.
pub strictly_shrinks_iff :
    (after before : Counts)
    → IsCounts after
    → IsCounts before
    → (strictly_shrinks after before ≡ true) ↔ IsBelow after before
strictly_shrinks_iff after before va vb =
    (shrinks→below after before va vb, below→shrinks after before va vb)

subset→shrink_counts :
    (candidate baseline : Counts)
    → multiset_subset candidate baseline ≡ shrink_counts baseline candidate
unfolding multiset_subset shrink_counts
subset→shrink_counts [] baseline = refl
subset→shrink_counts ((k, n) ∷ m) baseline = ground (arith, subset→shrink_counts m baseline)

-- `multisetSubset` says yes exactly when no fingerprint occurs more often than in the baseline.
pub multiset_subset_iff :
    (candidate baseline : Counts)
    → IsCounts candidate
    → (multiset_subset candidate baseline ≡ true)
      ↔ ((k : Bytes) → lookup_count k candidate ≤ lookup_count k baseline)
multiset_subset_iff candidate baseline v = rw (subset→shrink_counts candidate baseline) (
  λ h k. shrink_counts→le baseline candidate k h,
  λ h. le→shrink_counts baseline candidate v (λ k m. h k),
)

has_key-remove : (k j : Bytes) (m : Counts) → has_key k m ≡ false → has_key k (remove j m) ≡ false
unfolding has_key remove
has_key-remove k j [] h = refl
has_key-remove k j ((i, n) ∷ m) h = ground (arith, has_key-remove k j m)

remove-IsCounts : (j : Bytes) (m : Counts) → IsCounts m → IsCounts (remove j m)
unfolding remove
remove-IsCounts j [] v = tt
remove-IsCounts j ((i, n) ∷ m) v = elim (Bool-cases (bytes_eqb j i)) [
  | inl e ↦ rw e (remove-IsCounts j m v.2)
  | inr e ↦ rw e (v.0, has_key-remove i j m v.1, remove-IsCounts j m v.2)
]

lookup-remove :
    (k j : Bytes) (m : Counts)
    → lookup_count k (remove j m) ≡ (if bytes_eqb j k then 0 else lookup_count k m)
unfolding lookup_count remove
lookup-remove k j [] = ground arith
lookup-remove k j ((i, n) ∷ m) =
    ground (arith, bytes_eqb_iff k i, bytes_eqb_iff j i, bytes_eqb_iff j k, lookup-remove k j m)

remove_missing : (j : Bytes) (m : Counts) → has_key j m ≡ false → remove j m ≡ m
unfolding has_key remove
remove_missing j [] h = refl
remove_missing j ((i, n) ∷ m) h = ground (arith, remove_missing j m)

total-remove :
    (j : Bytes) (m : Counts) → IsCounts m → total m ≡ lookup_count j m + total (remove j m)
unfolding total lookup_count remove
total-remove j [] v = refl
total-remove j ((i, n) ∷ m) v = elim (Bool-cases (bytes_eqb j i)) [
  | inl e ↦ let q : j ≡ i = (bytes_eqb_iff j i).0 e in rw e (rw (remove_missing j m (rw q v.1)))
  | inr e ↦ rw e (omega (arith, total-remove j m v.2))
]

total_le :
    (after before : Counts)
    → IsCounts after
    → IsCounts before
    → ((k : Bytes) → lookup_count k after ≤ lookup_count k before)
    → total after ≤ total before
unfolding total lookup_count
total_le [] before va vb h = omega arith
total_le ((j, n) ∷ after) before va vb h =
    let tail : total after ≤ total (remove j before) =
      total_le after (remove j before) va.2 (remove-IsCounts j before vb) (λ k. ground (
        arith,
        h k,
        lookup-remove k j before,
        bytes_eqb_iff j k,
        bytes_eqb_iff k j,
        lookup_missing j after va.1,
      )) in
    let head : n ≤ lookup_count j before = ground (arith, h j, bytes_eqb_refl j) in
    omega (arith, tail, head, total-remove j before vb)

-- The number of blocking occurrences falls whenever `StrictlyShrinks` says yes.
pub total-strictly_shrinks :
    (after before : Counts)
    → IsCounts after
    → IsCounts before
    → strictly_shrinks after before ≡ true
    → total after < total before
total-strictly_shrinks after before va vb h =
    let b = shrinks→below after before va vb h in
    let j = b.1.0 in
    let rest : total (remove j after) ≤ total (remove j before) =
      total_le (remove j after) (remove j before) (remove-IsCounts j after va)
        (remove-IsCounts j before vb)
        (λ k. ground (arith, b.0 k, lookup-remove k j before, lookup-remove k j after)) in
    omega (arith, rest, b.1.1, total-remove j after va, total-remove j before vb)
