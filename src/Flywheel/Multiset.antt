-- ===== src/Flywheel/Multiset.antt =====
-- internal/flywheel/plan.go and validate.go: multisets of blocking findings by fingerprint, and the
-- test for progress. Go's map[string]int is an association list; a count in it is a sum of
-- `1 + len(Occurrences)`, so the tests `count <= 0` are tests for 0.
pub mod Shrink
use togi.Prelude.{
  ℕ, zero, suc, ◌+◌, Bool, true, false, ◌&&◌, ◌||◌, not, List, [], ◌∷◌, ltb, ◌==◌, if◌then◌else◌,
}
use togi.Text.{Bytes, bytes_eqb}

abbrev pub Counts : Type 0
Counts = List (Bytes × ℕ)

-- m[key], 0 for a missing key
unfoldable pub lookup_count : Bytes → Counts → ℕ
unfolding bytes_eqb
lookup_count key [] = 0
lookup_count key ((k, n) ∷ m) = if bytes_eqb key k then n else lookup_count key m

unfoldable pub has_key : Bytes → Counts → Bool
unfolding bytes_eqb
has_key key [] = false
has_key key ((k, n) ∷ m) = bytes_eqb key k || has_key key m

-- m[key] += n
unfoldable pub add_count : Bytes → ℕ → Counts → Counts
unfolding bytes_eqb
add_count key n [] = (key, n) ∷ []
add_count key n ((k, c) ∷ m) =
    if bytes_eqb key k then (k, c + n) ∷ m else (k, c) ∷ add_count key n m

-- The first loop of `StrictlyShrinks`: none of its `return false`s, then whether it set `strict`.
unfoldable pub shrink_counts : Counts → Counts → Bool
unfolding lookup_count
shrink_counts before [] = true
shrink_counts before ((k, n) ∷ after) =
    not (n == 0 || ltb (lookup_count k before) n) && shrink_counts before after

unfoldable pub some_count_fell : Counts → Counts → Bool
unfolding lookup_count
some_count_fell before [] = false
some_count_fell before ((k, n) ∷ after) =
    ltb n (lookup_count k before) || some_count_fell before after

-- The second loop: none of its `return false`s, then whether it set `strict`.
unfoldable pub all_positive : Counts → Bool
all_positive [] = true
all_positive ((k, n) ∷ m) = not (n == 0) && all_positive m

unfoldable pub some_key_gone : Counts → Counts → Bool
unfolding has_key
some_key_gone after [] = false
some_key_gone after ((k, n) ∷ before) = not (has_key k after) || some_key_gone after before

unfoldable pub strictly_shrinks : Counts → Counts → Bool
unfolding shrink_counts some_count_fell all_positive some_key_gone
strictly_shrinks after before =
    if not (shrink_counts before after)
    then false
    else if not (all_positive before)
    then false
    else some_count_fell before after || some_key_gone after before

-- multisetSubset of validate.go
unfoldable pub multiset_subset : Counts → Counts → Bool
unfolding lookup_count
multiset_subset [] baseline = true
multiset_subset ((k, n) ∷ candidate) baseline =
    if n == 0 || ltb (lookup_count k baseline) n then false else multiset_subset candidate baseline
