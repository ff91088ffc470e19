-- ===== src/Finding/Group.antt =====
-- internal/finding/group.go: findings with one fingerprint are combined and ordered for reports.
-- Go's map of groups is an association list in order of insertion; `Group` sorts what it ranges
-- over. `grouped`, `invalid` and `panicked` are its result, its error and an index out of range.
use togi.Prelude.{
  ℕ, zero, suc, Bool, true, false, ◌&&◌, not, List, [], ◌∷◌, ◌++◌, Option, none, some, ltb,
  if◌then◌else◌,
}
use togi.Prelude.Int.{ltb_ℤ, eqb_ℤ}
use togi.Prelude.Order.{by_key}
use togi.Prelude.Sort.{sort}
use togi.Text.{Bytes, bytes_eqb, bytes_ltb}
use togi.Finding.{
  Severity, error, warning, info, other, Occurrence, Finding, FindingError, normalize_file,
  fingerprint, validate,
}

pub data GroupResult : Type 0 where
  grouped : List Finding → GroupResult
  invalid : ℕ → FindingError → GroupResult
  panicked : GroupResult

unfoldable pub severity_precedence : Severity → ℕ
severity_precedence error = 3
severity_precedence warning = 2
severity_precedence info = 1
severity_precedence (other _) = 0

unfoldable pub severity_eqb : Severity → Severity → Bool
severity_eqb error error = true
severity_eqb warning warning = true
severity_eqb info info = true
severity_eqb (other s) (other t) = bytes_eqb s t
severity_eqb _ _ = false

-- The later tests of `lessMetadata`.
abbrev pub less_metadata_text : Finding → Finding → Bool
less_metadata_text =
    by_key bytes_eqb bytes_ltb (λ f. f.language)
      (by_key bytes_eqb bytes_ltb (λ f. f.message)
        (by_key bytes_eqb bytes_ltb (λ f. f.snippet) (λ left right. false)))

unfoldable pub less_metadata : Finding → Finding → Bool
less_metadata left right =
    if not (severity_eqb left.severity right.severity)
    then ltb (severity_precedence right.severity) (severity_precedence left.severity)
    else less_metadata_text left right

unfoldable pub less_occurrence : Occurrence → Occurrence → Bool
less_occurrence =
    by_key eqb_ℤ ltb_ℤ (λ o. o.line) (λ left right. ltb_ℤ left.end_line right.end_line)

unfoldable pub less_finding : Finding → Finding → Bool
less_finding =
    by_key bytes_eqb bytes_ltb (λ f. f.file)
      (by_key eqb_ℤ ltb_ℤ (λ f. f.line)
        (by_key bytes_eqb bytes_ltb (λ f. f.gate)
          (by_key bytes_eqb bytes_ltb (λ f. f.rule_id)
            (λ left right. bytes_ltb left.fingerprint right.fingerprint))))

pub record Located : Type 0 where
  pub finding_index : ℕ
  pub location : Occurrence

abbrev pub occurrence_eqb : Occurrence → Occurrence → Bool
occurrence_eqb a b = eqb_ℤ a.line b.line && eqb_ℤ a.end_line b.end_line

unfoldable pub seen_location : Occurrence → List Occurrence → Bool
seen_location l [] = false
seen_location l (s ∷ seen) = if occurrence_eqb l s then true else seen_location l seen

-- The located findings so far, and the locations that have been seen.
abbrev pub Locations : Type 0
Locations = List Located × List Occurrence

unfoldable pub append_location : Locations → ℕ → Occurrence → Locations
append_location (locations, seen) index l =
    if seen_location l seen
    then (locations, seen)
    else (locations ++ record { finding_index = index; location = l } ∷ [], l ∷ seen)

unfoldable pub append_occurrences : Locations → ℕ → List Occurrence → Locations
append_occurrences acc index [] = acc
append_occurrences acc index (o ∷ os) = append_occurrences (append_location acc index o) index os

-- the primary location of a finding, then its occurrences
abbrev pub locations_of : Finding → List Occurrence
locations_of f = record { line = f.line; end_line = f.end_line } ∷ f.occurrences

unfoldable pub collect_locations : Locations → ℕ → List Finding → Locations
collect_locations acc index [] = acc
collect_locations acc index (f ∷ fs) =
    collect_locations (append_occurrences acc index (locations_of f)) (suc index) fs

unfoldable pub highest_severity_from : Severity → List Finding → Severity
highest_severity_from highest [] = highest
highest_severity_from highest (f ∷ fs) =
    highest_severity_from
      (if ltb (severity_precedence highest) (severity_precedence f.severity)
        then f.severity
        else highest)
      fs

abbrev pub get_finding : List Finding → ℕ → Option Finding
get_finding [] index = none
get_finding (f ∷ fs) zero = some f
get_finding (f ∷ fs) (suc index) = get_finding fs index

abbrev pub location_list : List Located → List Occurrence
location_list [] = []
location_list (l ∷ ls) = l.location ∷ location_list ls

-- The part of `combine` behind `primary := locations[0]`.
abbrev pub combine_at : List Finding → List Located → Option Finding
combine_at findings [] = none
combine_at [] (primary ∷ rest) = none
combine_at (first ∷ others) (primary ∷ rest) =
    elim (get_finding (first ∷ others) primary.finding_index) [
      | none ↦ none
      | some base ↦ some (record base {
        line = primary.location.line;
        end_line = primary.location.end_line;
        severity = highest_severity_from first.severity others;
        occurrences = location_list rest;
      })
    ]

unfoldable pub less_located : Located → Located → Bool
less_located left right = less_occurrence left.location right.location

unfoldable pub combine : List Finding → Option Finding
combine findings =
    let ordered = sort less_metadata findings in
    combine_at ordered (sort less_located (collect_locations ([], []) 0 ordered).0)

abbrev pub Groups : Type 0
Groups = List (Bytes × List Finding)

-- groups[key] = append(groups[key], f)
unfoldable pub add_group : Bytes → Finding → Groups → Groups
add_group key f [] = (key, f ∷ []) ∷ []
add_group key f ((k, members) ∷ groups) =
    if bytes_eqb key k
    then (k, members ++ f ∷ []) ∷ groups
    else (k, members) ∷ add_group key f groups

unfoldable pub combine_groups : Groups → Option (List Finding)
combine_groups [] = some []
combine_groups ((k, members) ∷ groups) = elim (combine members) [
  | none ↦ none
  | some f ↦ elim (combine_groups groups) [ none ↦ none | some fs ↦ some (f ∷ fs) ]
]

module _ (sha256 : Bytes → Bytes) where
  -- `copied`, with its canonical file and its fingerprint
  unfoldable pub canonical_copy : Finding → Finding
  canonical_copy f =
      let copied = record f { file = normalize_file f.file } in
      record copied { fingerprint = fingerprint sha256 copied }

  unfoldable pub group_from : ℕ → Groups → List Finding → GroupResult
  group_from index groups [] = elim (combine_groups groups) [
    | none ↦ panicked
    | some fs ↦ grouped (sort less_finding fs)
  ]
  group_from index groups (f ∷ fs) = elim (validate sha256 f) [
    | some e ↦ invalid index e
    | none ↦
        let copied = canonical_copy f in
        group_from (suc index) (add_group copied.fingerprint copied groups) fs
  ]

  unfoldable pub group : List Finding → GroupResult
  group findings = group_from 0 [] findings
