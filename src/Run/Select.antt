-- ===== src/Run/Select.antt =====
-- internal/run/run.go: `selectRequests`. A gate is its name and its binding for Go, if it
-- has one; a request's root is that of the call, and is left out.
pub mod Names
pub mod Requests
pub mod Found
pub mod Chosen
use togi.Prelude.{
  ℕ, zero, suc, Bool, true, false, not, Option, none, some, List, [], ◌∷◌, ◌==◌, if◌then◌else◌,
  length,
}
use togi.Text.{Bytes, bytes_eqb, mem_bytes}
use togi.Text.Space.{is_blank}

pub record Candidate (Binding : Type 0) : Type 0 where
  pub name : Bytes
  pub go_binding : Option Binding

pub record Request (Binding : Type 0) : Type 0 where
  pub gate : Bytes
  pub binding : Binding
  pub position : ℕ

pub data SelectError : Type 0 where
  name_empty no_gates_selected : SelectError
  duplicate_gate unknown_gate no_go_binding : Bytes → SelectError

pub data Selection (Binding : Type 0) : Type 0 where
  selected : List (Request Binding) → Selection Binding
  refused : SelectError → Selection Binding

-- The rest of the names, behind one.
abbrev pub with_name : Bytes → Option (List Bytes) → Option (List Bytes)
with_name name none = none
with_name name (some rest) = some (name ∷ rest)

-- The names without repetition, in order; none where one is blank.
unfoldable pub unique_names : List Bytes → List Bytes → Option (List Bytes)
unique_names seen [] = some []
unique_names seen (name ∷ names) =
    if is_blank name
    then none
    else if mem_bytes name seen
    then unique_names seen names
    else with_name name (unique_names (name ∷ seen) names)

-- Without requested names, every gate is wanted.
abbrev pub is_wanted : List Bytes → Bytes → Bool
is_wanted [] name = true
is_wanted (n ∷ ns) name = mem_bytes name (n ∷ ns)

module _ {Binding : Type 0} where
  -- A name that an earlier gate has
  unfoldable pub repeated_gate : List Bytes → List (Candidate Binding) → Option Bytes
  repeated_gate known [] = none
  repeated_gate known (c ∷ cs) =
      if mem_bytes c.name known then some c.name else repeated_gate (c.name ∷ known) cs

  unfoldable pub find_gate : Bytes → List (Candidate Binding) → Option (Candidate Binding)
  find_gate name [] = none
  find_gate name (c ∷ cs) = if bytes_eqb name c.name then some c else find_gate name cs

  abbrev pub bound : Bytes → Option (Candidate Binding) → Option SelectError
  bound name none = some (unknown_gate name)
  bound name (some c) = elim c.go_binding [ none ↦ some (no_go_binding name) | some b ↦ none ]

  -- The first requested name that is not one of a gate for Go.
  unfoldable pub check_requested : List (Candidate Binding) → List Bytes → Option SelectError
  check_requested gates [] = none
  check_requested gates (name ∷ names) = elim (bound name (find_gate name gates)) [
    | some e ↦ some e
    | none ↦ check_requested gates names
  ]

  abbrev pub add_request :
      ℕ → Candidate Binding → Option Binding → List (Request Binding) → List (Request Binding)
  add_request position c none rest = rest
  add_request position c (some b) rest =
      record { gate = c.name; binding = b; position = position } ∷ rest

  unfoldable pub requests_from : ℕ → List Bytes → List (Candidate Binding) → List (Request Binding)
  requests_from position wanted [] = []
  requests_from position wanted (c ∷ cs) =
      let rest = requests_from (suc position) wanted cs in
      if is_wanted wanted c.name then add_request position c c.go_binding rest else rest

  abbrev pub some_requests : List (Request Binding) → Selection Binding
  some_requests [] = refused no_gates_selected
  some_requests (r ∷ rs) = selected (r ∷ rs)

  abbrev pub of_checked :
      List (Candidate Binding) → List Bytes → Option SelectError → Selection Binding
  of_checked gates names (some e) = refused e
  of_checked gates names none = some_requests (requests_from 0 names gates)

  abbrev pub of_known : List (Candidate Binding) → List Bytes → Option Bytes → Selection Binding
  of_known gates names (some name) = refused (duplicate_gate name)
  of_known gates names none = of_checked gates names (check_requested gates names)

  abbrev pub of_names : List (Candidate Binding) → Option (List Bytes) → Selection Binding
  of_names gates none = refused name_empty
  of_names gates (some names) = of_known gates names (repeated_gate [] gates)

  unfoldable pub select_requests : List (Candidate Binding) → List Bytes → Selection Binding
  select_requests gates requested = of_names gates (unique_names [] requested)
