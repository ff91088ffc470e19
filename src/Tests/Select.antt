-- ===== src/Tests/Select.antt =====
-- A run of the selection of gates.
use togi.Prelude.{ℕ, ◌≡◌, refl, none, some, List, [], ◌∷◌}
use togi.Text.{Bytes, ascii, bytes_eqb, mem_bytes}
use togi.Text.Space.{is_blank, is_blank_from, space_width}
use togi.Run.Select.{
  Candidate, Request, selected, unique_names, repeated_gate, find_gate, check_requested,
  requests_from, select_requests,
}
use togi.Run.Select.Chosen.{IsSelected, select_requests-IsSelected}

-- Three gates, the second without a binding for Go.
abbrev three_gates : List (Candidate ℕ)
three_gates =
    record { name = ascii "lint"; go_binding = some 10 }
    ∷ record { name = ascii "css"; go_binding = none }
    ∷ record { name = ascii "vet"; go_binding = some 30 }
    ∷ []

abbrev wanted : List Bytes
wanted = ascii "vet" ∷ ascii "lint" ∷ ascii "vet" ∷ []

abbrev two_requests : List (Request ℕ)
two_requests =
    record { gate = ascii "lint"; binding = 10; position = 0 }
    ∷ record { gate = ascii "vet"; binding = 30; position = 2 }
    ∷ []

selected_two : select_requests three_gates wanted ≡ selected two_requests
unfolding select_requests unique_names repeated_gate find_gate check_requested requests_from
    bytes_eqb mem_bytes is_blank is_blank_from space_width
selected_two = refl

select_requests-IsSelected_example : IsSelected three_gates wanted two_requests
select_requests-IsSelected_example =
    select_requests-IsSelected three_gates wanted two_requests selected_two
