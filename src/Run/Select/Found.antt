-- ===== src/Run/Select/Found.antt =====
-- internal/run/run.go: the gates of the requested names.
use togi.Prelude.{
  ◌≡◌, refl, sym, ap, ◌∙◌, inl, inr, Bool-cases, Option, none, some, List, [], ◌∷◌, Memᴰ, arith,
  All,
}
use togi.Text.{Bytes, bytes_eqb}
use togi.Text.Order.{bytes_eqb_iff}
use togi.Run.Select.{Candidate, SelectError, no_go_binding, find_gate, bound, check_requested}

module _ {Binding : Type 0} where
  -- A gate that is found
  pub record IsFound (gates : List (Candidate Binding)) (name : Bytes) : Type 0 where
    pub candidate : Candidate Binding
    pub binding : Binding
    pub listed : Memᴰ candidate gates
    pub named : name ≡ candidate.name
    pub bound_to : candidate.go_binding ≡ some binding

  find_gate-Memᴰ :
      (name : Bytes) (gates : List (Candidate Binding)) (c : Candidate Binding)
      → find_gate name gates ≡ some c
      → Memᴰ c gates × (name ≡ c.name)
  unfolding find_gate
  find_gate-Memᴰ name [] c h = ground (arith, h)
  find_gate-Memᴰ name (d ∷ gates) c h = elim (Bool-cases (bytes_eqb name d.name)) [
    | inl e ↦
        let same : d ≡ c = ground (arith, h, e) in
        (Memᴰ.head (sym same), (bytes_eqb_iff name d.name).0 e ∙ ap (λ x. x.name) same)
    | inr e ↦ let (m, n) = find_gate-Memᴰ name gates c (ground (arith, h, e)) in (Memᴰ.tail m, n)
  ]

  bound-IsFound :
      (name : Bytes) (gates : List (Candidate Binding))
      → bound name (find_gate name gates) ≡ none
      → IsFound gates name
  bound-IsFound name gates h = go (find_gate name gates) refl h
    where
      go :
          (o : Option (Candidate Binding))
          → find_gate name gates ≡ o
          → bound name o ≡ none
          → IsFound gates name
      go none e h = ground (arith, h)
      go (some c) e h =
          let (m, n) = find_gate-Memᴰ name gates c e in
          let (b, k) = has_binding c.go_binding h in
          record { candidate = c; binding = b; listed = m; named = n; bound_to = k }
        where
          has_binding :
              (o : Option Binding)
              → (elim o as (λ x. Option SelectError) [
                | none ↦ some (no_go_binding name)
                | some b ↦ none
              ])
                ≡ none
              → (b : Binding) × (o ≡ some b)
          has_binding none h = ground (arith, h)
          has_binding (some b) h = (b, refl)

  pub check_requested-IsFound :
      (gates : List (Candidate Binding)) (names : List Bytes)
      → check_requested gates names ≡ none
      → All (IsFound gates) names
  unfolding check_requested
  check_requested-IsFound gates [] h = tt
  check_requested-IsFound gates (name ∷ names) h =
      let (a, b) = go (bound name (find_gate name gates)) h in
      (bound-IsFound name gates a, check_requested-IsFound gates names b)
    where
      go :
          (o : Option SelectError)
          → (elim o as (λ x. Option SelectError) [
            | some e ↦ some e
            | none ↦ check_requested gates names
          ])
            ≡ none
          → (o ≡ none) × (check_requested gates names ≡ none)
      go none h = (refl, h)
      go (some e) h = ground (arith, h)
