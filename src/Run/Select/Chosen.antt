-- ===== src/Run/Select/Chosen.antt =====
-- internal/run/run.go: the gates that `selectRequests` chooses.
use togi.Prelude.{
  ℕ, suc, ◌≡◌, refl, sym, ap, subst, ◌∙◌, ◌⊎◌, inl, inr, true, Bool-cases, Option, none, some, List,
  [], ◌∷◌, Memᴰ, arith, All, All-imp, All-Memᴰ,
}
use togi.Text.{Bytes}
use togi.Run.Select.{
  Candidate, Request, SelectError, selected, unique_names, repeated_gate, check_requested,
  is_wanted, add_request, requests_from, some_requests, of_checked, of_known, of_names,
  select_requests,
}
use togi.Run.Select.Names.{IsUnique, unique_names-IsUnique, is_wanted-Memᴰ, no_names}
use togi.Run.Select.Requests.{
  IsChosen, AreAscending, requests_from-AreAscending, requests_from-IsChosen,
}
use togi.Run.Select.Found.{IsFound, check_requested-IsFound}

nothing_given : (ns : List Bytes) → All (λ n. Memᴰ n []) ns → ns ≡ []
nothing_given [] h = refl
nothing_given (n ∷ ns) h = elim h.0 [ ]

module _ {Binding : Type 0} where
  IsChosen-requested :
      (gates : List (Candidate Binding)) (requested ns : List Bytes)
      → IsUnique [] requested ns
      → (r : Request Binding) → IsChosen gates ns r
      → IsChosen gates requested r
  IsChosen-requested gates requested ns u r h = record {
    candidate = h.candidate;
    listed = h.listed;
    gate = h.gate;
    binding = h.binding;
    wanted = elim h.wanted [
      | inl e ↦ inl (no_names requested ns u e)
      | inr m ↦ inr (All-Memᴰ (λ n. Memᴰ n requested) ns u.given m)
    ];
  }

  -- A request for the gate of a name
  abbrev pub HasRequest : List (Request Binding) → Bytes → Type 0
  HasRequest rs name = (r : Request Binding) × Memᴰ r rs × (r.gate ≡ name)

  HasRequest-add_request :
      (n : ℕ) (c : Candidate Binding) (b : Option Binding) (rs : List (Request Binding))
      (name : Bytes)
      → HasRequest rs name
      → HasRequest (add_request n c b rs) name
  HasRequest-add_request n c none rs name h = h
  HasRequest-add_request n c (some b) rs name h = (h.0, Memᴰ.tail h.1, h.2)

  requests_from-HasRequest :
      (n : ℕ) (wanted : List Bytes) (gates : List (Candidate Binding)) (c : Candidate Binding)
      (b : Binding)
      → Memᴰ c gates
      → c.go_binding ≡ some b
      → is_wanted wanted c.name ≡ true
      → HasRequest (requests_from n wanted gates) c.name
  unfolding requests_from
  requests_from-HasRequest n wanted [] c b m k w = elim m [ ]
  requests_from-HasRequest n wanted (d ∷ gates) c b (Memᴰ.head e) k w =
      let want : is_wanted wanted d.name ≡ true = ap (λ x. is_wanted wanted x.name) (sym e) ∙ w in
      let bind : d.go_binding ≡ some b = ap (λ x. x.go_binding) (sym e) ∙ k in
      rw want (
        subst (λ o. HasRequest (add_request n d o (requests_from (suc n) wanted gates)) c.name)
          (sym bind)
          (
            record { gate = d.name; binding = b; position = n },
            Memᴰ.head refl,
            ap (λ x. x.name) (sym e),
          ))
  requests_from-HasRequest n wanted (d ∷ gates) c b (Memᴰ.tail m) k w =
      let rest = requests_from-HasRequest (suc n) wanted gates c b m k w in
      elim (Bool-cases (is_wanted wanted d.name)) [
        | inl e ↦ rw e (
            HasRequest-add_request n d d.go_binding (requests_from (suc n) wanted gates) c.name
              rest)
        | inr e ↦ rw e rest
      ]

  HasRequest-found :
      (gates : List (Candidate Binding)) (ns : List Bytes) (name : Bytes)
      → Memᴰ name ns
      → IsFound gates name
      → HasRequest (requests_from 0 ns gates) name
  HasRequest-found gates ns name m f =
      let wanted = subst (λ n. is_wanted ns n ≡ true) f.named (is_wanted-Memᴰ ns name m) in
      subst (HasRequest (requests_from 0 ns gates)) (sym f.named)
        (requests_from-HasRequest 0 ns gates f.candidate f.binding f.listed f.bound_to wanted)

  -- What `selectRequests` returns
  pub record IsSelected (gates : List (Candidate Binding)) (requested : List Bytes)
      (rs : List (Request Binding)) : Type 0 where
    pub ascending : AreAscending 0 rs
    pub chosen : All (IsChosen gates requested) rs
    pub complete : All (HasRequest rs) requested
    pub unrequested :
        requested ≡ []
        → (c : Candidate Binding) (b : Binding) → Memᴰ c gates
        → c.go_binding ≡ some b
        → HasRequest rs c.name

  unrequested-HasRequest :
      (gates : List (Candidate Binding)) (requested ns : List Bytes)
      → IsUnique [] requested ns
      → requested ≡ []
      → (c : Candidate Binding) (b : Binding) → Memᴰ c gates
      → c.go_binding ≡ some b
      → HasRequest (requests_from 0 ns gates) c.name
  unrequested-HasRequest gates requested ns u e c b m k =
      let none_left : ns ≡ [] = nothing_given ns (subst (λ t. All (λ n. Memᴰ n t) ns) e u.given) in
      requests_from-HasRequest 0 ns gates c b m k (ap (λ t. is_wanted t c.name) none_left)

  IsSelected-requests_from :
      (gates : List (Candidate Binding)) (requested ns : List Bytes)
      → IsUnique [] requested ns
      → check_requested gates ns ≡ none
      → IsSelected gates requested (requests_from 0 ns gates)
  IsSelected-requests_from gates requested ns u h = record {
    ascending = requests_from-AreAscending 0 ns gates;
    unrequested = unrequested-HasRequest gates requested ns u;
    chosen =
        All-imp (IsChosen gates ns) (IsChosen gates requested) (requests_from 0 ns gates)
          (IsChosen-requested gates requested ns u) (requests_from-IsChosen ns gates);
    complete =
        All-imp (λ n. Memᴰ n [] ⊎ Memᴰ n ns) (HasRequest (requests_from 0 ns gates)) requested
          (λ n k. elim k [
            | inl m ↦ nothing n m
            | inr m ↦
                HasRequest-found gates ns n m
                  (All-Memᴰ (IsFound gates) ns (check_requested-IsFound gates ns h) m)
          ])
          u.kept;
  }
    where
      nothing : (n : Bytes) → Memᴰ n [] → HasRequest (requests_from 0 ns gates) n
      nothing n m = elim m [ ]

  some_requests-selected :
      (xs rs : List (Request Binding)) → some_requests xs ≡ selected rs → xs ≡ rs
  some_requests-selected [] rs h = ground (arith, h)
  some_requests-selected (x ∷ xs) rs h = ground (arith, h)

  -- The positions of the requests that `selectRequests` returns ascend strictly, and each request
  -- is for the gate that stands at its position in the list of gates, with its name and its binding
  -- for Go, and which is requested if any is; each requested name has a request, and if none is
  -- requested, each gate with a binding for Go has one.
  pub select_requests-IsSelected :
      (gates : List (Candidate Binding)) (requested : List Bytes) (rs : List (Request Binding))
      → select_requests gates requested ≡ selected rs
      → IsSelected gates requested rs
  unfolding select_requests
  select_requests-IsSelected gates requested rs h = by_names (unique_names [] requested) refl h
    where
      by_checked :
          (ns : List Bytes) (o : Option SelectError)
          → check_requested gates ns ≡ o
          → IsUnique [] requested ns
          → of_checked gates ns o ≡ selected rs
          → IsSelected gates requested rs
      by_checked ns none e u k =
          subst (IsSelected gates requested)
            (some_requests-selected (requests_from 0 ns gates) rs k)
            (IsSelected-requests_from gates requested ns u e)
      by_checked ns (some x) e u k = ground (arith, k)

      by_known :
          (ns : List Bytes) (o : Option Bytes)
          → IsUnique [] requested ns
          → of_known gates ns o ≡ selected rs
          → IsSelected gates requested rs
      by_known ns none u k = by_checked ns (check_requested gates ns) refl u k
      by_known ns (some x) u k = ground (arith, k)

      by_names :
          (o : Option (List Bytes))
          → unique_names [] requested ≡ o
          → of_names gates o ≡ selected rs
          → IsSelected gates requested rs
      by_names none e k = ground (arith, k)
      by_names (some ns) e k =
          by_known ns (repeated_gate [] gates) (unique_names-IsUnique [] requested ns e) k
