-- ===== src/Run/Select/Requests.antt =====
-- internal/run/run.go: the requests of `selectRequests`, in order.
use togi.Prelude.{
  ℕ, suc, ◌-◌, ◌∙◌, ap, get_elem?, ◌≤◌, ◌≡◌, refl, ◌⊎◌, inl, inr, true, Bool-cases, Option, none,
  some, List, [], ◌∷◌, Memᴰ, arith, All, All-imp,
}
use togi.Text.{Bytes}
use togi.Run.Select.{Candidate, Request, is_wanted, add_request, requests_from}
use togi.Run.Select.Names.{is_wanted-cases}

module _ {Binding : Type 0} where
  -- A request is for the gate at its position in the list, which has a binding for Go and is wanted.
  pub record IsChosen (gates : List (Candidate Binding)) (requested : List Bytes)
      (r : Request Binding) : Type 0 where
    pub candidate : Candidate Binding
    pub listed : get_elem? gates r.position ≡ some candidate
    pub gate : candidate.name ≡ r.gate
    pub binding : candidate.go_binding ≡ some r.binding
    pub wanted : (requested ≡ []) ⊎ Memᴰ r.gate requested

  -- The positions ascend, from one on.
  abbrev pub AreAscending : ℕ → List (Request Binding) → Type 0
  AreAscending n [] = Unit
  AreAscending n (r ∷ rs) = (n ≤ r.position) × AreAscending (suc r.position) rs

  AreAscending-weaken :
      (m n : ℕ) (rs : List (Request Binding)) → m ≤ n → AreAscending n rs → AreAscending m rs
  AreAscending-weaken m n [] h a = tt
  AreAscending-weaken m n (r ∷ rs) h a = (omega (arith, h, a.0), a.1)

  AreAscending-add_request :
      (n : ℕ) (c : Candidate Binding) (b : Option Binding) (rs : List (Request Binding))
      → AreAscending (suc n) rs
      → AreAscending n (add_request n c b rs)
  AreAscending-add_request n c none rs h = AreAscending-weaken n (suc n) rs (omega arith) h
  AreAscending-add_request n c (some b) rs h = (omega arith, h)

  pub requests_from-AreAscending :
      (n : ℕ) (wanted : List Bytes) (gates : List (Candidate Binding))
      → AreAscending n (requests_from n wanted gates)
  unfolding requests_from
  requests_from-AreAscending n wanted [] = tt
  requests_from-AreAscending n wanted (c ∷ cs) =
      let rest = requests_from-AreAscending (suc n) wanted cs in
      elim (Bool-cases (is_wanted wanted c.name)) [
        | inl e ↦ rw e (AreAscending-add_request n c c.go_binding _ rest)
        | inr e ↦
            rw e
              (AreAscending-weaken n (suc n) (requests_from (suc n) wanted cs) (omega arith) rest)
      ]

  -- A request for a gate of a list whose first gate has the position n.
  record IsChosenFrom (n : ℕ) (gates : List (Candidate Binding)) (requested : List Bytes)
      (r : Request Binding) : Type 0 where
    pub from : n ≤ r.position
    pub candidate : Candidate Binding
    pub listed : get_elem? gates (r.position - n) ≡ some candidate
    pub gate : candidate.name ≡ r.gate
    pub binding : candidate.go_binding ≡ some r.binding
    pub wanted : (requested ≡ []) ⊎ Memᴰ r.gate requested

  IsChosenFrom-more :
      (n : ℕ) (c : Candidate Binding) (cs : List (Candidate Binding)) (wanted : List Bytes)
      (r : Request Binding)
      → IsChosenFrom (suc n) cs wanted r
      → IsChosenFrom n (c ∷ cs) wanted r
  IsChosenFrom-more n c cs wanted r h = record {
    from = omega (arith, h.from);
    candidate = h.candidate;
    listed = ap (get_elem? (c ∷ cs)) at_next ∙ h.listed;
    gate = h.gate;
    binding = h.binding;
    wanted = h.wanted;
  }
    where
      at_next : r.position - n ≡ suc (r.position - suc n)
      at_next = omega (arith, h.from)

  add_request-IsChosenFrom :
      (n : ℕ) (c : Candidate Binding) (cs : List (Candidate Binding)) (wanted : List Bytes)
      (b : Option Binding) (rs : List (Request Binding))
      → c.go_binding ≡ b
      → is_wanted wanted c.name ≡ true
      → All (IsChosenFrom n (c ∷ cs) wanted) rs
      → All (IsChosenFrom n (c ∷ cs) wanted) (add_request n c b rs)
  add_request-IsChosenFrom n c cs wanted none rs e w h = h
  add_request-IsChosenFrom n c cs wanted (some b) rs e w h = (
    record {
      from = omega arith;
      candidate = c;
      listed = at_first;
      gate = refl;
      binding = e;
      wanted = is_wanted-cases wanted c.name w;
    },
    h,
  )
    where
      at_first : get_elem? (c ∷ cs) (n - n) ≡ some c
      at_first = rw (same n) refl
        where
          same : (m : ℕ) → m - m ≡ 0
          same m = omega arith

  requests_from-IsChosenFrom :
      (n : ℕ) (wanted : List Bytes) (gates : List (Candidate Binding))
      → All (IsChosenFrom n gates wanted) (requests_from n wanted gates)
  unfolding requests_from
  requests_from-IsChosenFrom n wanted [] = tt
  requests_from-IsChosenFrom n wanted (c ∷ cs) =
      let rest =
        All-imp (IsChosenFrom (suc n) cs wanted) (IsChosenFrom n (c ∷ cs) wanted)
          (requests_from (suc n) wanted cs) (IsChosenFrom-more n c cs wanted)
          (requests_from-IsChosenFrom (suc n) wanted cs) in
      elim (Bool-cases (is_wanted wanted c.name)) [
        | inl e ↦ rw e (add_request-IsChosenFrom n c cs wanted c.go_binding _ refl e rest)
        | inr e ↦ rw e rest
      ]

  -- Every request is for the gate at its position.
  pub requests_from-IsChosen :
      (wanted : List Bytes) (gates : List (Candidate Binding))
      → All (IsChosen gates wanted) (requests_from 0 wanted gates)
  requests_from-IsChosen wanted gates =
      All-imp (IsChosenFrom 0 gates wanted) (IsChosen gates wanted) (requests_from 0 wanted gates)
        whole (requests_from-IsChosenFrom 0 wanted gates)
    where
      whole : (r : Request Binding) → IsChosenFrom 0 gates wanted r → IsChosen gates wanted r
      whole r h = record {
        candidate = h.candidate;
        listed = ap (get_elem? gates) {y = r.position - 0} (omega arith) ∙ h.listed;
        gate = h.gate;
        binding = h.binding;
        wanted = h.wanted;
      }
