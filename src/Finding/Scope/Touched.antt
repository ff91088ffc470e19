-- ===== src/Finding/Scope/Touched.antt =====
-- internal/finding/scope.go: which locations are kept.
use togi.Prelude.{
  ◌≡◌, refl, sym, subst, ◌↔◌, inl, inr, Bool, true, false, Bool-cases, List, [], ◌∷◌, arith, Memᴰ,
  ◌&&◌, if◌then◌else◌,
}
use togi.Prelude.Int.{◌≤ℤ◌, leb_ℤ}
use togi.Prelude.Sort.{sort, insert}
use togi.Text.{Bytes}
use togi.Finding.{Occurrence, Finding}
use togi.Finding.Group.{locations_of, less_occurrence}
use togi.Finding.Scope.{
  LineRange, ChangedLines, lookup_ranges, location_end, overlaps_changed, survivors_of, narrowed,
  touch_finding,
}

-- A changed range that a location shares a line with.
pub record IsTouched (l : Occurrence) (ranges : List LineRange) : Type 0 where
  pub range : LineRange
  pub among : Memᴰ range ranges
  pub starts : l.line ≤ℤ range.end
  pub ends : range.start ≤ℤ location_end l

-- A location of one of the findings.
pub record IsLocated (l : Occurrence) (fs : List Finding) : Type 0 where
  pub found : Finding
  pub kept : Memᴰ found fs
  pub located : Memᴰ l (locations_of found)

IsTouched-of :
    (l : Occurrence) (rs : List LineRange) → overlaps_changed l rs ≡ true → IsTouched l rs
unfolding overlaps_changed
IsTouched-of l [] h = cc
IsTouched-of l (r ∷ rs) h =
    elim (Bool-cases (leb_ℤ l.line r.end && leb_ℤ r.start (location_end l))) [
      | inl e ↦ record {
        range = r;
        among = Memᴰ.head refl;
        starts = ground (arith, e);
        ends = ground (arith, e);
      }
      | inr e ↦
          let t = IsTouched-of l rs (ground (arith, e, h)) in
          record { range = t.range; among = Memᴰ.tail t.among; starts = t.starts; ends = t.ends }
    ]

overlaps_of :
    (l : Occurrence) (r : LineRange) (rs : List LineRange)
    → Memᴰ r rs
    → l.line ≤ℤ r.end
    → r.start ≤ℤ location_end l
    → overlaps_changed l rs ≡ true
unfolding overlaps_changed
overlaps_of l r [] m s t = elim m [ ]
overlaps_of l r (q ∷ rs) (Memᴰ.head e) s t =
    let s' : l.line ≤ℤ q.end = subst (λ x. l.line ≤ℤ x.end) e s in
    let t' : q.start ≤ℤ location_end l = subst (λ x. x.start ≤ℤ location_end l) e t in
    ground (arith, s', t')
overlaps_of l r (q ∷ rs) (Memᴰ.tail m) s t = ground (arith, overlaps_of l r rs m s t)

Mem-survivors :
    (l : Occurrence) (rs : List LineRange) (ls : List Occurrence)
    → Memᴰ l (survivors_of rs ls)
    → Memᴰ l ls × (overlaps_changed l rs ≡ true)
unfolding survivors_of
Mem-survivors l rs [] m = elim m [ ]
Mem-survivors l rs (x ∷ ls) m = go (overlaps_changed x rs) refl m (Mem-survivors l rs ls)
  where
    go :
        (b : Bool)
        → overlaps_changed x rs ≡ b
        → Memᴰ l (if b then x ∷ survivors_of rs ls else survivors_of rs ls)
        → (Memᴰ l (survivors_of rs ls) → Memᴰ l ls × (overlaps_changed l rs ≡ true))
        → Memᴰ l (x ∷ ls) × (overlaps_changed l rs ≡ true)
    go true e (Memᴰ.head p) rec = (Memᴰ.head p, subst (λ t. overlaps_changed t rs ≡ true) (sym p) e)
    go true e (Memᴰ.tail n) rec = let (a, b) = rec n in (Memᴰ.tail a, b)
    go false e n rec = let (a, b) = rec n in (Memᴰ.tail a, b)

survivors-Mem :
    (l : Occurrence) (rs : List LineRange) (ls : List Occurrence)
    → Memᴰ l ls
    → overlaps_changed l rs ≡ true
    → Memᴰ l (survivors_of rs ls)
unfolding survivors_of
survivors-Mem l rs [] m h = elim m [ ]
survivors-Mem l rs (x ∷ ls) (Memᴰ.head p) h =
    rw (subst (λ t. overlaps_changed t rs ≡ true) p h) (Memᴰ.head p)
survivors-Mem l rs (x ∷ ls) (Memᴰ.tail m) h = go (overlaps_changed x rs) (survivors-Mem l rs ls m h)
  where
    go :
        (b : Bool)
        → Memᴰ l (survivors_of rs ls)
        → Memᴰ l (if b then x ∷ survivors_of rs ls else survivors_of rs ls)
    go true n = Memᴰ.tail n
    go false n = n

-- Sorting keeps the members.
module _ {A : Type 0} (less : A → A → Bool) where
  Mem-insert : (a x : A) (ys : List A) → Memᴰ a (insert less x ys) → Memᴰ a (x ∷ ys)
  unfolding insert
  Mem-insert a x [] m = m
  Mem-insert a x (y ∷ ys) m = go (less y x) m (Mem-insert a x ys)
    where
      go :
          (b : Bool)
          → Memᴰ a (if b then y ∷ insert less x ys else x ∷ y ∷ ys)
          → (Memᴰ a (insert less x ys) → Memᴰ a (x ∷ ys))
          → Memᴰ a (x ∷ y ∷ ys)
      go false n rec = n
      go true (Memᴰ.head e) rec = Memᴰ.tail (Memᴰ.head e)
      go true (Memᴰ.tail n) rec = behind (rec n)
        where
          behind : Memᴰ a (x ∷ ys) → Memᴰ a (x ∷ y ∷ ys)
          behind (Memᴰ.head e) = Memᴰ.head e
          behind (Memᴰ.tail k) = Memᴰ.tail (Memᴰ.tail k)

  insert-Mem : (a x : A) (ys : List A) → Memᴰ a (x ∷ ys) → Memᴰ a (insert less x ys)
  unfolding insert
  insert-Mem a x [] m = m
  insert-Mem a x (y ∷ ys) m = go (less y x) m (insert-Mem a x ys)
    where
      go :
          (b : Bool)
          → Memᴰ a (x ∷ y ∷ ys)
          → (Memᴰ a (x ∷ ys) → Memᴰ a (insert less x ys))
          → Memᴰ a (if b then y ∷ insert less x ys else x ∷ y ∷ ys)
      go false n rec = n
      go true (Memᴰ.head e) rec = Memᴰ.tail (rec (Memᴰ.head e))
      go true (Memᴰ.tail (Memᴰ.head e)) rec = Memᴰ.head e
      go true (Memᴰ.tail (Memᴰ.tail k)) rec = Memᴰ.tail (rec (Memᴰ.tail k))

  Mem-sort : (a : A) (xs : List A) → Memᴰ a (sort less xs) → Memᴰ a xs
  unfolding sort
  Mem-sort a [] m = m
  Mem-sort a (x ∷ xs) m = go (Mem-insert a x (sort less xs) m) (Mem-sort a xs)
    where
      go : Memᴰ a (x ∷ sort less xs) → (Memᴰ a (sort less xs) → Memᴰ a xs) → Memᴰ a (x ∷ xs)
      go (Memᴰ.head e) rec = Memᴰ.head e
      go (Memᴰ.tail k) rec = Memᴰ.tail (rec k)

  sort-Mem : (a : A) (xs : List A) → Memᴰ a xs → Memᴰ a (sort less xs)
  unfolding sort
  sort-Mem a [] m = m
  sort-Mem a (x ∷ xs) (Memᴰ.head e) = insert-Mem a x (sort less xs) (Memᴰ.head e)
  sort-Mem a (x ∷ xs) (Memᴰ.tail m) = insert-Mem a x (sort less xs) (Memᴰ.tail (sort-Mem a xs m))

Mem-narrowed :
    (l : Occurrence) (f : Finding) (file : Bytes) (ls : List Occurrence)
    → IsLocated l (narrowed f file ls) ↔ Memᴰ l ls
Mem-narrowed l f file [] = (λ h. elim h.kept [ ], λ m. elim m [ ])
Mem-narrowed l f file (x ∷ ls) = (
  λ h. here h.found h.kept h.located,
  λ m. record { found = _; kept = Memᴰ.head refl; located = m },
)
  where
    here :
        (g : Finding)
        → Memᴰ g (narrowed f file (x ∷ ls))
        → Memᴰ l (locations_of g)
        → Memᴰ l (x ∷ ls)
    here g (Memᴰ.head e) m = subst (λ t. Memᴰ l (locations_of t)) e m
    here g (Memᴰ.tail n) m = elim n [ ]

-- What is kept of a finding at a file has a location exactly when the finding has it and it overlaps
-- a range of the file.
pub touch_finding-locations :
    (changed : ChangedLines) (f : Finding) (file : Bytes) (l : Occurrence)
    → IsLocated l (touch_finding changed f file)
      ↔ (Memᴰ l (locations_of f) × IsTouched l (lookup_ranges file changed))
unfolding touch_finding
touch_finding-locations changed f file l =
    let rs = lookup_ranges file changed in
    let kept = survivors_of rs (locations_of f) in
    let narrow = Mem-narrowed l f file (sort less_occurrence kept) in
    (
      λ h.
          let (m, o) =
            Mem-survivors l rs (locations_of f) (Mem-sort less_occurrence l kept (narrow.0 h)) in
          (m, IsTouched-of l rs o),
      λ h. narrow.1 (
          sort-Mem less_occurrence l kept (
            survivors-Mem l rs (locations_of f) h.0
              (overlaps_of l h.1.range rs h.1.among h.1.starts h.1.ends))),
    )
