-- ===== src/Finding/Scope/Changed.antt =====
-- internal/finding/scope.go: the ranges of a file in the validated changed lines.
use togi.Prelude.{
  ℕ, suc, ◌≡◌, refl, sym, ap, subst, ◌∙◌, ◌⊎◌, inl, inr, Bool, true, false, Bool-cases, Option,
  none, some, List, [], ◌∷◌, ◌++◌, arith, Memᴰ, Memᴰ-append, Memᴰ-append_left, Memᴰ-append_right,
  if◌then◌else◌,
}
use togi.Prelude.Int.{◌≤ℤ◌}
use mathlib.Core.List.{append-nil}
use togi.Text.{Bytes, bytes_eqb}
use togi.Text.Order.{bytes_eqb_iff}
use togi.Finding.FilePath.{PathResult, minted, refused, parse_path}
use togi.Finding.Scope.{
  LineRange, ChangedLines, ScopeResult, ok, err, changed_path, changed_range, bad_range, add_ranges,
  validated_from, lookup_ranges,
}

-- A range that the changed lines have for a path of a file.
pub record HasRange (changed : ChangedLines) (file : Bytes) (r : LineRange) : Type 0 where
  pub path : Bytes
  pub ranges : List LineRange
  pub listed : Memᴰ (path, ranges) changed
  pub names : parse_path path ≡ minted file
  pub among : Memᴰ r ranges

-- The ranges, where the keys are the same.
abbrev ranges_at : Bytes → Bytes → List LineRange → List LineRange
ranges_at file key rs = if bytes_eqb file key then rs else []

lookup_ranges-add_ranges :
    (file key : Bytes) (rs : List LineRange) (m : ChangedLines)
    → lookup_ranges file (add_ranges key rs m) ≡ lookup_ranges file m ++ ranges_at file key rs
unfolding lookup_ranges add_ranges
lookup_ranges-add_ranges file key rs [] = refl
lookup_ranges-add_ranges file key rs ((k, qs) ∷ m) = elim (Bool-cases (bytes_eqb key k)) [
  | inl e ↦ rw e (
      subst
        (λ t.
          (if bytes_eqb file k then qs ++ rs else lookup_ranges file m)
          ≡ (if bytes_eqb file k then qs else lookup_ranges file m) ++ ranges_at file t rs)
        (sym ((bytes_eqb_iff key k).0 e)) (same (bytes_eqb file k)))
  | inr e ↦ rw e (other (bytes_eqb file k) refl e (lookup_ranges-add_ranges file key rs m))
]
  where
    same :
        (b : Bool)
        → (if b then qs ++ rs else lookup_ranges file m)
          ≡ (if b then qs else lookup_ranges file m) ++ (if b then rs else [])
    same true = refl
    same false = sym (append-nil (lookup_ranges file m))

    apart : bytes_eqb file k ≡ true → bytes_eqb key k ≡ false → bytes_eqb file key ≡ false
    apart p q = elim (Bool-cases (bytes_eqb file key)) [
      | inl e ↦ cc ((bytes_eqb_iff file key).0 e, p, q)
      | inr e ↦ e
    ]

    other :
        (b : Bool)
        → bytes_eqb file k ≡ b
        → bytes_eqb key k ≡ false
        → lookup_ranges file (add_ranges key rs m) ≡ lookup_ranges file m ++ ranges_at file key rs
        → (if b then qs else lookup_ranges file (add_ranges key rs m))
          ≡ (if b then qs else lookup_ranges file m) ++ ranges_at file key rs
    other true p q rec = rw (apart p q) (sym (append-nil qs))
    other false p q rec = rec

-- The ranges of a file are those that were there, and those of its paths.
HasRange-more :
    (e : Bytes × List LineRange) (changed : ChangedLines) (file : Bytes) (r : LineRange)
    → HasRange changed file r
    → HasRange (e ∷ changed) file r
HasRange-more e changed file r h = record {
  path = h.path;
  ranges = h.ranges;
  listed = Memᴰ.tail h.listed;
  names = h.names;
  among = h.among;
}

-- What the validation found of the first entry.
validated-first :
    (acc changed paths : ChangedLines) (path : Bytes) (ranges : List LineRange)
    → validated_from acc ((path, ranges) ∷ changed) ≡ ok paths
    → (canonical : Bytes) × (parse_path path ≡ minted canonical)
      × (bad_range 0 ranges ≡ none)
      × (validated_from (add_ranges canonical ranges acc) changed ≡ ok paths)
unfolding validated_from
validated-first acc changed paths path ranges h = by_path (parse_path path) refl h
  where
    by_range :
        (canonical : Bytes) (o : Option ℕ)
        → bad_range 0 ranges ≡ o
        → (elim o as (λ _. ScopeResult ChangedLines) [
          | some index ↦ err (changed_range path index)
          | none ↦ validated_from (add_ranges canonical ranges acc) changed
        ])
          ≡ ok paths
        → (bad_range 0 ranges ≡ none)
          × (validated_from (add_ranges canonical ranges acc) changed ≡ ok paths)
    by_range canonical none e k = (e, k)
    by_range canonical (some index) e k = cc k

    by_path :
        (p : PathResult)
        → parse_path path ≡ p
        → (elim p as (λ _. ScopeResult ChangedLines) [
          | refused e ↦ err (changed_path e)
          | minted canonical ↦ elim (bad_range 0 ranges) [
            | some index ↦ err (changed_range path index)
            | none ↦ validated_from (add_ranges canonical ranges acc) changed
          ]
        ])
          ≡ ok paths
        → (canonical : Bytes) × (parse_path path ≡ minted canonical)
          × (bad_range 0 ranges ≡ none)
          × (validated_from (add_ranges canonical ranges acc) changed ≡ ok paths)
    by_path (refused x) e k = cc k
    by_path (minted canonical) e k =
        let (a, b) = by_range canonical (bad_range 0 ranges) refl k in (canonical, e, a, b)

injective_ok : (a b : ChangedLines) → ok a ≡ ok b → a ≡ b
injective_ok a b h = ap content h
  where
    content : ScopeResult ChangedLines → ChangedLines
    content (ok x) = x
    content (err e) = a

pub validated_from→HasRange :
    (acc changed paths : ChangedLines) (file : Bytes) (r : LineRange)
    → validated_from acc changed ≡ ok paths
    → Memᴰ r (lookup_ranges file paths)
    → Memᴰ r (lookup_ranges file acc) ⊎ HasRange changed file r
validated_from→HasRange acc [] paths file r h m = inl (
    subst (λ t. Memᴰ r (lookup_ranges file t))
      (sym (injective_ok acc paths (unfold validated_from in h))) m)
validated_from→HasRange acc ((path, ranges) ∷ changed) paths file r h m =
    let (canonical, names, valid, rest) = validated-first acc changed paths path ranges h in
    elim (validated_from→HasRange (add_ranges canonical ranges acc) changed paths file r rest m) [
      | inl k ↦
          by_key canonical names
            (subst (λ t. Memᴰ r t) (lookup_ranges-add_ranges file canonical ranges acc) k)
      | inr k ↦ inr (HasRange-more (path, ranges) changed file r k)
    ]
  where
    here :
        (canonical : Bytes)
        → parse_path path ≡ minted canonical
        → Memᴰ r (ranges_at file canonical ranges)
        → HasRange ((path, ranges) ∷ changed) file r
    here canonical names k = go (bytes_eqb file canonical) refl k
      where
        go :
            (b : Bool)
            → bytes_eqb file canonical ≡ b
            → Memᴰ r (if b then ranges else [])
            → HasRange ((path, ranges) ∷ changed) file r
        go true e k = record {
          path = path;
          ranges = ranges;
          listed = Memᴰ.head refl;
          names = names ∙ ap minted (sym ((bytes_eqb_iff file canonical).0 e));
          among = k;
        }
        go false e k = elim k [ ]

    by_key :
        (canonical : Bytes)
        → parse_path path ≡ minted canonical
        → Memᴰ r (lookup_ranges file acc ++ ranges_at file canonical ranges)
        → Memᴰ r (lookup_ranges file acc) ⊎ HasRange ((path, ranges) ∷ changed) file r
    by_key canonical names k = elim (Memᴰ-append (lookup_ranges file acc) k) [
      | inl a ↦ inl a
      | inr b ↦ inr (here canonical names b)
    ]

HasRange-cases :
    (path : Bytes) (ranges : List LineRange) (changed : ChangedLines) (file : Bytes) (r : LineRange)
    → HasRange ((path, ranges) ∷ changed) file r
    → ((parse_path path ≡ minted file) × Memᴰ r ranges) ⊎ HasRange changed file r
HasRange-cases path ranges changed file r h = go h.listed
  where
    go :
        Memᴰ (h.path, h.ranges) ((path, ranges) ∷ changed)
        → ((parse_path path ≡ minted file) × Memᴰ r ranges) ⊎ HasRange changed file r
    go (Memᴰ.head e) =
        inl (sym (ap (λ t. parse_path t.0) e) ∙ h.names, subst (λ t. Memᴰ r t.1) e h.among)
    go (Memᴰ.tail m) =
        inr (record {
          path = h.path;
          ranges = h.ranges;
          listed = m;
          names = h.names;
          among = h.among;
        })

ranges_at-same :
    (file : Bytes) (ranges : List LineRange) (r : LineRange)
    → Memᴰ r ranges
    → Memᴰ r (ranges_at file file ranges)
ranges_at-same file ranges r m = rw ((bytes_eqb_iff file file).1 refl) m

pub HasRange→validated_from :
    (acc changed paths : ChangedLines) (file : Bytes) (r : LineRange)
    → validated_from acc changed ≡ ok paths
    → Memᴰ r (lookup_ranges file acc) ⊎ HasRange changed file r
    → Memᴰ r (lookup_ranges file paths)
HasRange→validated_from acc [] paths file r h (inl m) =
    subst (λ t. Memᴰ r (lookup_ranges file t)) (injective_ok acc paths (unfold validated_from in h))
      m
HasRange→validated_from acc [] paths file r h (inr k) = elim k.listed [ ]
HasRange→validated_from acc ((path, ranges) ∷ changed) paths file r h k =
    let (canonical, names, valid, rest) = validated-first acc changed paths path ranges h in
    HasRange→validated_from (add_ranges canonical ranges acc) changed paths file r rest
      (forward canonical names k)
  where
    added :
        (canonical : Bytes)
        → Memᴰ r (lookup_ranges file acc ++ ranges_at file canonical ranges)
        → Memᴰ r (lookup_ranges file (add_ranges canonical ranges acc))
    added canonical m =
        subst (λ t. Memᴰ r t) (sym (lookup_ranges-add_ranges file canonical ranges acc)) m

    minted_same : (a b : Bytes) → minted a ≡ minted b → a ≡ b
    minted_same a b e = ap content e
      where
        content : PathResult → Bytes
        content (minted x) = x
        content (refused x) = a

    forward :
        (canonical : Bytes)
        → parse_path path ≡ minted canonical
        → Memᴰ r (lookup_ranges file acc) ⊎ HasRange ((path, ranges) ∷ changed) file r
        → Memᴰ r (lookup_ranges file (add_ranges canonical ranges acc)) ⊎ HasRange changed file r
    forward canonical names (inl m) =
        inl (added canonical (Memᴰ-append_left (ranges_at file canonical ranges) m))
    forward canonical names (inr q) = elim (HasRange-cases path ranges changed file r q) [
      | inl a ↦ inl (
          added canonical (
            Memᴰ-append_right (lookup_ranges file acc) (
              subst (λ t. Memᴰ r (ranges_at file t ranges))
                (minted_same file canonical (sym a.0 ∙ names)) (ranges_at-same file ranges r a.1))))
      | inr b ↦ inr b
    ]

-- The validation accepts only ranges that begin at line 1 or behind, and do not end before.
bad_range-none :
    (index : ℕ) (ranges : List LineRange) (r : LineRange)
    → bad_range index ranges ≡ none
    → Memᴰ r ranges
    → r.start ≤ℤ r.end
unfolding bad_range
bad_range-none index [] r h m = elim m [ ]
bad_range-none index (q ∷ ranges) r h (Memᴰ.head e) =
    let k : q.start ≤ℤ q.end = ground (arith, h) in subst (λ t. t.start ≤ℤ t.end) (sym e) k
bad_range-none index (q ∷ ranges) r h (Memᴰ.tail m) =
    bad_range-none (suc index) ranges r (ground (arith, h)) m

pub HasRange-valid :
    (acc changed paths : ChangedLines) (file : Bytes) (r : LineRange)
    → validated_from acc changed ≡ ok paths
    → HasRange changed file r
    → r.start ≤ℤ r.end
HasRange-valid acc [] paths file r h k = elim k.listed [ ]
HasRange-valid acc ((path, ranges) ∷ changed) paths file r h k =
    let (canonical, names, valid, rest) = validated-first acc changed paths path ranges h in
    elim (HasRange-cases path ranges changed file r k) [
      | inl a ↦ bad_range-none 0 ranges r valid a.1
      | inr b ↦ HasRange-valid (add_ranges canonical ranges acc) changed paths file r rest b
    ]
