-- ===== src/Gate/Version/Order.antt =====
-- internal/gate/version.go: the comparison of versions as an order.
use togi.Prelude.{◌≡◌, refl, ap, sym, List, [], ◌∷◌, arith}
use togi.Prelude.Order.{less_asym}
use togi.Text.{Bytes}
use togi.Text.Order.{bytes-IsStrictOrder}
use togi.Gate.Version.{
  PrereleaseIdentifier, SemanticVersion, Comparison, below, same, above, or_else, compare_bytes,
  compare_numeric_identifiers, compare_prerelease_identifier, compare_prereleases, compare_releases,
  compare_semantic_versions,
}

abbrev pub opposite : Comparison → Comparison
opposite below = above
opposite same = same
opposite above = below

-- A comparison that orders: the sides can be exchanged, only equals are the same, and it is
-- transitive.
pub record IsComparison {A : Type 0} (compare : A → A → Comparison) : Type 0 where
  pub flip : (a b : A) → compare b a ≡ opposite (compare a b)
  pub reflexive : (a : A) → compare a a ≡ same
  pub equal : (a b : A) → compare a b ≡ same → a ≡ b
  pub trans : (a b c : A) → compare a b ≡ below → compare b c ≡ below → compare a c ≡ below

bytes-IsComparison : IsComparison compare_bytes
bytes-IsComparison = record {
  flip = λ a b. ground (arith, less_asym bytes-IsStrictOrder a b);
  reflexive = λ a. ground (arith, bytes-IsStrictOrder.irrefl a);
  equal = λ a b h. ground (arith, h, bytes-IsStrictOrder.total a b);
  trans = λ a b c h k. ground (arith, h, k, bytes-IsStrictOrder.trans a b c);
}

numeric-IsComparison : IsComparison compare_numeric_identifiers
unfolding compare_numeric_identifiers
numeric-IsComparison = record {
  flip = λ a b. ground (arith, less_asym bytes-IsStrictOrder a b);
  reflexive = λ a. ground (arith, bytes-IsStrictOrder.irrefl a);
  equal = λ a b h. ground (arith, h, bytes-IsStrictOrder.total a b);
  trans = λ a b c h k. ground (arith, h, k, bytes-IsStrictOrder.trans a b c);
}

or_else_trans :
    (p q r p' q' r' : Comparison)
    → or_else p p' ≡ below
    → or_else q q' ≡ below
    → (p ≡ below → q ≡ below → r ≡ below)
    → (p ≡ same → r ≡ q)
    → (q ≡ same → r ≡ p)
    → (p' ≡ below → q' ≡ below → r' ≡ below)
    → or_else r r' ≡ below
or_else_trans p q r p' q' r' h k t l m t' = ground arith

opposite-or_else : (p q : Comparison) → opposite (or_else p q) ≡ or_else (opposite p) (opposite q)
opposite-or_else below q = refl
opposite-or_else same q = refl
opposite-or_else above q = refl

or_else_same : (p q : Comparison) → or_else p q ≡ same → (p ≡ same) × (q ≡ same)
or_else_same below q h = cc
or_else_same same q h = (refl, h)
or_else_same above q h = cc

-- The second comparison is asked where the first finds no difference.
module _ {A B : Type 0} {f : A → A → Comparison} {g : B → B → Comparison} (F : IsComparison f)
    (G : IsComparison g) where
  lex-IsComparison : IsComparison (λ (x y : A × B). or_else (f x.0 y.0) (g x.1 y.1))
  lex-IsComparison = record {
    flip =
        λ x y. rw (F.flip x.0 y.0, G.flip x.1 y.1) (sym (opposite-or_else (f x.0 y.0) (g x.1 y.1)));
    reflexive = λ x. rw (F.reflexive x.0, G.reflexive x.1) refl;
    equal = λ x y h.
        let (p, q) = or_else_same (f x.0 y.0) (g x.1 y.1) h in
        λ i. (F.equal x.0 y.0 p i, G.equal x.1 y.1 q i);
    trans = λ x y z h k.
        or_else_trans (f x.0 y.0) (f y.0 z.0) (f x.0 z.0) (g x.1 y.1) (g y.1 z.1) (g x.1 z.1) h k
          (F.trans x.0 y.0 z.0) (λ e. ap (λ t. f t z.0) (F.equal x.0 y.0 e))
          (λ e. ap (λ t. f x.0 t) (sym (F.equal y.0 z.0 e))) (G.trans x.1 y.1 z.1);
  }

identifier_ext : (a b : PrereleaseIdentifier) → a.numeric ≡ b.numeric → a.value ≡ b.value → a ≡ b
identifier_ext a b p q i = record { value = q i; numeric = p i }

identifier-IsComparison : IsComparison compare_prerelease_identifier
unfolding compare_prerelease_identifier
identifier-IsComparison = record {
  flip = λ a b.
      ground
        (arith, numeric-IsComparison.flip a.value b.value, bytes-IsComparison.flip a.value b.value);
  reflexive = λ a.
      ground (arith, numeric-IsComparison.reflexive a.value, bytes-IsComparison.reflexive a.value);
  equal = λ a b h.
      let n : a.numeric ≡ b.numeric = ground (arith, h) in
      let v : a.value ≡ b.value = ground (
        arith,
        h,
        numeric-IsComparison.equal a.value b.value,
        bytes-IsComparison.equal a.value b.value,
      ) in
      identifier_ext a b n v;
  trans = λ a b c h k. ground (
    arith,
    h,
    k,
    numeric-IsComparison.trans a.value b.value c.value,
    bytes-IsComparison.trans a.value b.value c.value,
  );
}

prereleases_flip :
    (as' bs : List PrereleaseIdentifier)
    → compare_prereleases bs as' ≡ opposite (compare_prereleases as' bs)
unfolding compare_prereleases
prereleases_flip [] [] = refl
prereleases_flip [] (b ∷ bs) = refl
prereleases_flip (a ∷ as') [] = refl
prereleases_flip (a ∷ as') (b ∷ bs) =
    rw (identifier-IsComparison.flip a b, prereleases_flip as' bs)
      (sym (opposite-or_else (compare_prerelease_identifier a b) (compare_prereleases as' bs)))

prereleases_reflexive : (as' : List PrereleaseIdentifier) → compare_prereleases as' as' ≡ same
unfolding compare_prereleases
prereleases_reflexive [] = refl
prereleases_reflexive (a ∷ as') =
    rw (identifier-IsComparison.reflexive a) (prereleases_reflexive as')

prereleases_equal :
    (as' bs : List PrereleaseIdentifier) → compare_prereleases as' bs ≡ same → as' ≡ bs
unfolding compare_prereleases
prereleases_equal [] [] h = refl
prereleases_equal [] (b ∷ bs) h = cc
prereleases_equal (a ∷ as') [] h = cc
prereleases_equal (a ∷ as') (b ∷ bs) h =
    let (p, q) = or_else_same (compare_prerelease_identifier a b) (compare_prereleases as' bs) h in
    λ i. identifier-IsComparison.equal a b p i ∷ prereleases_equal as' bs q i

prereleases_trans :
    (as' bs cs : List PrereleaseIdentifier)
    → compare_prereleases as' bs ≡ below
    → compare_prereleases bs cs ≡ below
    → compare_prereleases as' cs ≡ below
unfolding compare_prereleases
prereleases_trans [] [] cs h k = cc
prereleases_trans [] (b ∷ bs) [] h k = cc
prereleases_trans [] (b ∷ bs) (c ∷ cs) h k = refl
prereleases_trans (a ∷ as') [] cs h k = cc
prereleases_trans (a ∷ as') (b ∷ bs) [] h k = cc
prereleases_trans (a ∷ as') (b ∷ bs) (c ∷ cs) h k =
    or_else_trans (compare_prerelease_identifier a b) (compare_prerelease_identifier b c)
      (compare_prerelease_identifier a c) (compare_prereleases as' bs) (compare_prereleases bs cs)
      (compare_prereleases as' cs) h k (identifier-IsComparison.trans a b c)
      (λ e. ap (λ t. compare_prerelease_identifier t c) (identifier-IsComparison.equal a b e))
      (λ e. ap (λ t. compare_prerelease_identifier a t) (sym (identifier-IsComparison.equal b c e)))
      (prereleases_trans as' bs cs)

releases_flip :
    (as' bs : List PrereleaseIdentifier)
    → compare_releases bs as' ≡ opposite (compare_releases as' bs)
unfolding compare_releases
releases_flip [] [] = refl
releases_flip [] (b ∷ bs) = refl
releases_flip (a ∷ as') [] = refl
releases_flip (a ∷ as') (b ∷ bs) = prereleases_flip (a ∷ as') (b ∷ bs)

releases_reflexive : (as' : List PrereleaseIdentifier) → compare_releases as' as' ≡ same
unfolding compare_releases
releases_reflexive [] = refl
releases_reflexive (a ∷ as') = prereleases_reflexive (a ∷ as')

releases_equal : (as' bs : List PrereleaseIdentifier) → compare_releases as' bs ≡ same → as' ≡ bs
unfolding compare_releases
releases_equal [] [] h = refl
releases_equal [] (b ∷ bs) h = cc
releases_equal (a ∷ as') [] h = cc
releases_equal (a ∷ as') (b ∷ bs) h = prereleases_equal (a ∷ as') (b ∷ bs) h

releases_trans :
    (as' bs cs : List PrereleaseIdentifier)
    → compare_releases as' bs ≡ below
    → compare_releases bs cs ≡ below
    → compare_releases as' cs ≡ below
unfolding compare_releases
releases_trans [] [] cs h k = cc
releases_trans [] (b ∷ bs) cs h k = cc
releases_trans (a ∷ as') [] [] h k = cc
releases_trans (a ∷ as') [] (c ∷ cs) h k = cc
releases_trans (a ∷ as') (b ∷ bs) [] h k = refl
releases_trans (a ∷ as') (b ∷ bs) (c ∷ cs) h k = prereleases_trans (a ∷ as') (b ∷ bs) (c ∷ cs) h k

releases-IsComparison : IsComparison compare_releases
releases-IsComparison = record {
  flip = releases_flip;
  reflexive = releases_reflexive;
  equal = releases_equal;
  trans = releases_trans;
}

abbrev parts_of : SemanticVersion → Bytes × (Bytes × (Bytes × List PrereleaseIdentifier))
parts_of v = (v.major, (v.minor, (v.patch, v.prerelease)))

version_ext : (a b : SemanticVersion) → parts_of a ≡ parts_of b → a ≡ b
version_ext a b e i = record {
  major = (e i).0;
  minor = (e i).1.0;
  patch = (e i).1.1.0;
  prerelease = (e i).1.1.1;
}

-- The comparison of versions is a total order on them: exchanged sides give the opposite result, a
-- version is the same as itself and as no other, and "below" is transitive.
pub compare_semantic_versions-IsComparison : IsComparison compare_semantic_versions
unfolding compare_semantic_versions
compare_semantic_versions-IsComparison =
    let l = lex-IsComparison numeric-IsComparison (
      lex-IsComparison numeric-IsComparison
        (lex-IsComparison numeric-IsComparison releases-IsComparison)) in
    record {
      flip = λ a b. l.flip (parts_of a) (parts_of b);
      reflexive = λ a. l.reflexive (parts_of a);
      equal = λ a b h. version_ext a b (l.equal (parts_of a) (parts_of b) h);
      trans = λ a b c. l.trans (parts_of a) (parts_of b) (parts_of c);
    }
