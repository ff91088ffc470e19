-- ===== src/Run/Select/Names.antt =====
-- internal/run/run.go: the requested names without repetition.
use togi.Prelude.{
  ◌≡◌, refl, subst, ◌⊎◌, inl, inr, true, Bool-cases, Option, none, some, List, [], ◌∷◌, Memᴰ, arith,
  All, All-imp,
}
use togi.Text.{Bytes, bytes_eqb, mem_bytes}
use togi.Text.Order.{bytes_eqb_iff}
use togi.Text.Space.{is_blank}
use togi.Run.Select.{with_name, unique_names, is_wanted}

mem_bytes-Memᴰ : (x : Bytes) (ys : List Bytes) → mem_bytes x ys ≡ true → Memᴰ x ys
unfolding mem_bytes
mem_bytes-Memᴰ x [] h = ground (arith, h)
mem_bytes-Memᴰ x (y ∷ ys) h = elim (Bool-cases (bytes_eqb x y)) [
  | inl e ↦ Memᴰ.head ((bytes_eqb_iff x y).0 e)
  | inr e ↦ Memᴰ.tail (mem_bytes-Memᴰ x ys (ground (arith, h, e)))
]

Memᴰ-mem_bytes : (x : Bytes) (ys : List Bytes) → Memᴰ x ys → mem_bytes x ys ≡ true
unfolding mem_bytes
Memᴰ-mem_bytes x [] m = elim m [ ]
Memᴰ-mem_bytes x (y ∷ ys) (Memᴰ.head e) = ground (arith, (bytes_eqb_iff x y).1 e)
Memᴰ-mem_bytes x (y ∷ ys) (Memᴰ.tail m) = ground (arith, Memᴰ-mem_bytes x ys m)

-- The unique names, with those seen before, are the names.
pub record IsUnique (seen names ns : List Bytes) : Type 0 where
  pub kept : All (λ n. Memᴰ n seen ⊎ Memᴰ n ns) names
  pub given : All (λ n. Memᴰ n names) ns

IsUnique-seen :
    (seen names ns : List Bytes) (name : Bytes)
    → Memᴰ name seen
    → IsUnique seen names ns
    → IsUnique seen (name ∷ names) ns
IsUnique-seen seen names ns name m u = record {
  kept = (inl m, u.kept);
  given = All-imp (λ n. Memᴰ n names) (λ n. Memᴰ n (name ∷ names)) ns (λ n k. Memᴰ.tail k) u.given;
}

IsUnique-new :
    (seen names ns : List Bytes) (name : Bytes)
    → IsUnique (name ∷ seen) names ns
    → IsUnique seen (name ∷ names) (name ∷ ns)
IsUnique-new seen names ns name u = record {
  kept = (
    inr (Memᴰ.head refl),
    All-imp (λ n. Memᴰ n (name ∷ seen) ⊎ Memᴰ n ns) (λ n. Memᴰ n seen ⊎ Memᴰ n (name ∷ ns)) names
        (λ n k. elim k [ inl m ↦ moved n m | inr m ↦ inr (Memᴰ.tail m) ]) u.kept,
  );
  given = (
    Memᴰ.head refl,
    All-imp (λ n. Memᴰ n names) (λ n. Memᴰ n (name ∷ names)) ns (λ n k. Memᴰ.tail k) u.given,
  );
}
  where
    moved : (n : Bytes) → Memᴰ n (name ∷ seen) → Memᴰ n seen ⊎ Memᴰ n (name ∷ ns)
    moved n (Memᴰ.head e) = inr (Memᴰ.head e)
    moved n (Memᴰ.tail m) = inl m

with_name-some :
    (name : Bytes) (o : Option (List Bytes)) (ns : List Bytes)
    → with_name name o ≡ some ns
    → (rest : List Bytes) × (o ≡ some rest) × (name ∷ rest ≡ ns)
with_name-some name none ns h = ground (arith, h)
with_name-some name (some rest) ns h = (rest, refl, ground (arith, h))

pub unique_names-IsUnique :
    (seen names ns : List Bytes) → unique_names seen names ≡ some ns → IsUnique seen names ns
unfolding unique_names
unique_names-IsUnique seen [] ns h =
    let same : [] ≡ ns = ground (arith, h) in
    subst (IsUnique seen []) same (record { kept = tt; given = tt })
unique_names-IsUnique seen (name ∷ names) ns h = elim (Bool-cases (is_blank name)) [
  | inl b ↦ ground (arith, h, b)
  | inr b ↦ elim (Bool-cases (mem_bytes name seen)) [
    | inl e ↦
        IsUnique-seen seen names ns name (mem_bytes-Memᴰ name seen e)
          (unique_names-IsUnique seen names ns (ground (arith, h, b, e)))
    | inr e ↦
        let (rest, k, same) =
          with_name-some name (unique_names (name ∷ seen) names) ns (ground (arith, h, b, e)) in
        subst (IsUnique seen (name ∷ names)) same
          (IsUnique-new seen names rest name (unique_names-IsUnique (name ∷ seen) names rest k))
  ]
]

pub is_wanted-cases :
    (wanted : List Bytes) (name : Bytes)
    → is_wanted wanted name ≡ true
    → (wanted ≡ []) ⊎ Memᴰ name wanted
is_wanted-cases [] name h = inl refl
is_wanted-cases (n ∷ ns) name h = inr (mem_bytes-Memᴰ name (n ∷ ns) h)

pub is_wanted-Memᴰ :
    (wanted : List Bytes) (name : Bytes) → Memᴰ name wanted → is_wanted wanted name ≡ true
is_wanted-Memᴰ [] name m = refl
is_wanted-Memᴰ (n ∷ ns) name m = Memᴰ-mem_bytes name (n ∷ ns) m

pub no_names : (requested ns : List Bytes) → IsUnique [] requested ns → ns ≡ [] → requested ≡ []
no_names [] ns u e = refl
no_names (name ∷ names) ns u e = elim u.kept.0 [
  | inl m ↦ nowhere m
  | inr m ↦ nowhere (subst (Memᴰ name) e m)
]
  where
    nowhere : Memᴰ name [] → name ∷ names ≡ []
    nowhere m = elim m [ ]
