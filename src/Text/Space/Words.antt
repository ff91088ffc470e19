-- ===== src/Text/Space/Words.antt =====
-- The words of a text: none is empty or has a space, so that joined words tell them apart.
use togi.Prelude.{
  ℕ, zero, suc, ◌≡◌, ◌≢◌, refl, sym, ap, ◌∙◌, List, [], ◌∷◌, ◌++◌, arith, All, All-append,
}
use mathlib.Core.List.{append_assoc}
use togi.Text.{Bytes, ascii}
use togi.Text.Space.{space_width, close_word, fields_from, fields, join}
use togi.Text.Split.{split}
use togi.Text.Split.Joined.{HasNo, joined, split-joined}

abbrev IsWord : Bytes → Type 0
IsWord w = (w ≢ []) × HasNo 32 w

space_width-nonspace : (a : ℕ) (s : Bytes) → space_width (a ∷ s) ≡ 0 → a ≢ 32
unfolding space_width
space_width-nonspace a [] h = ground (arith, h)
space_width-nonspace a (b ∷ []) h = ground (arith, h)
space_width-nonspace a (b ∷ c ∷ s) h = ground (arith, h)

close_word-IsWord :
    (w : Bytes) (rest : List Bytes) → HasNo 32 w → All IsWord rest → All IsWord (close_word w rest)
close_word-IsWord [] rest h k = k
close_word-IsWord (a ∷ w) rest h k = ((λ e. cc e, h), k)

fields_from-IsWord :
    (skip : ℕ) (word s : Bytes) → HasNo 32 word → All IsWord (fields_from skip word s)
unfolding fields_from
fields_from-IsWord skip word [] h = close_word-IsWord word [] h tt
fields_from-IsWord (suc skip) word (a ∷ s) h = fields_from-IsWord skip word s h
fields_from-IsWord zero word (a ∷ s) h =
    go (space_width (a ∷ s)) refl (λ e. fields_from-IsWord zero (word ++ a ∷ []) s (longer e))
      (λ more. fields_from-IsWord more [] s tt)
  where
    longer : space_width (a ∷ s) ≡ 0 → HasNo 32 (word ++ a ∷ [])
    longer e = All-append (λ c. c ≢ 32) word (a ∷ []) h (space_width-nonspace a s e, tt)

    go :
        (n : ℕ)
        → space_width (a ∷ s) ≡ n
        → (space_width (a ∷ s) ≡ 0 → All IsWord (fields_from zero (word ++ a ∷ []) s))
        → ((more : ℕ) → All IsWord (fields_from more [] s))
        → All IsWord (elim n as (λ _. List Bytes) [
          | zero ↦ fields_from zero (word ++ a ∷ []) s
          | suc more ↦ close_word word (fields_from more [] s)
        ])
    go zero e next rest = next e
    go (suc more) e next rest = close_word-IsWord word (fields_from more [] s) h (rest more)

fields-IsWord : (s : Bytes) → All IsWord (fields s)
unfolding fields
fields-IsWord s = fields_from-IsWord 0 [] s tt

join-joined : (w : Bytes) (ws : List Bytes) → join (ascii " ") (w ∷ ws) ≡ joined 32 w ws
unfolding join
join-joined w [] = refl
join-joined w (v ∷ ws) =
    append_assoc w (32 ∷ []) (join (ascii " ") (v ∷ ws)) ∙ ap (λ t. w ++ 32 ∷ t) (join-joined v ws)

IsWord-HasNo : (ws : List Bytes) → All IsWord ws → All (HasNo 32) ws
IsWord-HasNo [] h = tt
IsWord-HasNo (w ∷ ws) h = (h.0.1, IsWord-HasNo ws h.1)

join-nonempty : (w : Bytes) (ws : List Bytes) → w ≢ [] → join (ascii " ") (w ∷ ws) ≢ []
unfolding join
join-nonempty [] ws h e = absurd (h refl)
join-nonempty (a ∷ w) [] h e = cc e
join-nonempty (a ∷ w) (v ∷ ws) h e = cc e

join_injective :
    (ws vs : List Bytes)
    → All IsWord ws
    → All IsWord vs
    → join (ascii " ") ws ≡ join (ascii " ") vs
    → ws ≡ vs
join_injective [] [] h k e = refl
join_injective [] (v ∷ vs) h k e = absurd (join-nonempty v vs k.0.0 (sym e ∙ (unfold join in refl)))
join_injective (w ∷ ws) [] h k e = absurd (join-nonempty w ws h.0.0 (e ∙ (unfold join in refl)))
join_injective (w ∷ ws) (v ∷ vs) h k e =
    sym (split-joined 32 w ws h.0.1 (IsWord-HasNo ws h.1))
    ∙ ap (split 32) (sym (join-joined w ws) ∙ e ∙ join-joined v vs)
    ∙ split-joined 32 v vs k.0.1 (IsWord-HasNo vs k.1)

-- Texts with one space between their words are the same exactly when the words are.
pub join-fields_injective :
    (s t : Bytes) → join (ascii " ") (fields s) ≡ join (ascii " ") (fields t) → fields s ≡ fields t
join-fields_injective s t = join_injective (fields s) (fields t) (fields-IsWord s) (fields-IsWord t)
