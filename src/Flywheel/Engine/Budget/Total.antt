-- ===== src/Flywheel/Engine/Budget/Total.antt =====
-- internal/flywheel/engine.go: the number of attempts in a plan.
use togi.Prelude.{ℕ, zero, suc, ◌+◌, ◌≤◌, ◌≡◌, refl, List, [], ◌∷◌, ◌++◌, arith, length}
use togi.Flywheel.Plan.{Batch, Attempt}
use togi.Flywheel.Engine.Attempt.{update_batch, set_last}

unfoldable pub attempt_total : List Batch → ℕ
attempt_total [] = 0
attempt_total (b ∷ bs) = length b.attempts + attempt_total bs

-- An update that keeps the number of attempts keeps the total.
pub attempt_total-update :
    (index : ℕ) (f : Batch → Batch) (bs : List Batch)
    → ((b : Batch) → length (f b).attempts ≡ length b.attempts)
    → attempt_total (update_batch index f bs) ≡ attempt_total bs
unfolding attempt_total
attempt_total-update index f [] h = refl
attempt_total-update zero f (b ∷ bs) h = omega (arith, h b)
attempt_total-update (suc index) f (b ∷ bs) h = omega (arith, attempt_total-update index f bs h)

-- One that adds an attempt adds at most one to the total.
pub attempt_total-add :
    (index : ℕ) (f : Batch → Batch) (bs : List Batch)
    → ((b : Batch) → length (f b).attempts ≡ length b.attempts + 1)
    → attempt_total (update_batch index f bs) ≤ attempt_total bs + 1
unfolding attempt_total
attempt_total-add index f [] h = omega arith
attempt_total-add zero f (b ∷ bs) h = omega (arith, h b)
attempt_total-add (suc index) f (b ∷ bs) h = omega (arith, attempt_total-add index f bs h)

pub length-set_last : (a : Attempt) (as' : List Attempt) → length (set_last a as') ≡ length as'
length-set_last a [] = refl
length-set_last a (b ∷ []) = refl
length-set_last a (b ∷ c ∷ bs) = omega (arith, length-set_last a (c ∷ bs))

pub attempt_total-empty : attempt_total [] ≡ 0
unfolding attempt_total
attempt_total-empty = refl

pub attempt_total-append :
    (bs cs : List Batch) → attempt_total (bs ++ cs) ≡ attempt_total bs + attempt_total cs
unfolding attempt_total
attempt_total-append [] cs = omega arith
attempt_total-append (b ∷ bs) cs = omega (arith, attempt_total-append bs cs)
