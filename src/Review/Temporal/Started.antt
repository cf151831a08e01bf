-- ===== src/Review/Temporal/Started.antt =====
-- Which tasks the clock lets start.
use codesensei.Common.{
  ◌≤◌, ◌<◌, ℕ, suc, ◌+◌, ◌≡◌, refl, ap, inl, inr, ◌⊎◌, Bool, true, false, ◌||◌, List, [], ◌∷◌, Text,
  ltb, length, take, Bool-cases, arith,
}
use mathlib.Core.Path.{subst}
use codesensei.Review.Windows.{LineWindow}
use codesensei.Review.Temporal.{total_budget, start_tasks}

-- The clock's readings before these tasks, from the kth on, are within the two seconds.
abbrev pub AreWithin : (ℕ → ℕ) → ℕ → List (Text × LineWindow) → Type 0
AreWithin clock k [] = Unit
AreWithin clock k (r ∷ rs) = (clock k ≤ 2000000) × AreWithin clock (suc k) rs

abbrev pub IsStarted :
    (ℕ → ℕ) → ℕ → List (Text × LineWindow) → List (Text × LineWindow) × ℕ × Bool → Type 0
IsStarted clock k rs (started, k', exceeded) =
    (started ≡ take (length started) rs)
    × AreWithin clock k started
    × (((started ≡ rs) × (k' ≡ k + length started) × (exceeded ≡ false))
        ⊎ ((2000000 < clock (k + length started)) × (exceeded ≡ true)))

IsStarted-cons :
    (clock : ℕ → ℕ) (k : ℕ) (r : Text × LineWindow) (rs started : List (Text × LineWindow)) (k' : ℕ)
    (exceeded : Bool)
    → clock k ≤ 2000000
    → IsStarted clock (suc k) rs (started, k', exceeded)
    → IsStarted clock k (r ∷ rs) (r ∷ started, k', exceeded)
IsStarted-cons clock k r rs started k' exceeded within (front, later, inl (all, at, fits)) =
    (ap (λ xs. r ∷ xs) front, (within, later), inl (ap (λ xs. r ∷ xs) all, omega (arith, at), fits))
IsStarted-cons clock k r rs started k' exceeded within (front, later, inr (over, late)) = (
  ap (λ xs. r ∷ xs) front,
  (within, later),
  inr (
    subst (λ n. 2000000 < clock n)
        (let e : suc k + length started ≡ k + suc (length started) = omega arith in e) over,
    late,
  ),
)

pub start_tasks-IsStarted :
    (clock : ℕ → ℕ) (k : ℕ) (rs : List (Text × LineWindow))
    → IsStarted clock k rs (start_tasks clock k rs)
unfolding start_tasks
start_tasks-IsStarted clock k [] = (refl, tt, inl (refl, omega arith, refl))
start_tasks-IsStarted clock k (r ∷ rs) = elim (Bool-cases (ltb total_budget (clock k))) [
  | inl over ↦ rw over (
    refl,
    tt,
    inr (
      subst (λ n. 2000000 < clock n) (let e : k ≡ k + 0 = omega arith in e) (ground (arith, over)),
      refl,
    ),
  )
  | inr under ↦ rw under (
      IsStarted-cons clock k r rs _ _ _ (ground (arith, under))
        (start_tasks-IsStarted clock (suc k) rs))
]

-- A front of the requests is started, each while the clock is within the two seconds; they are all of
-- them, and the summary says whether the clock's last reading is past that; or the reading after
-- them is past it, and the summary says so.
abbrev pub IsFront : (ℕ → ℕ) → List (Text × LineWindow) → Bool → List (Text × LineWindow) → Type 0
IsFront clock started exceeded rs =
    (started ≡ take (length started) rs)
    × AreWithin clock 0 started
    × (((started ≡ rs) × (exceeded ≡ ltb 2000000 (clock (length started + 1))))
        ⊎ ((2000000 < clock (length started)) × (exceeded ≡ true)))

pub IsFront-started :
    (clock : ℕ → ℕ) (rs started : List (Text × LineWindow)) (k : ℕ) (exceeded : Bool)
    → IsStarted clock 0 rs (started, k, exceeded)
    → IsFront clock started (exceeded || ltb total_budget (clock (suc k))) rs
IsFront-started clock rs started k exceeded (front, within, inl (all, at, fits)) = (
  front,
  within,
  inl (
    all,
    rw fits (
        ap (λ n. ltb 2000000 (clock n))
          (let e : suc k ≡ length started + 1 = omega (arith, at) in e)),
  ),
)
IsFront-started clock rs started k exceeded (front, within, inr (over, late)) = (
  front,
  within,
  inr (
    subst (λ n. 2000000 < clock n) (let e : 0 + length started ≡ length started = omega arith in e)
        over,
    rw late refl,
  ),
)
