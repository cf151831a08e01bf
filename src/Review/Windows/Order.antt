-- ===== src/Review/Windows/Order.antt =====
-- The sort of the ranges.
use codesensei.Common.{
  ℕ, ◌+◌, ◌-◌, ◌≤◌, ◌<◌, List, [], ◌∷◌, leb, ◌≡◌, inl, inr, arith, All, Any, All-map, Bool-cases,
  true, false, max,
}
use codesensei.Review.Windows.{
  Hunk, Range, to_ranges, le_range, insert_range, sort_ranges, merge_from,
}

-- Ranges in the order of their first lines.
abbrev pub IsSorted : List Range → Type 0
IsSorted [] = Unit
IsSorted (r ∷ rs) = All (λ q. r.0 ≤ q.0) rs × IsSorted rs

-- Every range ends at or after its first line.
abbrev pub AreRanges : List Range → Type 0
AreRanges = All (λ r. r.0 ≤ r.1)

abbrev pub HasRange : ℕ → ℕ → List Range → Type 0
HasRange x y = Any (λ r. (r.0 ≡ x) × (r.1 ≡ y))

All-insert_range :
    (P : Range → Type 0) (r : Range) (rs : List Range) → P r → All P rs → All P (insert_range r rs)
unfolding insert_range
All-insert_range P r [] p h = (p, tt)
All-insert_range P r (q ∷ qs) p (h, hs) = elim (Bool-cases (le_range r q)) [
  | inl le ↦ rw le (p, (h, hs))
  | inr gt ↦ rw gt (h, All-insert_range P r qs p hs)
]

insert_range-IsSorted : (r : Range) (rs : List Range) → IsSorted rs → IsSorted (insert_range r rs)
unfolding insert_range
insert_range-IsSorted r [] h = (tt, tt)
insert_range-IsSorted r (q ∷ qs) (h, hs) = elim (Bool-cases (le_range r q)) [
  | inl le ↦
      let first : r.0 ≤ q.0 = ground (arith, le) in
      rw le ((first, All-map qs (λ x p. omega (arith, p, first)) h), (h, hs))
  | inr gt ↦
      let first : q.0 ≤ r.0 = ground (arith, gt) in
      rw gt (All-insert_range (λ x. q.0 ≤ x.0) r qs first h, insert_range-IsSorted r qs hs)
]

pub sort_ranges-IsSorted : (rs : List Range) → IsSorted (sort_ranges rs)
unfolding sort_ranges
sort_ranges-IsSorted [] = tt
sort_ranges-IsSorted (r ∷ rs) = insert_range-IsSorted r (sort_ranges rs) (sort_ranges-IsSorted rs)

pub sort_ranges-AreRanges : (rs : List Range) → AreRanges rs → AreRanges (sort_ranges rs)
unfolding sort_ranges
sort_ranges-AreRanges [] h = tt
sort_ranges-AreRanges (r ∷ rs) (h, hs) =
    All-insert_range (λ r. r.0 ≤ r.1) r (sort_ranges rs) h (sort_ranges-AreRanges rs hs)

HasRange-insert_range :
    (x y : ℕ) (r : Range) (rs : List Range)
    → HasRange x y (r ∷ rs)
    → HasRange x y (insert_range r rs)
unfolding insert_range
HasRange-insert_range x y r [] h = h
HasRange-insert_range x y r (q ∷ qs) h = elim (Bool-cases (le_range r q)) [
  | inl le ↦ rw le h
  | inr gt ↦ rw gt (elim h [
    | inl here ↦ inr (HasRange-insert_range x y r qs (inl here))
    | inr (inl next) ↦ inl next
    | inr (inr later) ↦ inr (HasRange-insert_range x y r qs (inr later))
  ])
]

pub HasRange-sort_ranges :
    (x y : ℕ) (rs : List Range) → HasRange x y rs → HasRange x y (sort_ranges rs)
unfolding sort_ranges
HasRange-sort_ranges x y [] h = h
HasRange-sort_ranges x y (r ∷ rs) (inl h) = HasRange-insert_range x y r (sort_ranges rs) (inl h)
HasRange-sort_ranges x y (r ∷ rs) (inr h) =
    HasRange-insert_range x y r (sort_ranges rs) (inr (HasRange-sort_ranges x y rs h))

pub to_ranges-AreRanges : (hunks : List Hunk) → AreRanges (to_ranges hunks)
unfolding to_ranges
to_ranges-AreRanges [] = tt
to_ranges-AreRanges ((start, size) ∷ hunks) = elim (Bool-cases (leb size 0)) [
  | inl empty ↦ rw empty (to_ranges-AreRanges hunks)
  | inr full ↦ rw full (ground (arith, full), to_ranges-AreRanges hunks)
]

pub HasRange-to_ranges :
    (start size : ℕ) (hunks : List Hunk)
    → Any (λ h. (h.0 ≡ start) × (h.1 ≡ size)) hunks
    → 0 < size
    → HasRange start (start + size - 1) (to_ranges hunks)
unfolding to_ranges
HasRange-to_ranges start size ((s, n) ∷ hunks) h pos = elim (Bool-cases (leb n 0)) [
  | inl empty ↦ rw empty (elim h [
    | inl (a, b) ↦ absurd (ground (arith, empty))
    | inr later ↦ HasRange-to_ranges start size hunks later pos
  ])
  | inr full ↦ rw full (elim h [
    | inl (a, b) ↦ inl (a, omega arith)
    | inr later ↦ inr (HasRange-to_ranges start size hunks later pos)
  ])
]
HasRange-to_ranges start size [] h pos = absurd h

-- One round of the merge.
module _ (a b s e : ℕ) (rs : List Range) where
  pub merge_from_near :
      leb s (b + 5) ≡ true → merge_from a b ((s, e) ∷ rs) ≡ merge_from a (max b e) rs
  unfolding merge_from
  merge_from_near near = rw (near, merge_from)

  pub merge_from_far :
      leb s (b + 5) ≡ false → merge_from a b ((s, e) ∷ rs) ≡ (a, b) ∷ merge_from s e rs
  unfolding merge_from
  merge_from_far far = rw (far, merge_from)
