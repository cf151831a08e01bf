-- ===== src/Review/Windows/Cover.antt =====
-- Every non-empty hunk lies in a merged range.
use codesensei.Common.{
  ℕ, ◌+◌, ◌-◌, ◌≤◌, ◌<◌, max, List, [], ◌∷◌, leb, ◌≡◌, ◌⊎◌, inl, inr, arith, Any, Bool-cases,
}
use codesensei.Review.Windows.{
  Hunk, Range, to_ranges, sort_ranges, merge_from, merge_ranges, merged,
}
use codesensei.Review.Windows.Order.{
  IsSorted, HasRange, sort_ranges-IsSorted, HasRange-sort_ranges, HasRange-to_ranges,
  merge_from_near, merge_from_far,
}

-- Some range of the list reaches from `x` or before to `y` or after.
abbrev pub Contains : ℕ → ℕ → List Range → Type 0
Contains x y = Any (λ r. (r.0 ≤ x) × (y ≤ r.1))

merge_from-Contains :
    (x y a b : ℕ) (rs : List Range)
    → IsSorted ((a, b) ∷ rs)
    → ((a ≤ x) × (y ≤ b)) ⊎ HasRange x y rs
    → Contains x y (merge_from a b rs)
unfolding merge_from
merge_from-Contains x y a b [] h (inl p) = inl p
merge_from-Contains x y a b [] h (inr p) = absurd p
merge_from-Contains x y a b ((s, e) ∷ rs) ((a_le, a_les), (s_les, sorted)) h =
    elim (Bool-cases (leb s (b + 5))) [
      | inl near ↦ rw (merge_from_near a b s e rs near) (
          merge_from-Contains x y a (max b e) rs (a_les, sorted)
            (elim h [
              | inl (p, q) ↦ inl (p, omega arith)
              | inr (inl (p, q)) ↦ inl (omega arith, omega arith)
              | inr (inr later) ↦ inr later
            ]))
      | inr far ↦ rw (merge_from_far a b s e rs far) (elim h [
        | inl p ↦ inl p
        | inr (inl (p, q)) ↦
            inr (merge_from-Contains x y s e rs (s_les, sorted) (inl (omega arith, omega arith)))
        | inr (inr later) ↦ inr (merge_from-Contains x y s e rs (s_les, sorted) (inr later))
      ])
    ]

merge_ranges-Contains :
    (x y : ℕ) (rs : List Range) → IsSorted rs → HasRange x y rs → Contains x y (merge_ranges rs)
unfolding merge_ranges
merge_ranges-Contains x y [] h m = absurd m
merge_ranges-Contains x y ((s, e) ∷ rs) h (inl (p, q)) =
    merge_from-Contains x y s e rs h (inl (omega arith, omega arith))
merge_ranges-Contains x y ((s, e) ∷ rs) h (inr m) = merge_from-Contains x y s e rs h (inr m)

-- The lines of a hunk that is not empty lie in one of its file's merged ranges.
pub merged-Contains :
    (hunks : List Hunk) (start size : ℕ)
    → Any (λ h. (h.0 ≡ start) × (h.1 ≡ size)) hunks
    → 0 < size
    → Contains start (start + size - 1) (merged hunks)
unfolding merged
merged-Contains hunks start size h pos =
    merge_ranges-Contains start (start + size - 1) (sort_ranges (to_ranges hunks))
      (sort_ranges-IsSorted (to_ranges hunks))
      (HasRange-sort_ranges start (start + size - 1) (to_ranges hunks)
        (HasRange-to_ranges start size hunks h pos))
