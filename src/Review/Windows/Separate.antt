-- ===== src/Review/Windows/Separate.antt =====
-- The windows of a file are few, short, in order and apart.
use codesensei.Common.{
  ℕ, zero, suc, ◌+◌, ◌≤◌, ◌<◌, max, List, [], ◌∷◌, Text, leb, ◌≡◌, refl, arith, All, Bool-cases,
  leb_false→lt, length, take, map, length-take, inl, inr,
}
use codesensei.Review.Windows.{
  Hunk, Range, LineWindow, max_line_range, max_windows_per_file, to_ranges, sort_ranges, merge_from,
  merge_ranges, merged, clamp, windows_of, collapse_diff_to_windows,
}
use codesensei.Review.Windows.Order.{
  AreRanges, sort_ranges-AreRanges, to_ranges-AreRanges, merge_from_near, merge_from_far,
}

-- Ranges that begin more than five lines after `b`, and each more than five after the one before.
abbrev pub ApartFrom : ℕ → List Range → Type 0
ApartFrom b [] = Unit
ApartFrom b ((s, e) ∷ rs) = (b + 5 < s) × (s ≤ e) × ApartFrom e rs

-- The first range begins at `a`, and the ranges are apart.
abbrev StartsAt : ℕ → List Range → Type 0
StartsAt a [] = ⊥
StartsAt a ((s, e) ∷ rs) = (s ≡ a) × (s ≤ e) × ApartFrom e rs

ApartFrom-StartsAt : (b s : ℕ) (rs : List Range) → b + 5 < s → StartsAt s rs → ApartFrom b rs
ApartFrom-StartsAt b s [] lt h = tt
ApartFrom-StartsAt b s ((s', e) ∷ rs) lt (p, q, r) = (omega arith, q, r)

merge_from-StartsAt :
    (a b : ℕ) (rs : List Range) → a ≤ b → AreRanges rs → StartsAt a (merge_from a b rs)
unfolding merge_from
merge_from-StartsAt a b [] le h = (refl, le, tt)
merge_from-StartsAt a b ((s, e) ∷ rs) le (h, hs) = elim (Bool-cases (leb s (b + 5))) [
  | inl near ↦
      rw (merge_from_near a b s e rs near) (merge_from-StartsAt a (max b e) rs (omega arith) hs)
  | inr far ↦ rw (merge_from_far a b s e rs far) (
    refl,
    le,
    ApartFrom-StartsAt b s (merge_from s e rs) (leb_false→lt s (b + 5) far)
        (merge_from-StartsAt s e rs h hs),
  )
]

-- A window of at least one line and at most 200, more than five lines after the one before.
abbrev WindowsFrom : ℕ → List LineWindow → Type 0
WindowsFrom b [] = Unit
WindowsFrom b (w ∷ ws) =
    (b < w.start_line)
    × (w.start_line ≤ w.end_line)
    × (w.end_line < w.start_line + max_line_range)
    × WindowsFrom (w.end_line + 5) ws

abbrev pub AreWindows : List LineWindow → Type 0
AreWindows [] = Unit
AreWindows (w ∷ ws) =
    (w.start_line ≤ w.end_line)
    × (w.end_line < w.start_line + max_line_range)
    × WindowsFrom (w.end_line + 5) ws

clamp_end :
    (s e : ℕ)
    → s ≤ e
    → ((clamp (s, e)).end_line ≤ e)
      × (s ≤ (clamp (s, e)).end_line)
      × ((clamp (s, e)).end_line < s + max_line_range)
clamp_end s e le = ground arith

WindowsFrom-clamp :
    (k b : ℕ) (rs : List Range) (c : ℕ)
    → c ≤ b + 5
    → ApartFrom b rs
    → WindowsFrom c (take k (map clamp rs))
WindowsFrom-clamp zero b rs c le h = tt
WindowsFrom-clamp (suc k) b [] c le h = tt
WindowsFrom-clamp (suc k) b ((s, e) ∷ rs) c le (p, q, r) =
    let (end, least, most) = clamp_end s e q in
    (
      omega arith,
      least,
      most,
      WindowsFrom-clamp k e rs ((clamp (s, e)).end_line + 5) (omega arith) r,
    )

AreWindows-clamp : (k a : ℕ) (rs : List Range) → StartsAt a rs → AreWindows (take k (map clamp rs))
AreWindows-clamp zero a rs h = tt
AreWindows-clamp (suc k) a [] h = tt
AreWindows-clamp (suc k) a ((s, e) ∷ rs) (p, q, r) =
    let (end, least, most) = clamp_end s e q in
    (least, most, WindowsFrom-clamp k e rs ((clamp (s, e)).end_line + 5) (omega arith) r)

windows_of-AreWindows :
    (hunks : List Hunk)
    → (length (windows_of hunks) ≤ max_windows_per_file) × AreWindows (windows_of hunks)
unfolding windows_of merge_ranges
windows_of-AreWindows hunks = (
  omega (arith, length-take max_windows_per_file (map clamp (merged hunks))),
  go (sort_ranges (to_ranges hunks))
      (sort_ranges-AreRanges (to_ranges hunks) (to_ranges-AreRanges hunks)),
)
  where
    go :
        (rs : List Range)
        → AreRanges rs
        → AreWindows (take max_windows_per_file (map clamp (merge_ranges rs)))
    go [] h = tt
    go ((s, e) ∷ rs) (h, hs) =
        AreWindows-clamp max_windows_per_file s (merge_from s e rs)
          (merge_from-StartsAt s e rs h hs)

-- Every file of the result has at most three windows, each of 1 to 200 lines, and each beginning
-- more than five lines after the end of the one before.
pub collapse_diff_to_windows-AreWindows :
    (files : List (Text × List Hunk))
    → All
        (λ (path, ws). (length ws ≤ max_windows_per_file) × AreWindows ws)
        (collapse_diff_to_windows files)
unfolding collapse_diff_to_windows
collapse_diff_to_windows-AreWindows [] = tt
collapse_diff_to_windows-AreWindows ((path, hunks) ∷ files) =
    go (to_ranges hunks) (collapse_diff_to_windows files)
      (collapse_diff_to_windows-AreWindows files)
  where
    go :
        (rs : List Range) (rest : List (Text × List LineWindow))
        → All (λ (path, ws). (length ws ≤ max_windows_per_file) × AreWindows ws) rest
        → All
            (λ (path, ws). (length ws ≤ max_windows_per_file) × AreWindows ws)
            (elim rs [ [] ↦ rest | r ∷ rs ↦ (path, windows_of hunks) ∷ rest ])
    go [] rest h = h
    go (r ∷ rs) rest h = (windows_of-AreWindows hunks, h)
