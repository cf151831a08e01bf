-- ===== src/Review/Windows.antt =====
-- backend/src/codesensei/review/git_temporal.py: `collapse_diff_to_windows`.
mod Order
mod Separate
mod Cover
mod Tests
use codesensei.Common.{
  ℕ, zero, suc, ◌+◌, ◌-◌, max, Bool, true, false, ◌&&◌, ◌||◌, List, [], ◌∷◌, Text, ltb, leb, ◌==◌,
  if◌then◌else◌, take, map,
}

abbrev pub max_line_range : ℕ
max_line_range = 200

abbrev pub max_windows_per_file : ℕ
max_windows_per_file = 3

-- A hunk is its first line and its length; a range its first and its last line.
abbrev pub Hunk : Type 0
Hunk = ℕ × ℕ

abbrev pub Range : Type 0
Range = ℕ × ℕ

pub record LineWindow : Type 0 where
  pub start_line : ℕ
  pub end_line : ℕ

pub to_ranges : List Hunk → List Range
to_ranges [] = []
to_ranges ((start, size) ∷ hunks) =
    let rest = to_ranges hunks in if leb size 0 then rest else (start, start + size - 1) ∷ rest

-- `ranges.sort()`: by the first line, then by the last.
abbrev pub le_range : Range → Range → Bool
le_range (s, e) (s', e') = ltb s s' || s == s' && leb e e'

pub insert_range : Range → List Range → List Range
insert_range r [] = r ∷ []
insert_range r (q ∷ qs) = if le_range r q then r ∷ q ∷ qs else q ∷ insert_range r qs

pub sort_ranges : List Range → List Range
sort_ranges [] = []
sort_ranges (r ∷ rs) = insert_range r (sort_ranges rs)

-- The loop over the sorted ranges, where `(a, b)` is `merged[-1]`.
pub merge_from : ℕ → ℕ → List Range → List Range
merge_from a b [] = (a, b) ∷ []
merge_from a b ((s, e) ∷ rs) = elim (leb s (b + 5)) [
  | true ↦ merge_from a (max b e) rs
  | false ↦ (a, b) ∷ merge_from s e rs
]

pub merge_ranges : List Range → List Range
unfolding merge_from
merge_ranges [] = []
merge_ranges ((s, e) ∷ rs) = merge_from s e rs

abbrev pub clamp : Range → LineWindow
clamp (s, e) = record {
  start_line = s;
  end_line = if ltb max_line_range (e - s + 1) then s + max_line_range - 1 else e;
}

-- The merged ranges of one file, and its windows.
pub merged : List Hunk → List Range
unfolding to_ranges sort_ranges insert_range merge_ranges
merged hunks = merge_ranges (sort_ranges (to_ranges hunks))

pub windows_of : List Hunk → List LineWindow
unfolding merged
windows_of hunks = take max_windows_per_file (map clamp (merged hunks))

-- A file whose hunks are all empty has no entry.
unfoldable pub collapse_diff_to_windows : List (Text × List Hunk) → List (Text × List LineWindow)
unfolding windows_of
collapse_diff_to_windows [] = []
collapse_diff_to_windows ((path, hunks) ∷ files) =
    let rest = collapse_diff_to_windows files in
    elim (to_ranges hunks) [ [] ↦ rest | r ∷ rs ↦ (path, windows_of hunks) ∷ rest ]
