-- ===== src/Indexing/Queries.antt =====
-- backend/src/codesensei/indexing/retrieval.py: `derive_queries`.
pub mod Blank
pub mod Hunks
pub mod Tests
use codesensei.Common.{
  ℕ, Bool, true, false, not, ◌&&◌, ◌||◌, Option, none, some, List, [], ◌∷◌, Text, codes, ◌==◌,
  if◌then◌else◌, drop, any, starts_with, strip_prefix, splitlines, has_text, join_lines,
}
use codesensei.Common.Options.{◌>>=◌}
use codesensei.Common.Digits.{Unicode, is_some}
use codesensei.Review.Hunks.{some_digits, optional_number}

-- `_HUNK_HEADER_RE` matches here.
unfoldable pub is_hunk_start : Unicode → Text → Bool
unfolding starts_with
is_hunk_start u s = is_some (
    strip_prefix (codes "@@ -") s >>= λ s1. some_digits u s1 >>= λ old.
    strip_prefix (codes " +") (optional_number u old.1).1 >>= λ s2.
    some_digits u s2 >>= λ new. strip_prefix (codes " @@") (optional_number u new.1).1)

-- The text before the first header, and the text from each header to the next; whether a line
-- starts here.
abbrev pub cut_at : Bool → ℕ → Text × List Text → Text × List Text
cut_at starts c (front, sections) =
    if starts then ([], (c ∷ front) ∷ sections) else (c ∷ front, sections)

unfoldable pub cut : Unicode → Bool → Text → Text × List Text
unfolding is_hunk_start
cut u line_start [] = ([], [])
cut u line_start (c ∷ s) = cut_at (line_start && is_hunk_start u (c ∷ s)) c (cut u (c == 10) s)

-- Without the mark of an added or an unchanged line.
abbrev pub unmarked : Text → Text
unmarked [] = []
unmarked (c ∷ s) = if c == b'+' || c == b' ' then s else c ∷ s

abbrev pub is_removed : Text → Bool
is_removed [] = false
is_removed (c ∷ s) = c == b'-'

abbrev pub new_lines : List Text → List Text
new_lines [] = []
new_lines (ln ∷ lns) =
    let rest = new_lines lns in if is_removed ln then rest else unmarked ln ∷ rest

unfoldable pub window : List Text → Option Text
unfolding has_text join_lines
window lines =
    if not (any has_text lines)
    then none
    else if has_text (join_lines lines)
    then some (join_lines lines)
    else none

abbrev pub with_window : Option Text → List Text → List Text
with_window none rest = rest
with_window (some q) rest = q ∷ rest

unfoldable pub queries_of : List Text → List Text
unfolding splitlines window
queries_of [] = []
queries_of (section ∷ sections) =
    with_window (window (new_lines (drop 1 (splitlines section)))) (queries_of sections)

unfoldable pub derive_queries : Unicode → Text → List Text
unfolding cut
derive_queries u diff = queries_of (cut u true diff).1
