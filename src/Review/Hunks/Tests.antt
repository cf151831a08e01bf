-- ===== src/Review/Hunks/Tests.antt =====
-- Runs of the extraction of a diff's hunks.
use codesensei.Common.{
  ◌≤◌, ◌≡◌, refl, none, some, [], ◌∷◌, Text, codes, length, All, splitlines, starts_with, is_space,
  strip, text_eq, arith,
}
use codesensei.Common.Options.{HasValue}
use codesensei.Common.Digits.{ascii, parse_nat}
use codesensei.Review.Hunks.{match_hunk, extract_rhs_hunks}
use codesensei.Review.Hunks.Headers.{IsPlain, header, match_hunk-header}
use codesensei.Review.Hunks.Bounds.{AreHunks, extract_rhs_hunks-AreHunks}

abbrev diff : Text
diff =
    codes
      "diff --git a/x.py b/x.py\n--- a/x.py\n+++ b/x.py\n@@ -1,2 +1,3 @@ def f\n+y\n@@ -9 +10 @@\n@@ -20,2 +21,0 @@\n"

two_hunks : extract_rhs_hunks ascii diff ≡ some ((codes "x.py", (1, 3) ∷ (10, 1) ∷ []) ∷ [])
unfolding extract_rhs_hunks starts_with is_space strip text_eq parse_nat splitlines
two_hunks = refl

short_lines : All (λ raw. length raw ≤ 4300) (splitlines diff)
unfolding splitlines
short_lines = omega arith

extract_rhs_hunks-AreHunks_example : HasValue AreHunks (extract_rhs_hunks ascii diff)
extract_rhs_hunks-AreHunks_example = extract_rhs_hunks-AreHunks ascii diff short_lines

plain : IsPlain ascii
plain = (refl, refl)

match_hunk-header_example :
    match_hunk ascii (header (codes "1") (some (codes "2")) (codes "12") none (codes " def f"))
    ≡ some (codes "12", none)
match_hunk-header_example =
    match_hunk-header ascii (codes "1") (some (codes "2")) (codes "12") none (codes " def f") plain
      (refl, (refl, tt)) (refl, (refl, tt)) (refl, (refl, (refl, tt))) tt
