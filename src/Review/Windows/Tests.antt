-- ===== src/Review/Windows/Tests.antt =====
-- Windows of small diffs.
use codesensei.Common.{◌+◌, ◌-◌, [], ◌∷◌, codes, ◌≡◌, refl, arith, inl, inr}
use codesensei.Review.Windows.{Hunk, collapse_diff_to_windows, merged}
use codesensei.Review.Windows.Cover.{Contains, merged-Contains}
use codesensei.Common.{List, All, length, ◌≤◌}
use codesensei.Review.Windows.{max_windows_per_file}
use codesensei.Review.Windows.Separate.{AreWindows, collapse_diff_to_windows-AreWindows}

abbrev hunks : List Hunk
hunks = (40, 300) ∷ (1, 4) ∷ (9, 0) ∷ (8, 3) ∷ []

collapsed :
    collapse_diff_to_windows ((codes "a", hunks) ∷ (codes "b", (3, 0) ∷ []) ∷ [])
    ≡ (
      codes "a",
      record { start_line = 1; end_line = 10 } ∷ record { start_line = 40; end_line = 239 } ∷ [],
    )
      ∷ []
unfolding collapse_diff_to_windows
collapsed = refl

merged-Contains_example : Contains 8 (8 + 3 - 1) (merged hunks)
merged-Contains_example =
    merged-Contains hunks 8 3 (inr (inr (inr (inl (refl, refl))))) (omega arith)

collapse_diff_to_windows-AreWindows_example :
    All
      (λ (path, ws). (length ws ≤ max_windows_per_file) × AreWindows ws)
      (collapse_diff_to_windows ((codes "a", hunks) ∷ []))
collapse_diff_to_windows-AreWindows_example =
    collapse_diff_to_windows-AreWindows ((codes "a", hunks) ∷ [])
