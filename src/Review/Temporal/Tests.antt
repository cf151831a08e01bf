-- ===== src/Review/Temporal/Tests.antt =====
-- Runs of the collection of a review's history.
use codesensei.Common.{
  ℕ, ◌*◌, ◌≡◌, ◌≢◌, refl, true, List, [], ◌∷◌, Text, codes, map, text_eq, splitlines, has_text,
  split_on, arith, if◌then◌else◌,
}
use codesensei.Review.Schema.{TemporalEntry}
use codesensei.Review.Windows.{LineWindow}
use codesensei.Review.GitLog.{parse_log_records}
use codesensei.Review.Temporal.{
  Query, GitEnd, prints, times_out, raises, usable, TaskEnd, returns, cancelled,
  fetch_temporal_context, fetch_temporal_pool_for_review,
}
use codesensei.Review.Temporal.Asks.{
  Returns, AreAsked, fetch_temporal_context-Returns, fetch_temporal_context-AreAsked,
}
use codesensei.Review.Temporal.Pooled.{IsFrontOf, IsPooled, fetch_temporal_pool_for_review-IsPooled}

abbrev window : LineWindow
window = record { start_line = 7; end_line = 400 }

abbrev small : LineWindow
small = record { start_line = 1; end_line = 2 }

abbrev log : Text
log = codes "abcdef0123abcdef0123abcdef0123abcdef0123\tabcdef0\ta@b\t2026\tFix"

-- The log is printed, and the patches time out.
abbrev git : Query → GitEnd
git q = if q.patch then times_out else prints log

git_quiet : (q : Query) → git q ≢ raises
git_quiet q e = ground (arith, e)

asks_200 :
    map
      (λ q. q.end_line)
      (fetch_temporal_context git (usable (codes "c")) (codes "a.py") window 5).queries
    ≡ 206 ∷ 206 ∷ []
unfolding fetch_temporal_context parse_log_records splitlines has_text split_on
asks_200 = refl

fetch_temporal_context-Returns_example :
    Returns (fetch_temporal_context git (usable (codes "c")) (codes "a.py") window 5)
fetch_temporal_context-Returns_example =
    fetch_temporal_context-Returns git (usable (codes "c")) (codes "a.py") window 5 git_quiet

fetch_temporal_context-AreAsked_example :
    AreAsked (fetch_temporal_context git (usable (codes "c")) (codes "a.py") window 5)
fetch_temporal_context-AreAsked_example =
    fetch_temporal_context-AreAsked git (usable (codes "c")) (codes "a.py") window 5

abbrev entry : TemporalEntry
entry = record {
  commit_sha = codes "abcdef0123abcdef0123abcdef0123abcdef0123";
  short_sha = codes "abcdef0";
  author_email = codes "a@b";
  author_date = codes "2026";
  subject = codes "Fix";
  hunk_lines_changed = 0;
}

-- Only the first window has a history; each reading of the clock is 900 ms later.
abbrev ends : Text → LineWindow → TaskEnd
ends path w = if text_eq path (codes "a.py") then returns (entry ∷ []) else cancelled

abbrev files : List (Text × List LineWindow)
files = (codes "b.py", small ∷ []) ∷ (codes "a.py", small ∷ window ∷ []) ∷ []

abbrev clock : ℕ → ℕ
clock n = n * 900000

pools_two :
    (fetch_temporal_pool_for_review clock ends files).0
    ≡ (codes "a.py", (small, entry ∷ []) ∷ (window, entry ∷ []) ∷ []) ∷ []
unfolding fetch_temporal_pool_for_review text_eq
pools_two = refl

late : (fetch_temporal_pool_for_review clock ends files).1.budget_exceeded ≡ true
unfolding fetch_temporal_pool_for_review text_eq
late = refl

fetch_temporal_pool_for_review-IsPooled_example :
    (started : List (Text × LineWindow)) × IsFrontOf clock started
      (fetch_temporal_pool_for_review clock ends files).1.budget_exceeded
      files
    × IsPooled ends started (fetch_temporal_pool_for_review clock ends files)
fetch_temporal_pool_for_review-IsPooled_example =
    fetch_temporal_pool_for_review-IsPooled clock ends files
