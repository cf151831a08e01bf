-- ===== src/Review/Attach/Tests.antt =====
-- Runs of the routing of the history to the findings.
use codesensei.Common.{
  ℕ, pos, ◌≡◌, refl, inl, none, some, List, [], ◌∷◌, ◌++◌, codes, text_eq, arith,
}
use codesensei.Review.Schema.{TemporalEntry, Finding, blocker}
use codesensei.Review.Windows.{LineWindow}
use codesensei.Review.Temporal.{Pool}
use codesensei.Review.Attach.{window_of, attach_temporal_context}
use codesensei.Review.Attach.Laws.{
  IsSoundPool, AreAttached, attach_temporal_context-AreAttached, attach_temporal_context-eq-none,
}

abbrev entry : TemporalEntry
entry = record {
  commit_sha = codes "abcdef0123abcdef0123abcdef0123abcdef0123";
  short_sha = codes "abcdef0";
  author_email = codes "a@b";
  author_date = codes "2026";
  subject = codes "Fix";
  hunk_lines_changed = 0;
}

abbrev silent : TemporalEntry
silent = record entry { subject = [] }

abbrev window : LineWindow
window = record { start_line = 3; end_line = 9 }

abbrev pool : TemporalEntry → Pool
pool e = (codes "a.py", (window, e ∷ []) ∷ []) ∷ []

abbrev at_line : ℕ → Finding
at_line n = record {
  file = codes "a.py";
  line = some (pos n);
  severity = blocker;
  message = codes "m";
  suggestion = none;
  temporal_context = none;
}

routes :
    attach_temporal_context (pool entry) (at_line 4 ∷ at_line 10 ∷ [])
    ≡ some (record (at_line 4) { temporal_context = some (entry ∷ []) } ∷ at_line 10 ∷ [])
unfolding attach_temporal_context text_eq
routes = refl

pool-IsSoundPool : IsSoundPool (pool entry)
pool-IsSoundPool = ((((refl, omega arith), tt), tt), tt)

attach_temporal_context-AreAttached_example :
    (gs : List Finding) × (attach_temporal_context (pool entry) (at_line 4 ∷ at_line 10 ∷ [])
      ≡ some gs)
    × AreAttached (pool entry) (at_line 4 ∷ at_line 10 ∷ []) gs
attach_temporal_context-AreAttached_example =
    attach_temporal_context-AreAttached (pool entry) (at_line 4 ∷ at_line 10 ∷ []) pool-IsSoundPool

finds_silent : window_of (pool silent) (at_line 4) ≡ some (window, silent ∷ [])
unfolding text_eq
finds_silent = refl

attach_temporal_context-eq-none_example :
    attach_temporal_context (pool silent) ((at_line 10 ∷ []) ++ (at_line 4 ∷ [])) ≡ none
attach_temporal_context-eq-none_example =
    attach_temporal_context-eq-none (pool silent) (at_line 10 ∷ []) [] (at_line 4) window
      (silent ∷ []) finds_silent (inl refl)
