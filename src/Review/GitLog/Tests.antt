-- ===== src/Review/GitLog/Tests.antt =====
-- Runs of the readers of git's output.
use codesensei.Common.{
  ℕ, zero, suc, ◌≡◌, refl, inl, inr, Bool, true, false, not, ◌==◌, all, Bool-cases, List, [], ◌∷◌,
  ◌++◌, Text, codes, join_lines, splitlines, split_on, has_text, text_eq, map, is_break, is_space,
  All, starts_with,
}
use codesensei.Review.Schema.{TemporalEntry}
use codesensei.Review.GitLog.{parse_log_records, count_hunk_lines, is_sha}
use codesensei.Review.GitLog.RoundTrip.{
  pretty, IsField, IsCommit, read_back, parse_log_records-pretty,
}
use codesensei.Review.GitLog.Counts.{AreDistinct, block_lines}
use codesensei.Review.GitLog.Patch.{
  added, removed, old_file, other, Commit, block_of, commit_count, count_hunk_lines-commits,
}
use codesensei.Review.GitLog.Patch

abbrev repeat : ℕ → Text → Text
repeat zero s = []
repeat (suc n) s = s ++ repeat n s

abbrev sha_a : Text
sha_a = repeat 4 (codes "abcdef0123")

abbrev sha_b : Text
sha_b = repeat 4 (codes "0123abcdef")

abbrev commit : TemporalEntry
commit = record {
  commit_sha = sha_a;
  short_sha = codes "abcdef0";
  author_email = codes "a@b";
  author_date = codes "2026-01-02";
  subject = codes "Fix it";
  hunk_lines_changed = 0;
}

-- A commit with an empty message.
abbrev silent : TemporalEntry
silent = record commit { subject = [] }

reads_silent : parse_log_records (pretty silent) ≡ silent ∷ []
unfolding parse_log_records splitlines split_on has_text
reads_silent = refl

true-false : false ≡ true → ⊥
true-false h = cc

-- A list is checked by evaluation.
none_pass : (p : ℕ → Bool) (xs : Text) → all (λ c. not (p c)) xs ≡ true → All (λ c. p c ≡ false) xs
none_pass p [] h = tt
none_pass p (x ∷ xs) h = elim (Bool-cases (p x)) [
  | inl hit ↦ absurd (true-false (rw hit at h))
  | inr miss ↦ (miss, none_pass p xs (rw miss at h))
]

clean :
    (s : Text) → all (λ c. not (is_break c)) s ≡ true → all (λ c. not (c == 9)) s ≡ true → IsField s
clean s h k = (none_pass is_break s h, none_pass (λ c. c == 9) s k)

commit-IsCommit : IsCommit commit
unfolding is_break is_space
commit-IsCommit = (
  refl,
  refl,
  none_pass is_space sha_a refl,
  (
    clean sha_a refl refl,
    (
      clean (codes "abcdef0") refl refl,
      (
        clean (codes "a@b") refl refl,
        (clean (codes "2026-01-02") refl refl, (clean (codes "Fix it") refl refl, tt)),
      ),
    ),
  ),
)

parse_log_records-pretty_example :
    parse_log_records (join_lines (map pretty (commit ∷ commit ∷ [])))
    ≡ read_back (commit ∷ commit ∷ [])
parse_log_records-pretty_example =
    parse_log_records-pretty (commit ∷ commit ∷ []) (commit-IsCommit, (commit-IsCommit, tt))

abbrev commits : List Commit
commits =
    (
      sha_a,
      other (codes "diff --git a/x b/x")
          ∷ old_file (codes "a/x")
          ∷ other (codes "@@ -1 +1 @@")
          ∷ removed (codes "old")
          ∷ added (codes "new")
          ∷ [],
    )
    ∷ (sha_b, added (codes "more") ∷ [])
    ∷ []

abbrev patch : Text
patch = join_lines (block_lines (map block_of commits))

lines_of_patch : splitlines patch ≡ block_lines (map block_of commits)
unfolding splitlines join_lines
lines_of_patch = refl

counts_of_patch : count_hunk_lines patch ≡ (sha_a, 2) ∷ (sha_b, 1) ∷ []
unfolding count_hunk_lines splitlines join_lines text_eq
counts_of_patch = refl

-- A removed comment of SQL is not counted.
counts_of_comment :
    count_hunk_lines (join_lines (sha_a ∷ codes "@@ -1 +0,0 @@" ∷ codes "--- old" ∷ []))
    ≡ (sha_a, 0) ∷ []
unfolding count_hunk_lines splitlines join_lines text_eq
counts_of_comment = refl

commits-IsCommit : All Patch.IsCommit commits
unfolding is_sha starts_with
commits-IsCommit = (
  (refl, refl, (((refl, refl), refl), (tt, (((refl, refl), refl), (refl, (refl, tt)))))),
  ((refl, refl, (refl, tt)), tt),
)

commits-AreDistinct : AreDistinct (map block_of commits)
unfolding text_eq
commits-AreDistinct = ((refl, tt), (tt, tt))

count_hunk_lines-commits_example : count_hunk_lines patch ≡ map commit_count commits
count_hunk_lines-commits_example =
    count_hunk_lines-commits patch commits lines_of_patch commits-IsCommit commits-AreDistinct
