-- ===== src/Indexing/Queries/Tests.antt =====
-- Runs of `derive_queries`.
use codesensei.Common.{
  ◌≡◌, refl, [], ◌∷◌, Text, codes, is_space, is_break, starts_with, splitlines, has_text,
  join_lines,
}
use codesensei.Common.Digits.{ascii}
use codesensei.Indexing.Queries.{is_hunk_start, window, queries_of, derive_queries}
use codesensei.Indexing.Queries.Hunks.{
  HunkText, added, unchanged, removed, put_lines, hunks_text, hunk_queries, IsHeader,
  derive_queries-hunks,
}

-- The first hunk replaces a line, the second only removes one.
abbrev diff : Text
diff = codes "+++ b/x.py\n@@ -1,2 +1,2 @@ f\n a = 1\n-b = 2\n+b = 3\n@@ -9 +8,0 @@\n-c\n"

one_query : derive_queries ascii diff ≡ codes "a = 1\nb = 3" ∷ []
unfolding derive_queries queries_of is_hunk_start starts_with window has_text join_lines splitlines
    is_break is_space
one_query = refl

abbrev replaced : HunkText
replaced = record {
  header = codes "@@ -1,2 +1,2 @@ f";
  lines = (unchanged, codes "a = 1") ∷ (removed, codes "b = 2") ∷ (added, codes "b = 3") ∷ [];
}

header : IsHeader ascii replaced.header
unfolding is_hunk_start starts_with is_break
header = (
  (
    refl,
    (
      refl,
      (
        refl,
        (
          refl,
          (
            refl,
            (
              refl,
              (
                refl,
                (refl, (refl, (refl, (refl, (refl, (refl, (refl, (refl, (refl, (refl, tt)))))))))),
              ),
            ),
          ),
        ),
      ),
    ),
  ),
  λ s. refl,
)

derive_queries-hunks_example :
    derive_queries ascii (put_lines (codes "+++ b/x.py" ∷ []) (hunks_text (replaced ∷ [])))
    ≡ hunk_queries (replaced ∷ [])
unfolding is_break
derive_queries-hunks_example =
    derive_queries-hunks ascii (codes "+++ b/x.py" ∷ []) (replaced ∷ [])
      (
        (refl, (refl, (refl, (refl, (refl, (refl, (refl, (refl, (refl, (refl, (refl, tt))))))))))),
        tt,
      )
      (
        (
          header,
          (
            (refl, (refl, (refl, (refl, (refl, tt))))),
            (
              (refl, (refl, (refl, (refl, (refl, tt))))),
              ((refl, (refl, (refl, (refl, (refl, tt))))), tt),
            ),
          ),
        ),
        tt,
      )
