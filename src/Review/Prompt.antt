-- ===== src/Review/Prompt.antt =====
-- backend/src/codesensei/review/prompt.py: the user's message. The system's message is a constant, and
-- is left out.
use codesensei.Common.{
  ℕ, ◌+◌, pos, List, [], ◌∷◌, ◌++◌, Text, codes, decimal, join_lines, is_empty, if◌then◌else◌,
  length, take, ◌&&◌,
}
use codesensei.Review.Schema.{TemporalEntry}
use codesensei.Review.Temporal.{Found, Pool}
use codesensei.Indexing.Retrieval.{RetrievedChunk}

abbrev number : ℕ → Text
number n = decimal (pos n)

abbrev total_tokens : List RetrievedChunk → ℕ
total_tokens [] = 0
total_tokens (c ∷ cs) = c.token_count + total_tokens cs

-- " (lines a-b)".
abbrev lines_text : ℕ → ℕ → Text
lines_text start end =
    codes " (lines " ++ (number start ++ (codes "-" ++ (number end ++ codes ")")))

abbrev chunk_pieces : List RetrievedChunk → List Text
chunk_pieces [] = codes "End of repository context." ∷ [] ∷ []
chunk_pieces (c ∷ cs) =
    (codes "--- " ++ (c.file_path ++ (lines_text c.start_line c.end_line ++ codes " ---")))
    ∷ c.content
    ∷ []
    ∷ chunk_pieces cs

unfoldable pub render_context_block : List RetrievedChunk → Text
unfolding decimal join_lines
render_context_block [] = []
render_context_block (c ∷ cs) =
    join_lines (
      (codes "Relevant context from repository (top-"
        ++ (number (length (c ∷ cs))
            ++ (codes " chunks, total "
                ++ (number (total_tokens (c ∷ cs)) ++ codes " tokens):\n"))))
      ∷ chunk_pieces (c ∷ cs))
    ++ (10 ∷ [])

-- The windows with entries, and the files with such windows.
abbrev pub kept_windows : List Found → List Found
kept_windows [] = []
kept_windows ((w, []) ∷ ws) = kept_windows ws
kept_windows ((w, e ∷ es) ∷ ws) = (w, e ∷ es) ∷ kept_windows ws

abbrev pub with_file : Text → List Found → Pool → Pool
with_file path [] rest = rest
with_file path (w ∷ ws) rest = (path, w ∷ ws) ∷ rest

abbrev pub non_empty : Pool → Pool
non_empty [] = []
non_empty ((path, ws) ∷ files) = with_file path (kept_windows ws) (non_empty files)

abbrev entry_lines : List TemporalEntry → List Text → List Text
entry_lines [] rest = [] ∷ rest
entry_lines (e ∷ es) rest =
    (codes "  - "
      ++ (e.short_sha
          ++ (codes " "
              ++ (take 10 e.author_date
                  ++ (codes " " ++ (e.author_email ++ (codes ": " ++ e.subject)))))))
    ∷ entry_lines es rest

abbrev window_lines : Text → List Found → List Text → List Text
window_lines path [] rest = rest
window_lines path ((w, es) ∷ ws) rest =
    (codes "File: " ++ (path ++ lines_text w.start_line w.end_line))
    ∷ codes "Recent commits touching these lines:"
    ∷ entry_lines es (window_lines path ws rest)

abbrev file_lines : Pool → List Text
file_lines [] = []
file_lines ((path, ws) ∷ files) = window_lines path ws (file_lines files)

abbrev pub hints : Pool → Text
unfolding decimal join_lines
hints [] = []
hints (f ∷ files) =
    join_lines (
      codes
        "Code history hints (these lines have changed recently — consider whether your fix is consistent with recent intent):"
      ∷ []
      ∷ file_lines (f ∷ files))
    ++ (10 ∷ [])

unfoldable pub render_temporal_block : Pool → Text
unfolding hints
render_temporal_block pool = hints (non_empty pool)

-- `USER_TEMPLATE.format(DIFF=diff)`.
abbrev pub user_body : Text → Text
user_body diff = codes "Review the following unified diff:\n\n```diff\n" ++ (diff ++ codes "\n```")

unfoldable pub render_user_message : Text → List RetrievedChunk → Pool → Text
unfolding render_context_block render_temporal_block
render_user_message diff chunks pool =
    let temporal_block = render_temporal_block pool in
    let context_block = render_context_block chunks in
    if is_empty temporal_block && is_empty context_block
    then user_body diff
    else temporal_block ++ (context_block ++ user_body diff)
