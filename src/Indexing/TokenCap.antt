-- ===== src/Indexing/TokenCap.antt =====
-- backend/src/codesensei/indexing/service.py: `_enforce_chunk_token_cap` and
-- `_split_chunk_recursive`. The tokenizer is a third-party package: `tokens` stands for
-- `len(self._encoder.encode(text))`.
pub mod Split
mod Endless
mod Tests
use codesensei.Common.Options.{◌>>=◌}
use codesensei.Common.{
  ℕ, zero, suc, ◌+◌, ◌-◌, ◌*◌, ◌/◌, max, Option, none, some, List, [], ◌∷◌, ◌++◌, Text, leb,
  if◌then◌else◌, length, take, drop, splitlines, join_lines,
}
use codesensei.Indexing.Chunk.{ChunkSpec}

abbrev pub max_chunk_tokens : ℕ
max_chunk_tokens = 7000

module _ (tokens : Text → ℕ) where
  -- The chunk that stands for `lines` when they fit.
  abbrev piece : ChunkSpec → List Text → ChunkSpec
  piece original lines = record {
    file_path = original.file_path;
    language = original.language;
    start_line = original.start_line;
    end_line = original.start_line + length lines - 1;
    content = join_lines lines;
  }

  -- The two chunks that the recursive calls are given.
  abbrev left_half : ChunkSpec → List Text → ℕ → ChunkSpec
  left_half original lines mid = record {
    file_path = original.file_path;
    language = original.language;
    start_line = original.start_line;
    end_line = original.start_line + mid - 1;
    content = join_lines (take mid lines);
  }

  abbrev right_half : ChunkSpec → List Text → ℕ → ChunkSpec
  right_half original lines mid = record {
    file_path = original.file_path;
    language = original.language;
    start_line = original.start_line + mid;
    end_line = original.start_line + length lines - 1;
    content = join_lines (drop mid lines);
  }

  -- The recursion on fuel, one for each nested call; `none` means that it ran out.
  pub split_chunk_recursive : ℕ → ChunkSpec → List Text → Option (List ChunkSpec)
  split_chunk_recursive zero original lines = none
  split_chunk_recursive (suc fuel) original lines =
      let mid = max 1 (length lines / 2) in
      let halves = (do
        left ← split_chunk_recursive fuel (left_half original lines mid) (take mid lines)
        right ← split_chunk_recursive fuel (right_half original lines mid) (drop mid lines)
        some (left ++ right)) in
      if leb (tokens (join_lines lines)) max_chunk_tokens
      then some (piece original lines ∷ [])
      else halves

  -- The truncation of a chunk that is one huge line.
  abbrev trimmed : ChunkSpec → ChunkSpec
  trimmed chunk = record chunk { content = take (max_chunk_tokens * 3) chunk.content }

  -- The body of the loop: what one chunk contributes, before its pieces are counted.
  pub enforce_one : ℕ → ChunkSpec → Option (List ChunkSpec)
  unfolding split_chunk_recursive
  enforce_one fuel chunk =
      let lines = splitlines chunk.content in
      if leb (tokens chunk.content) max_chunk_tokens
      then some (chunk ∷ [])
      else if leb (length lines) 1
      then some (trimmed chunk ∷ [])
      else split_chunk_recursive fuel chunk lines

  abbrev with_counts : List ChunkSpec → List (ChunkSpec × ℕ)
  with_counts [] = []
  with_counts (c ∷ cs) = (c, tokens c.content) ∷ with_counts cs

  -- The loop over the chunks. The two lists that it returns side by side are one list of pairs.
  unfoldable pub enforce_chunk_token_cap : ℕ → List ChunkSpec → Option (List (ChunkSpec × ℕ))
  unfolding enforce_one
  enforce_chunk_token_cap fuel [] = some []
  enforce_chunk_token_cap fuel (chunk ∷ chunks) = do
    out ← enforce_one fuel chunk
    rest ← enforce_chunk_token_cap fuel chunks
    some (with_counts out ++ rest)
