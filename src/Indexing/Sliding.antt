-- ===== src/Indexing/Sliding.antt =====
-- backend/src/codesensei/indexing/chunker.py: `chunk_sliding`, the fixed-line window with overlap.
mod Coverage
mod Tests
use mathlib.Core.Option
use codesensei.Common.{
  ℕ, zero, suc, ◌+◌, ◌-◌, min, max, not, ◌||◌, Option, none, some, List, [], ◌∷◌, Text, ltb, ◌==◌,
  if◌then◌else◌, length, take, drop, any, is_empty, splitlines, has_text, join_lines,
}
use codesensei.Indexing.Chunk.{ChunkSpec, language_for}

abbrev pub sliding_window_lines : ℕ
sliding_window_lines = 80

abbrev pub sliding_overlap_lines : ℕ
sliding_overlap_lines = 10

-- `lines[i:end]`.
abbrev pub slice : List Text → ℕ → ℕ → List Text
slice lines i end = take (end - i) (drop i lines)

module _ (file_path language : Text) (lines : List Text) (window step : ℕ) where
  abbrev chunk_at : ℕ → ChunkSpec
  chunk_at i =
      let end = min (length lines) (i + window) in
      record {
        file_path = file_path;
        language = language;
        start_line = i + 1;
        end_line = end;
        content = join_lines (slice lines i end);
      }

  -- The `while` loop; `none` means that the fuel ran out.
  slide : ℕ → ℕ → Option (List ChunkSpec)
  slide zero i = none
  slide (suc fuel) i =
      let rest = Option.map (λ cs. chunk_at i ∷ cs) (slide fuel (i + step)) in
      if ltb i (length lines)
      then if min (length lines) (i + window) == length lines then some (chunk_at i ∷ []) else rest
      else some []

abbrev or_language_for : Text → Option Text → Text
or_language_for file_path none = language_for file_path
or_language_for file_path (some language) = language

pub chunk_sliding : Text → Text → Option Text → ℕ → ℕ → Option (List ChunkSpec)
unfolding slide
chunk_sliding content file_path language window overlap =
    let lines = splitlines content in
    if is_empty lines || not (any has_text lines)
    then some []
    else slide file_path (or_language_for file_path language) lines window
        (max 1 (window - overlap)) (suc (length lines)) 0
