-- ===== src/Indexing/Sliding/Tests.antt =====
-- Runs of `chunk_sliding`.
use codesensei.Common.{◌≡◌, refl, none, some, [], ◌∷◌, codes}
use codesensei.Indexing.Chunk.{ChunkSpec, language_for}
use codesensei.Indexing.Sliding.{chunk_sliding}
use codesensei.Common.{splitlines, has_text, join_lines, List, max, ◌-◌, arith}
use codesensei.Indexing.Sliding.Coverage.{CoversFrom, chunk_sliding-CoversFrom}

two_windows :
    chunk_sliding (codes "a\nb\nc\n") (codes "x/y.PY") none 2 1
    ≡ some (
        record {
          file_path = codes "x/y.PY";
          language = codes "python";
          start_line = 1;
          end_line = 2;
          content = codes "a\nb";
        }
        ∷ record {
          file_path = codes "x/y.PY";
          language = codes "python";
          start_line = 2;
          end_line = 3;
          content = codes "b\nc";
        }
        ∷ [])
unfolding chunk_sliding splitlines has_text join_lines language_for
two_windows = refl

chunk_sliding-CoversFrom_example :
    (cs : List ChunkSpec) × (chunk_sliding (codes "a\nb\nc\n") (codes "x") none 2 1 ≡ some cs)
    × CoversFrom (splitlines (codes "a\nb\nc\n")) 2 (max 1 (2 - 1)) 0 cs
unfolding has_text splitlines
chunk_sliding-CoversFrom_example =
    chunk_sliding-CoversFrom (codes "a\nb\nc\n") (codes "x") none 2 1 (omega arith) refl
