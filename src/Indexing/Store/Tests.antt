-- ===== src/Indexing/Store/Tests.antt =====
-- A replacement in a database of two repositories.
use codesensei.Common.{ℕ, none, [], ◌∷◌, Text, codes, ◌≡◌, refl}
use codesensei.Indexing.Store.{ChunkInsert, Db, replace_chunks, chunks_of}

abbrev row_of : Text → ChunkInsert ℕ
row_of text = record {
  file_path = codes "a.py";
  language = codes "python";
  start_line = 1;
  end_line = 1;
  content = text;
  token_count = 1;
  embedding = 1536;
}

abbrev two_owners : Db ℕ
two_owners = record {
  repos = [];
  chunks =
      record { chunk_id = 3; owner = 0; row = row_of (codes "old") }
      ∷ record { chunk_id = 4; owner = 1; row = row_of (codes "other") }
      ∷ [];
  next_id = 5;
}

replaced :
    chunks_of 0 (replace_chunks two_owners 0 (row_of (codes "new") ∷ []) [] [] 7 none).chunks
    ≡ row_of (codes "new") ∷ []
unfolding replace_chunks chunks_of
replaced = refl
