-- ===== src/Indexing/Fill/Tests.antt =====
-- A pass over a small tree, with one token for a character and vectors that are their length.
use codesensei.Common.{false, ℕ, ◌≡◌, refl, none, [], ◌∷◌, Text, codes, length, map, arith}
use codesensei.Indexing.Errors.{ok, raised, index_error, embedding_dimension_mismatch}
use codesensei.Indexing.Chunk.{ChunkSpec}
use codesensei.Indexing.TokenCap.{enforce_chunk_token_cap}
use codesensei.Indexing.Store.{Repo, Db, CodeChunk, https, replace_chunks}
use codesensei.Indexing.Store.Laws.{IsFresh}
use codesensei.Indexing.Fill.{Provider, Scan, fill_repo}
use codesensei.Indexing.Fill.Laws.{FillResult, fill_repo-FillResult}

abbrev vector_length : ℕ → ℕ
vector_length n = n

abbrev good_provider : Provider ℕ
good_provider = record { name = codes "openai"; embed = λ texts. ok (map (λ t. 1536) texts) }

abbrev bad_provider : Provider ℕ
bad_provider = record { name = codes "ollama"; embed = λ texts. ok (map (λ t. 768) texts) }

abbrev one_repo : Repo
one_repo = record {
  repo_id = 0;
  source = codes "https://h/r";
  source_kind = https;
  default_branch = none;
  indexed_at = none;
  chunk_count = 0;
  embedding_provider = none;
  embedding_model = none;
  last_error = none;
  codesensei_ignore_patterns = none;
}

abbrev chunk_of : Text → ChunkSpec
chunk_of text = record {
  file_path = codes "a.py";
  language = codes "python";
  start_line = 1;
  end_line = 1;
  content = text;
}

abbrev old_chunk : CodeChunk ℕ
old_chunk = record {
  chunk_id = 1;
  owner = 0;
  row = record {
    file_path = codes "b.py";
    language = codes "python";
    start_line = 1;
    end_line = 1;
    content = codes "y";
    token_count = 1;
    embedding = 1536;
  };
}

abbrev before : Db ℕ
before = record { repos = one_repo ∷ []; chunks = old_chunk ∷ []; next_id = 2 }

abbrev tree : Scan
tree = record { ignore_patterns = none; chunks = chunk_of (codes "x = 1") ∷ [] }

filled_ids :
    map
      (λ c. c.chunk_id)
      (fill_repo vector_length length 9 before 0 tree (ok good_provider) (codes "m") 7).1.chunks
    ≡ 2 ∷ []
unfolding fill_repo enforce_chunk_token_cap replace_chunks
filled_ids = refl

wrong_dimension :
    fill_repo vector_length length 9 before 0 tree (ok bad_provider) (codes "m") 7
    ≡ (raised (index_error embedding_dimension_mismatch false), before)
unfolding fill_repo enforce_chunk_token_cap
wrong_dimension = refl

before-IsFresh : IsFresh before
before-IsFresh = omega arith

fill_repo-FillResult_example :
    FillResult vector_length length before 0
      (fill_repo vector_length length 9 before 0 tree (ok good_provider) (codes "m") 7)
fill_repo-FillResult_example =
    fill_repo-FillResult vector_length length 9 before 0 tree (ok good_provider) (codes "m") 7
      before-IsFresh
