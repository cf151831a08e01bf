-- ===== src/Indexing/Retrieval/Tests.antt =====
-- Runs of a search.
use codesensei.Common.{
  ℕ, ◌+◌, ◌-◌, ◌≡◌, refl, false, Option, none, some, [], ◌∷◌, Text, codes, map, is_space, is_break,
  starts_with, text_eq, splitlines, has_text, join_lines, comes_first,
}
use codesensei.Common.Digits.{ascii}
use codesensei.Indexing.Errors.{ok}
use codesensei.Indexing.Store.{Repo, https, CodeChunk, Db, find_repo, fetch_repo}
use codesensei.Indexing.Fill.{Provider}
use codesensei.Indexing.Queries.{is_hunk_start, window, queries_of, derive_queries}
use codesensei.Indexing.Retrieval.{
  found, retrieved, nearest, keep_best, add_rows, best_of, by_score, trim, search,
}
use codesensei.Indexing.Retrieval.Laws.{IsSearched, search-IsSearched}

abbrev row : Repo
row = record {
  repo_id = 0;
  source = codes "/r";
  source_kind = https;
  default_branch = none;
  indexed_at = some 5;
  chunk_count = 3;
  embedding_provider = some (codes "ollama");
  embedding_model = some (codes "m");
  last_error = none;
  codesensei_ignore_patterns = none;
}

abbrev chunk : ℕ → ℕ → ℕ → CodeChunk ℕ
chunk id tokens embedding = record {
  chunk_id = id;
  owner = 0;
  row = record {
    file_path = codes "a.py";
    language = codes "python";
    start_line = 1;
    end_line = 2;
    content = codes "x";
    token_count = tokens;
    embedding = embedding;
  };
}

-- A vector is a number, and the distance the difference.
abbrev pub distance : ℕ → ℕ → Option ℕ
distance a b = some ((a - b) + (b - a))

abbrev pub db : Db ℕ
db = record {
  repos = row ∷ [];
  chunks = chunk 1 60 0 ∷ chunk 2 50 900 ∷ chunk 3 40 300 ∷ chunk 4 1 2000000000 ∷ [];
  next_id = 5;
}

abbrev pub provider : Provider ℕ
provider = record { name = codes "ollama"; embed = λ texts. ok (map (λ t. 400) texts) }

abbrev diff : Text
diff = codes "@@ -1 +1 @@\n+x\n"

-- The nearest chunk is taken, the second does not fit with it, the third does.
two_chunks :
    search ascii distance db 0 5 100 (codes "m") diff (ok provider)
    ≡ found (record {
      selected = retrieved (chunk 3 40 300) 100 ∷ retrieved (chunk 1 60 0) 400 ∷ [];
      queries_count = 1;
      chunks_fetched = 3;
      chunks_used = 2;
      trimmed = 1;
      empty = false;
    })
unfolding search fetch_repo find_repo derive_queries queries_of is_hunk_start starts_with window
    has_text join_lines splitlines is_break is_space text_eq nearest keep_best add_rows best_of
    by_score trim comes_first
two_chunks = refl

search-IsSearched_example :
    IsSearched ascii distance
      (derive_queries ascii diff)
      (fetch_repo db 0)
      100
      (codes "m")
      (ok provider)
      (search ascii distance db 0 5 100 (codes "m") diff (ok provider))
search-IsSearched_example =
    search-IsSearched ascii distance db 0 5 100 (codes "m") diff (ok provider)
