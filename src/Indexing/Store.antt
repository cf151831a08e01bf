-- ===== src/Indexing/Store.antt =====
-- backend/src/codesensei/indexing/models.py and store.py: the rows of `repositories` and
-- `code_chunks`, and the statements on them. The database is a value; identifiers, which the
-- database generates, are drawn from a counter. Embedding vectors are a type of the
-- caller's. The column `last_error` holds the category of the error in place of its message.
pub mod Laws
mod Tests
use codesensei.Common.{
  ℕ, zero, suc, ◌+◌, Bool, true, false, not, Option, none, some, List, [], ◌∷◌, ◌++◌, Text, text_eq,
  ◌==◌, if◌then◌else◌, length, is_empty, any,
}
use codesensei.Indexing.Errors.{IndexErrorCategory}

pub data SourceKind : Type 0 where
  https local : SourceKind

pub record Repo : Type 0 where
  pub repo_id : ℕ
  pub source : Text
  pub source_kind : SourceKind
  pub default_branch : Option Text
  pub indexed_at : Option ℕ
  pub chunk_count : ℕ
  pub embedding_provider : Option Text
  pub embedding_model : Option Text
  pub last_error : Option IndexErrorCategory
  pub codesensei_ignore_patterns : Option (List Text)

pub record ChunkInsert (V : Type 0) : Type 0 where
  pub file_path : Text
  pub language : Text
  pub start_line : ℕ
  pub end_line : ℕ
  pub content : Text
  pub token_count : ℕ
  pub embedding : V

pub record CodeChunk (V : Type 0) : Type 0 where
  pub chunk_id : ℕ
  pub owner : ℕ
  pub row : ChunkInsert V

pub record Db (V : Type 0) : Type 0 where
  pub repos : List Repo
  pub chunks : List (CodeChunk V)
  pub next_id : ℕ

-- `SELECT … WHERE source = …` and `WHERE id = …`.
unfoldable pub find_source : Text → List Repo → Option Repo
unfolding text_eq
find_source source [] = none
find_source source (r ∷ rs) =
    let rest = find_source source rs in if text_eq r.source source then some r else rest

unfoldable pub find_repo : ℕ → List Repo → Option Repo
find_repo id [] = none
find_repo id (r ∷ rs) = let rest = find_repo id rs in if r.repo_id == id then some r else rest

-- `UPDATE … WHERE id = …`.
unfoldable pub update_repo : ℕ → (Repo → Repo) → List Repo → List Repo
update_repo id f [] = []
update_repo id f (r ∷ rs) = (if r.repo_id == id then f r else r) ∷ update_repo id f rs

unfoldable pub remove_repo : ℕ → List Repo → List Repo
remove_repo id [] = []
remove_repo id (r ∷ rs) = let rest = remove_repo id rs in if r.repo_id == id then rest else r ∷ rest

abbrev pub new_repo : ℕ → Text → SourceKind → Option Text → Repo
new_repo id source source_kind default_branch = record {
  repo_id = id;
  source = source;
  source_kind = source_kind;
  default_branch = default_branch;
  indexed_at = none;
  chunk_count = 0;
  embedding_provider = none;
  embedding_model = none;
  last_error = none;
  codesensei_ignore_patterns = none;
}

abbrev pub refreshed : Text → Text → ℕ → ℕ → Option (List Text) → Repo → Repo
refreshed provider model at count patterns r = record r {
  indexed_at = some at;
  chunk_count = count;
  embedding_provider = some provider;
  embedding_model = some model;
  last_error = none;
  codesensei_ignore_patterns = patterns;
}

module _ {V : Type 0} where
  unfoldable pub fetch_repo : Db V → ℕ → Option Repo
  unfolding find_repo
  fetch_repo db id = find_repo id db.repos

  -- The row, whether it was created, and the database after the statement.
  unfoldable pub upsert_repo : Db V → Text → SourceKind → Option Text → Repo × Bool × Db V
  unfolding find_source
  upsert_repo db source source_kind default_branch = elim (find_source source db.repos) [
    | some row ↦ (row, false, db)
    | none ↦
        let row = new_repo db.next_id source source_kind default_branch in
        (row, true, record db { repos = db.repos ++ (row ∷ []); next_id = db.next_id + 1 })
  ]

  unfoldable pub without_owner : ℕ → List (CodeChunk V) → List (CodeChunk V)
  without_owner id [] = []
  without_owner id (c ∷ cs) =
      let rest = without_owner id cs in if c.owner == id then rest else c ∷ rest

  -- The delete cascades to the chunks. The flag says whether a row was removed.
  unfoldable pub delete_repo_by_id : Db V → ℕ → Bool × Db V
  unfolding remove_repo without_owner
  delete_repo_by_id db id = (
    any (λ (r : Repo). r.repo_id == id) db.repos,
    record db { repos = remove_repo id db.repos; chunks = without_owner id db.chunks },
  )

  unfoldable pub write_repo_failure : Db V → ℕ → IndexErrorCategory → Db V
  unfolding update_repo
  write_repo_failure db id message = record db {
    repos = update_repo id (λ r. record r { last_error = some message }) db.repos;
  }

  -- The inserted rows, with the identifiers from `next` on.
  numbered : ℕ → ℕ → List (ChunkInsert V) → List (CodeChunk V)
  numbered next id [] = []
  numbered next id (c ∷ cs) =
      record { chunk_id = next; owner = id; row = c } ∷ numbered (next + 1) id cs

  abbrev ids : List (CodeChunk V) → List ℕ
  ids [] = []
  ids (c ∷ cs) = c.chunk_id ∷ ids cs

  -- `DELETE … WHERE repo_id = … AND id <> ALL(new_ids)`.
  pub delete_complement : ℕ → List ℕ → List (CodeChunk V) → List (CodeChunk V)
  delete_complement id new_ids [] = []
  delete_complement id new_ids (c ∷ cs) =
      let rest = delete_complement id new_ids cs in
      if c.owner == id
      then if any (λ k. k == c.chunk_id) new_ids then c ∷ rest else rest
      else c ∷ rest

  -- Insert first, then delete the rows of this repository that are not new, then refresh the row. The
  -- repository's row is there; for one that is gone the foreign key refuses the first new chunk.
  unfoldable pub replace_chunks :
      Db V → ℕ → List (ChunkInsert V) → Text → Text → ℕ → Option (List Text) → Db V
  unfolding numbered delete_complement without_owner update_repo
  replace_chunks db id new_chunks provider model at patterns =
      let inserted = numbered db.next_id id new_chunks in
      record {
        repos = update_repo id (refreshed provider model at (length new_chunks) patterns) db.repos;
        chunks =
            if is_empty new_chunks
            then without_owner id db.chunks
            else delete_complement id (ids inserted) (db.chunks ++ inserted);
        next_id = db.next_id + length new_chunks;
      }

  -- The chunks of a repository.
  unfoldable pub chunks_of : ℕ → List (CodeChunk V) → List (ChunkInsert V)
  chunks_of id [] = []
  chunks_of id (c ∷ cs) = let rest = chunks_of id cs in if c.owner == id then c.row ∷ rest else rest
