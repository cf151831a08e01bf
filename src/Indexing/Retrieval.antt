-- ===== src/Indexing/Retrieval.antt =====
-- backend/src/codesensei/indexing/retrieval.py: `RetrievalService.search` over the rows of the
-- store. Distances and scores, which Python keeps as floats, are whole numbers: a distance counts
-- billionths, a score halves of billionths. pgvector's distance of two vectors is a parameter, none
-- for NULL.
pub mod Best
pub mod Nearest
pub mod Hits
pub mod Budget
pub mod Candidates
pub mod Laws
pub mod Tests
use codesensei.Common.{
  ℕ, zero, suc, ◌+◌, ◌-◌, ◌*◌, Bool, true, false, not, ◌&&◌, Option, none, some, List, [], ◌∷◌,
  ◌++◌, Text, text_eq, ◌==◌, ltb, if◌then◌else◌, length, take, map, sort, is_empty, keep,
}
use codesensei.Common.Digits.{Unicode, is_some}
use codesensei.Review.Errors.{ReviewError, invalid_input, provider_unavailable, review_error}
use codesensei.Indexing.Errors.{
  Exc, Outcome, ok, raised, index_error, provider_error, job_error, redis_error, other,
  already_indexing, embedding_mismatch,
}
use codesensei.Indexing.Store.{Repo, CodeChunk, ChunkInsert, Db, fetch_repo}
use codesensei.Indexing.Fill.{Provider}
use codesensei.Indexing.Queries.{derive_queries}

abbrev pub distance_floor : ℕ
distance_floor = 1500000000

abbrev pub top_score : ℕ
top_score = 2000000000

pub record RetrievedChunk : Type 0 where
  pub chunk_id : ℕ
  pub repo_id : ℕ
  pub file_path : Text
  pub language : Text
  pub start_line : ℕ
  pub end_line : ℕ
  pub content : Text
  pub token_count : ℕ
  pub score : ℕ

pub record RetrievalResult : Type 0 where
  pub selected : List RetrievedChunk
  pub queries_count : ℕ
  pub chunks_fetched : ℕ
  pub chunks_used : ℕ
  pub trimmed : ℕ
  pub empty : Bool

-- The end of a search: a result, a `ReviewError`, or an exception of the indexing's kinds.
pub data Searched : Type 0 where
  found : RetrievalResult → Searched
  review_raised : ReviewError → Searched
  exc_raised : Exc → Searched

-- `max(0.0, 1.0 - distance / 2.0)`.
abbrev pub score_of : ℕ → ℕ
score_of distance = top_score - distance

abbrev pub retrieved : {V : Type 0} → CodeChunk V → ℕ → RetrievedChunk
retrieved c distance = record {
  chunk_id = c.chunk_id;
  repo_id = c.owner;
  file_path = c.row.file_path;
  language = c.row.language;
  start_line = c.row.start_line;
  end_line = c.row.end_line;
  content = c.row.content;
  token_count = c.row.token_count;
  score = score_of distance;
}

-- `best[chunk_id] = …` where it is new or scores higher.
unfoldable pub keep_best : RetrievedChunk → List RetrievedChunk → List RetrievedChunk
keep_best c [] = c ∷ []
keep_best c (e ∷ es) =
    let rest = keep_best c es in
    if e.chunk_id == c.chunk_id then (if ltb e.score c.score then c else e) ∷ es else e ∷ rest

-- `sorted(…, key=score, reverse=True)`; no score is above the top.
unfoldable pub by_score : List RetrievedChunk → List RetrievedChunk
by_score cs = sort (λ c. top_score - c.score) cs

-- `selected` and `token_total`.
pub record Trim : Type 0 where
  pub selected : List RetrievedChunk
  pub token_total : ℕ

abbrev pub trim_step : ℕ → Trim → RetrievedChunk → Trim
trim_step budget t c =
    if ltb budget (t.token_total + c.token_count)
    then t
    else record { selected = t.selected ++ (c ∷ []); token_total = t.token_total + c.token_count }

unfoldable pub trim_from : ℕ → Trim → List RetrievedChunk → Trim
trim_from budget t [] = t
trim_from budget t (c ∷ cs) = trim_from budget (trim_step budget t c) cs

unfoldable pub trim : ℕ → List RetrievedChunk → List RetrievedChunk
unfolding trim_from
trim budget candidates =
    (trim_from budget (record { selected = []; token_total = 0 }) candidates).selected

abbrev pub no_result : RetrievalResult
no_result = record {
  selected = [];
  queries_count = 0;
  chunks_fetched = 0;
  chunks_used = 0;
  trimmed = 0;
  empty = true;
}

-- A name that is set and differs.
abbrev pub differs : Option Text → Text → Bool
differs none active = false
differs (some persisted) active = not (is_empty persisted) && not (text_eq persisted active)

module _ {V : Type 0} (u : Unicode) (distance : V → V → Option ℕ) where
  -- A row of the query, with its distance.
  abbrev pub rows_of : V → List (CodeChunk V) → List (CodeChunk V × Option ℕ)
  rows_of vec cs = map (λ (c : CodeChunk V). (c, distance c.row.embedding vec)) cs

  abbrev pub number : CodeChunk V × Option ℕ → ℕ
  number (c, none) = 0
  number (c, some d) = d

  -- `WHERE repo_id = … ORDER BY distance LIMIT k`; NULL comes last.
  unfoldable pub nearest : Db V → ℕ → ℕ → V → List (CodeChunk V × Option ℕ)
  nearest db id top_k vec =
      let rows = rows_of vec (keep (λ (c : CodeChunk V). c.owner == id) db.chunks) in
      take top_k (
        sort number (keep (λ (r : CodeChunk V × Option ℕ). is_some r.1) rows)
        ++ keep (λ (r : CodeChunk V × Option ℕ). not (is_some r.1)) rows)

  -- The body of the loop over the rows.
  abbrev pub add_row : CodeChunk V × Option ℕ → List RetrievedChunk → List RetrievedChunk
  add_row (c, none) best = best
  add_row (c, some d) best = if ltb distance_floor d then best else keep_best (retrieved c d) best

  unfoldable pub add_rows :
      List (CodeChunk V × Option ℕ) → List RetrievedChunk → List RetrievedChunk
  add_rows [] best = best
  add_rows (r ∷ rs) best = add_rows rs (add_row r best)

  unfoldable pub best_of : Db V → ℕ → ℕ → List V → List RetrievedChunk → List RetrievedChunk
  unfolding nearest add_rows
  best_of db id top_k [] best = best
  best_of db id top_k (v ∷ vs) best = best_of db id top_k vs (add_rows (nearest db id top_k v) best)

  abbrev pub candidates_of : Db V → ℕ → ℕ → List V → List RetrievedChunk
  candidates_of db id top_k vectors = by_score (best_of db id top_k vectors [])

  abbrev pub result_of : ℕ → ℕ → List RetrievedChunk → RetrievalResult
  result_of queries_count token_budget candidates =
      let selected = trim token_budget candidates in
      record {
        selected = selected;
        queries_count = queries_count;
        chunks_fetched = length candidates;
        chunks_used = length selected;
        trimmed = length candidates - length selected;
        empty = is_empty selected;
      }

  -- `except ProviderError`.
  abbrev pub after_embed : Db V → ℕ → ℕ → ℕ → ℕ → Outcome (List V) → Searched
  after_embed db id top_k budget n (ok vectors) =
      found (result_of n budget (candidates_of db id top_k vectors))
  after_embed db id top_k budget n (raised (provider_error r)) =
      review_raised (review_error provider_unavailable r)
  after_embed db id top_k budget n (raised (index_error c r)) = exc_raised (index_error c r)
  after_embed db id top_k budget n (raised (job_error c)) = exc_raised (job_error c)
  after_embed db id top_k budget n (raised redis_error) = exc_raised redis_error
  after_embed db id top_k budget n (raised other) = exc_raised other

  abbrev pub with_queries : Db V → ℕ → ℕ → ℕ → Provider V → List Text → Searched
  with_queries db id top_k budget provider [] = found no_result
  with_queries db id top_k budget provider (q ∷ qs) =
      after_embed db id top_k budget (length (q ∷ qs)) (provider.embed (q ∷ qs))

  abbrev pub with_provider : Db V → ℕ → Repo → ℕ → ℕ → Text → Text → Outcome (Provider V) → Searched
  with_provider db id row top_k budget active_model diff (raised e) = exc_raised e
  with_provider db id row top_k budget active_model diff (ok provider) =
      if differs row.embedding_provider provider.name
      then exc_raised (index_error embedding_mismatch false)
      else if differs row.embedding_model active_model
      then exc_raised (index_error embedding_mismatch false)
      else with_queries db id top_k budget provider (derive_queries u diff)

  abbrev pub with_meta :
      Db V → ℕ → ℕ → ℕ → Text → Text → Outcome (Provider V) → Option Repo → Searched
  with_meta db id top_k budget active_model diff provider none =
      review_raised (review_error invalid_input false)
  with_meta db id top_k budget active_model diff provider (some row) =
      if not (is_some row.indexed_at)
      then exc_raised (index_error already_indexing true)
      else with_provider db id row top_k budget active_model diff provider

  -- `search(repo_id, diff, top_k, token_budget)`; the provider is what the factory returns.
  unfoldable pub search : Db V → ℕ → ℕ → ℕ → Text → Text → Outcome (Provider V) → Searched
  search db id top_k budget active_model diff provider =
      with_meta db id top_k budget active_model diff provider (fetch_repo db id)
