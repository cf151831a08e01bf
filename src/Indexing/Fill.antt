-- ===== src/Indexing/Fill.antt =====
-- backend/src/codesensei/indexing/service.py: `_fill_repo`. Parameters: the tokenizer, the length
-- of an embedding vector, the provider, and what the walk of the working tree has found.
mod Laws
mod Tests
use codesensei.Common.{
  ℕ, zero, suc, ◌+◌, Bool, true, false, not, Option, none, some, List, [], ◌∷◌, ◌++◌, Text, ltb,
  ◌==◌, if◌then◌else◌, length, take, drop, any, is_empty, map,
}
use codesensei.Indexing.Errors.{
  Exc, Outcome, ok, raised, index_error, provider_error, job_error, redis_error, other,
  payload_too_large, embedding_failed, embedding_dimension_mismatch,
}
use codesensei.Indexing.Chunk.{ChunkSpec}
use codesensei.Indexing.TokenCap.{enforce_chunk_token_cap}
use codesensei.Indexing.Store.{ChunkInsert, Db, replace_chunks}

abbrev pub max_chunks_per_repo : ℕ
max_chunks_per_repo = 5000

abbrev pub embed_batch_size : ℕ
embed_batch_size = 100

abbrev pub expected_embedding_dim : ℕ
expected_embedding_dim = 1536

-- An embedding provider: its name, and its one call.
pub record Provider (V : Type 0) : Type 0 where
  pub name : Text
  pub embed : List Text → Outcome (List V)

-- What `parse_ignore_file` and `chunk_repo` return for the working tree.
pub record Scan : Type 0 where
  pub ignore_patterns : Option (List Text)
  pub chunks : List ChunkSpec

pub record Snapshot : Type 0 where
  pub chunk_count : ℕ
  pub indexed_at : ℕ
  pub embedding_provider : Text
  pub embedding_model : Text

infixl 5 ◌>>=◌
abbrev ◌>>=◌ {ℓ κ} : {A : Type ℓ} {B : Type κ} → Outcome A → (A → Outcome B) → Outcome B
ok a >>= f = f a
raised e >>= f = raised e

-- `except ProviderError as exc: raise IndexError(EMBEDDING_FAILED, …)`; `retryable` is given.
abbrev translate {ℓ} : {A : Type ℓ} → (Bool → Bool) → Outcome A → Outcome A
translate retryable (ok a) = ok a
translate retryable (raised (provider_error r)) =
    raised (index_error embedding_failed (retryable r))
translate retryable (raised (index_error c r)) = raised (index_error c r)
translate retryable (raised (job_error c)) = raised (job_error c)
translate retryable (raised redis_error) = raised redis_error
translate retryable (raised other) = raised other

-- A recursion of the token cap that does not end is a `RecursionError`.
abbrev or_recursion_error {ℓ} : {A : Type ℓ} → Option A → Outcome A
or_recursion_error none = raised other
or_recursion_error (some a) = ok a

module _ {V : Type 0} (dim : V → ℕ) where
  abbrev check_dims : List V → Outcome (List V)
  check_dims vectors =
      if any (λ v. not (dim v == expected_embedding_dim)) vectors
      then raised (index_error embedding_dimension_mismatch false)
      else ok vectors

  -- The loop over the batches; the fuel is the number of chunks, and each batch takes one or more.
  -- The progress callbacks, which cannot fail, are left out.
  embed_batches : Provider V → ℕ → List (ChunkSpec × ℕ) → Outcome (List V)
  embed_batches provider zero chunks = ok []
  embed_batches provider (suc fuel) [] = ok []
  embed_batches provider (suc fuel) (c ∷ chunks) =
      let batch = take embed_batch_size (c ∷ chunks) in
      do
        vectors ← provider.embed (map (λ (chunk, count). chunk.content) batch)
        vectors ← check_dims vectors
        more ← embed_batches provider fuel (drop embed_batch_size (c ∷ chunks))
        ok (vectors ++ more)

  -- `zip(chunks, token_counts, embeddings, strict=True)`: a `ValueError` where the lengths differ.
  zip_inserts : List (ChunkSpec × ℕ) → List V → Outcome (List (ChunkInsert V))
  zip_inserts [] [] = ok []
  zip_inserts [] (v ∷ vs) = raised other
  zip_inserts (c ∷ cs) [] = raised other
  zip_inserts ((chunk, count) ∷ cs) (v ∷ vs) = do
    rest ← zip_inserts cs vs
    ok (
        record {
          file_path = chunk.file_path;
          language = chunk.language;
          start_line = chunk.start_line;
          end_line = chunk.end_line;
          content = chunk.content;
          token_count = count;
          embedding = v;
        }
        ∷ rest)

  -- From the chunks with their token counts to the rows.
  embed_counted :
      List (ChunkSpec × ℕ) → Outcome (Provider V) → Outcome (Text × List (ChunkInsert V))
  unfolding embed_batches zip_inserts
  embed_counted counted provider =
      if ltb max_chunks_per_repo (length counted)
      then raised (index_error payload_too_large false)
      else do
        p ← translate (λ r. false) provider
        vectors ← translate (λ r. r) (embed_batches p (length counted) counted)
        inserts ← zip_inserts counted vectors
        ok (p.name, inserts)

  -- All that happens before the database is written: the provider's name and the rows to insert.
  -- Without chunks a missing provider's error is not translated.
  pub prepare :
      (Text → ℕ) → ℕ → List ChunkSpec → Outcome (Provider V) → Outcome (Text × List (ChunkInsert V))
  unfolding embed_counted
  prepare tokens fuel chunks provider =
      if ltb max_chunks_per_repo (length chunks)
      then raised (index_error payload_too_large false)
      else if is_empty chunks
      then (do p ← provider; ok (p.name, []))
      else (do
        counted ← or_recursion_error (enforce_chunk_token_cap tokens fuel chunks)
        embed_counted counted provider)

  unfoldable pub fill_repo :
      (Text → ℕ) → ℕ → Db V → ℕ → Scan → Outcome (Provider V) → Text → ℕ → Outcome Snapshot × Db V
  unfolding prepare
  fill_repo tokens fuel db id scan provider model now =
      elim (prepare tokens fuel scan.chunks provider) [
        | raised e ↦ (raised e, db)
        | ok (name, inserts) ↦ (
          ok (record {
            chunk_count = length inserts;
            indexed_at = now;
            embedding_provider = name;
            embedding_model = model;
          }),
          replace_chunks db id inserts name model now scan.ignore_patterns,
        )
      ]
