-- ===== src/Indexing/Retrieval/Laws.antt =====
-- What a search returns.
use codesensei.Common.{
  ℕ, ◌≡◌, refl, inl, inr, true, false, Option, none, some, List, [], ◌∷◌, Text, length, Bool-cases,
  arith, ◌⊎◌,
}
use codesensei.Common.Options.{HasValue}
use codesensei.Common.Digits.{Unicode, is_some}
use codesensei.Review.Errors.{provider_unavailable, invalid_input}
use codesensei.Indexing.Errors.{
  Exc, Outcome, ok, raised, index_error, provider_error, job_error, redis_error, other,
  already_indexing, embedding_mismatch,
}
use codesensei.Indexing.Store.{Repo, Db, fetch_repo}
use codesensei.Indexing.Fill.{Provider}
use codesensei.Indexing.Queries.{derive_queries}
use codesensei.Indexing.Retrieval.{
  RetrievedChunk, Searched, found, review_raised, exc_raised, after_embed, with_queries,
  with_provider, with_meta, search, differs,
}
use codesensei.Indexing.Retrieval.Candidates.{IsSelection, result_of-IsSelection}

module _ {V : Type 0} (u : Unicode) (distance : V → V → Option ℕ) where
  -- The row's pass is over, and it was made with the provider and the model in use.
  abbrev pub IsReady : Text → Provider V → Repo → Type 0
  IsReady model provider row =
      (is_some row.indexed_at ≡ true)
      × (differs row.embedding_provider provider.name ≡ false)
      × (differs row.embedding_model model ≡ false)

  -- The exception is raised before the provider is asked: by the factory, or since the pass is not
  -- over, or the provider or the model is another.
  abbrev pub IsEarly : Text → Outcome (Provider V) → Exc → Repo → Type 0
  IsEarly model (raised f) e row =
      ((is_some row.indexed_at ≡ false) × (e ≡ index_error already_indexing true))
      ⊎ ((is_some row.indexed_at ≡ true) × (e ≡ f))
  IsEarly model (ok provider) e row =
      ((is_some row.indexed_at ≡ false) × (e ≡ index_error already_indexing true))
      ⊎ ((is_some row.indexed_at ≡ true)
          × ((differs row.embedding_provider provider.name ≡ true)
              ⊎ (differs row.embedding_model model ≡ true))
          × (e ≡ index_error embedding_mismatch false))

  -- No query, and nothing selected; or the provider embedded the queries.
  abbrev pub IsAnswered : Provider V → List Text → List RetrievedChunk → Type 0
  IsAnswered provider qs selected =
      ((qs ≡ []) × (selected ≡ [])) ⊎ ((vs : List V) × (provider.embed qs ≡ ok vs))

  abbrev pub IsSearched :
      List Text → Option Repo → ℕ → Text → Outcome (Provider V) → Searched → Type 0
  IsSearched qs row budget model (ok provider) (found r) =
      HasValue (IsReady model provider) row
      × (r.queries_count ≡ length qs)
      × IsAnswered provider qs r.selected
      × IsSelection budget r
  IsSearched qs row budget model (raised f) (found r) = ⊥
  IsSearched qs row budget model (ok provider) (review_raised e) =
      ((row ≡ none) × (e.category ≡ invalid_input))
      ⊎ (HasValue (IsReady model provider) row
          × (provider.embed qs ≡ raised (provider_error e.retryable))
          × (e.category ≡ provider_unavailable))
  IsSearched qs row budget model (raised f) (review_raised e) =
      (row ≡ none) × (e.category ≡ invalid_input)
  IsSearched qs row budget model (ok provider) (exc_raised e) =
      HasValue (IsEarly model (ok provider) e) row
      ⊎ (HasValue (IsReady model provider) row × (provider.embed qs ≡ raised e))
  IsSearched qs row budget model (raised f) (exc_raised e) =
      HasValue (IsEarly model (raised f) e) row

  after_embed-IsSearched :
      (db : Db V) (id k budget : ℕ) (row : Repo) (model : Text) (provider : Provider V)
      (qs : List Text) (o : Outcome (List V))
      → IsReady model provider row
      → provider.embed qs ≡ o
      → IsSearched qs
          (some row)
          budget
          model
          (ok provider)
          (after_embed u distance db id k budget (length qs) o)
  after_embed-IsSearched db id k budget row model provider qs (ok vs) ready at =
      (ready, refl, inr (vs, at), result_of-IsSelection u distance db id k budget (length qs) vs)
  after_embed-IsSearched db id k budget row model provider qs (raised (provider_error r)) ready at =
      inr (ready, at, refl)
  after_embed-IsSearched db id k budget row model provider qs (raised (index_error c r)) ready at =
      inr (ready, at)
  after_embed-IsSearched db id k budget row model provider qs (raised (job_error c)) ready at =
      inr (ready, at)
  after_embed-IsSearched db id k budget row model provider qs (raised redis_error) ready at =
      inr (ready, at)
  after_embed-IsSearched db id k budget row model provider qs (raised other) ready at =
      inr (ready, at)

  with_queries-IsSearched :
      (db : Db V) (id k budget : ℕ) (row : Repo) (model : Text) (provider : Provider V)
      (qs : List Text)
      → IsReady model provider row
      → IsSearched qs
          (some row)
          budget
          model
          (ok provider)
          (with_queries u distance db id k budget provider qs)
  with_queries-IsSearched db id k budget row model provider [] ready =
      (ready, refl, inl (refl, refl), (omega arith, tt, tt, refl, omega arith, refl))
  with_queries-IsSearched db id k budget row model provider (q ∷ qs) ready =
      after_embed-IsSearched db id k budget row model provider (q ∷ qs) (provider.embed (q ∷ qs))
        ready refl

  with_provider-IsSearched :
      (db : Db V) (id k budget : ℕ) (row : Repo) (model diff : Text)
      (provider : Outcome (Provider V))
      → is_some row.indexed_at ≡ true
      → IsSearched
          (derive_queries u diff)
          (some row)
          budget
          model
          provider
          (with_provider u distance db id row k budget model diff provider)
  with_provider-IsSearched db id k budget row model diff (raised e) ready = inr (ready, refl)
  with_provider-IsSearched db id k budget row model diff (ok provider) ready =
      elim (Bool-cases (differs row.embedding_provider provider.name)) [
        | inl other_provider ↦ rw other_provider (inl (inr (ready, inl other_provider, refl)))
        | inr same_provider ↦
            rw same_provider (elim (Bool-cases (differs row.embedding_model model)) [
              | inl other_model ↦ rw other_model (inl (inr (ready, inr other_model, refl)))
              | inr same_model ↦ rw same_model (
                  with_queries-IsSearched db id k budget row model provider (derive_queries u diff)
                    (ready, same_provider, same_model))
            ])
      ]

  with_waiting-IsSearched :
      (qs : List Text) (budget : ℕ) (model : Text) (provider : Outcome (Provider V)) (row : Repo)
      → is_some row.indexed_at ≡ false
      → IsSearched qs
          (some row)
          budget
          model
          provider
          (exc_raised (index_error already_indexing true))
  with_waiting-IsSearched qs budget model (ok provider) row waiting = inl (inl (waiting, refl))
  with_waiting-IsSearched qs budget model (raised f) row waiting = inl (waiting, refl)

  with_meta-IsSearched :
      (db : Db V) (id k budget : ℕ) (model diff : Text) (provider : Outcome (Provider V))
      (row : Option Repo)
      → IsSearched
          (derive_queries u diff)
          row
          budget
          model
          provider
          (with_meta u distance db id k budget model diff provider row)
  with_meta-IsSearched db id k budget model diff (ok provider) none = inl (refl, refl)
  with_meta-IsSearched db id k budget model diff (raised f) none = (refl, refl)
  with_meta-IsSearched db id k budget model diff provider (some row) =
      elim (Bool-cases (is_some row.indexed_at)) [
        | inl ready ↦
            rw ready (with_provider-IsSearched db id k budget row model diff provider ready)
        | inr waiting ↦
            rw waiting
              (with_waiting-IsSearched (derive_queries u diff) budget model provider row waiting)
      ]

  -- A search that returns does so for a repository whose pass is over, with the provider and the model
  -- in use, which embedded the diff's queries where there are any; its chunks are within the token
  -- budget, no chunk twice, best score first, and counted. A `ReviewError` is for an unknown
  -- repository, as invalid input, or for a `ProviderError` of the embedding, with its retryable flag,
  -- as an unavailable provider. Any other exception says that the pass is not over, or that the
  -- provider or the model differs, or is the factory's or the embedding's.
  pub search-IsSearched :
      (db : Db V) (id k budget : ℕ) (model diff : Text) (provider : Outcome (Provider V))
      → IsSearched
          (derive_queries u diff)
          (fetch_repo db id)
          budget
          model
          provider
          (search u distance db id k budget model diff provider)
  unfolding search
  search-IsSearched db id k budget model diff provider =
      with_meta-IsSearched db id k budget model diff provider (fetch_repo db id)
