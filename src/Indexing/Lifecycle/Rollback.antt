-- ===== src/Indexing/Lifecycle/Rollback.antt =====
-- A registration whose job cannot be queued because the queue raises.
use codesensei.Common.{
  ℕ, true, false, ◌&&◌, Option, none, some, [], Text, ◌≡◌, refl, ◌∙◌, arith, Bool-cases, inl, inr,
  if◌then◌else◌, ◌≢◌,
}
use codesensei.Indexing.Errors.{Outcome, ok, raised, index_error, IndexErrorCategory}
use codesensei.Indexing.Store.{
  SourceKind, Repo, Db, find_source, fetch_repo, update_repo, delete_repo_by_id, chunks_of,
}
use codesensei.Indexing.Store.Laws.{
  find-update, find-update_ne, find-remove, chunks_of-without, any_id-eq,
}
use codesensei.Indexing.Source.{normalise_source}
use codesensei.Indexing.Lifecycle.Rows.{register_async_settled}
use codesensei.Indexing.Lifecycle.{
  dispatch, delete_if_pristine, delete_repo, is_none, pending, enqueue_fails,
}

module _ {V : Type 0} where
  -- Nothing of the repository is left, and every other one keeps its row and its chunks.
  abbrev pub IsDeleted : Db V → ℕ → Db V → Type 0
  IsDeleted db id db' =
      (fetch_repo db' id ≡ none)
      × (chunks_of id db'.chunks ≡ [])
      × ((j : ℕ) → j ≢ id → fetch_repo db' j ≡ fetch_repo db j)
      × ((j : ℕ) → j ≢ id → chunks_of j db'.chunks ≡ chunks_of j db.chunks)

  delete_repo_by_id-IsDeleted : (db : Db V) (id : ℕ) → IsDeleted db id (delete_repo_by_id db id).1
  unfolding delete_repo_by_id fetch_repo
  delete_repo_by_id-IsDeleted db id = (
    ground (arith, find-remove id id db.repos),
    ground (arith, chunks_of-without id id db.chunks),
    (λ j ne. ground (arith, find-remove id j db.repos)),
    λ j ne. ground (arith, chunks_of-without id j db.chunks),
  )

  -- What `delete_repo` owes, by the row that it finds.
  abbrev pub DeleteResult : Db V → ℕ → Option Repo → Outcome (Unit {0}) × Db V → Type 0
  DeleteResult db id none r = r ≡ (raised (index_error IndexErrorCategory.not_found false), db)
  DeleteResult db id (some row) r =
      if is_none row.indexed_at && is_none row.last_error
      then r ≡ (raised (index_error IndexErrorCategory.delete_during_index true), db)
      else (r.0 ≡ ok tt) × IsDeleted db id r.1

  removed :
      (db : Db V) (id : ℕ) (row : Repo)
      → fetch_repo db id ≡ some row
      → (delete_repo_by_id db id).0 ≡ true
  unfolding delete_repo_by_id fetch_repo
  removed db id row e = any_id-eq id db.repos row e

  -- The database as `_register_async` leaves it for a settled row.
  abbrev with_pending : Db V → ℕ → Db V
  with_pending db id = record db { repos = update_repo id pending db.repos }

  fetch-pending :
      (db : Db V) (row : Repo)
      → fetch_repo db row.repo_id ≡ some row
      → fetch_repo (with_pending db row.repo_id) row.repo_id ≡ some (pending row)
  unfolding fetch_repo
  fetch-pending db row e =
      rw (find-update row.repo_id row.repo_id pending db.repos (λ r. refl), e) (ground arith)

  delete_if_pristine-pending :
      (db : Db V) (id : ℕ) (row : Repo)
      → fetch_repo db id ≡ some (pending row)
      → delete_if_pristine db id ≡ (delete_repo_by_id db id).1
  unfolding delete_if_pristine
  delete_if_pristine-pending db id row e = rw (e, delete_if_pristine)

  IsDeleted-pending :
      (db : Db V) (id : ℕ) → IsDeleted db id (delete_repo_by_id (with_pending db id) id).1
  unfolding fetch_repo
  IsDeleted-pending db id =
      let (a, b, c, d) = delete_repo_by_id-IsDeleted (with_pending db id) id in
      (a, b, (λ j ne. c j ne ∙ find-update_ne id j pending db.repos (λ r. refl) ne), d)

  -- On every branch of `delete_repo`: an unknown repository is not found and one with a pass in
  -- progress is refused, both with the database as it was; any other is deleted with its chunks,
  -- and every other repository keeps its row and its chunks.
  pub delete_repo-DeleteResult :
      (db : Db V) (id : ℕ) → DeleteResult db id (fetch_repo db id) (delete_repo db id)
  unfolding delete_repo
  delete_repo-DeleteResult db id = go (fetch_repo db id) refl
    where
      go :
          (found : Option Repo)
          → fetch_repo db id ≡ found
          → DeleteResult db id found (delete_repo db id)
      go none e = rw (e, delete_repo)
      go (some row) e = elim (Bool-cases (is_none row.indexed_at && is_none row.last_error)) [
        | inl busy ↦ rw (busy, e, delete_repo) (rw busy)
        | inr settled ↦
            rw (settled, e, delete_repo)
              (rw settled (rw (removed db id row e), delete_repo_by_id-IsDeleted db id))
      ]

  -- The source has a settled row, under the identifier by which that row is found.
  pub record IsSettled (db : Db V) (canonical : Text) (row : Repo) : Type 0 where
    pub by_source : find_source canonical db.repos ≡ some row
    pub by_id : fetch_repo db row.repo_id ≡ some row
    pub settled : (is_none row.indexed_at && is_none row.last_error) ≡ false

  -- A request to index a settled repository again deletes it, with the chunks of its last pass, if
  -- the queue raises; every other repository keeps its row and its chunks.
  pub dispatch_rollback :
      (db : Db V) (source canonical : Text) (kind : SourceKind) (branch : Option Text) (row : Repo)
      → normalise_source source ≡ ok (canonical, kind)
      → IsSettled db canonical row
      → ((dispatch db source branch enqueue_fails).0
          ≡ raised (index_error IndexErrorCategory.queue_unavailable true))
        × IsDeleted db row.repo_id (dispatch db source branch enqueue_fails).1
  unfolding dispatch
  dispatch_rollback db source canonical kind branch row parsed s =
      let id = row.repo_id in
      let db1 = with_pending db id in
      let marked : fetch_repo db1 id ≡ some (pending row) = fetch-pending db row s.by_id in
      rw (parsed, register_async_settled db canonical kind branch row s.by_source s.settled)
        (rw (delete_if_pristine-pending db1 id row marked) (refl, IsDeleted-pending db id))
