-- ===== src/Indexing/Lifecycle.antt =====
-- backend/src/codesensei/indexing/service.py: the life of a repository row, from the request that
-- registers it to the worker that fills it; and `enqueue_index_repo` of tasks/enqueue.py.
mod Rows
mod Worker
mod Stuck
mod Rollback
mod Tests
use codesensei.Common.{
  ℕ, zero, suc, ◌+◌, Bool, true, false, not, ◌&&◌, Option, none, some, List, [], ◌∷◌, Text, ◌==◌,
  if◌then◌else◌,
}
use codesensei.Indexing.Errors.{
  IndexErrorCategory, Exc, Outcome, ok, raised, index_error, provider_error, job_error, redis_error,
  other, already_indexing, not_found, delete_during_index, JobErrorCategory, clone_failed,
}
use codesensei.Indexing.Store.{
  SourceKind, Repo, Db, fetch_repo, upsert_repo, update_repo, delete_repo_by_id, write_repo_failure,
}
use codesensei.Indexing.Source.{normalise_source}
use codesensei.Indexing.Fill.{Provider, Scan, Snapshot, fill_repo}

pub data Status : Type 0 where
  ready indexing failed : Status

abbrev pub is_none {ℓ} : {A : Type ℓ} → Option A → Bool
is_none none = true
is_none (some a) = false

-- `_repo_status`.
pub repo_status : Repo → Status
repo_status r =
    if not (is_none r.indexed_at)
    then ready
    else if not (is_none r.last_error)
    then failed
    else indexing

-- What `create_pool` and `pool.enqueue_job` answer.
pub data Queue : Type 0 where
  pool_unreachable enqueue_fails no_handle : Queue
  handle : Text → Queue

unfoldable pub enqueue_index_repo : Queue → Outcome Text
enqueue_index_repo pool_unreachable = raised (job_error JobErrorCategory.queue_unavailable)
enqueue_index_repo enqueue_fails = raised redis_error
enqueue_index_repo no_handle = raised (job_error JobErrorCategory.internal)
enqueue_index_repo (handle job_id) = ok job_id

abbrev pending : Repo → Repo
pending r = record r { indexed_at = none; last_error = none; chunk_count = 0 }

module _ {V : Type 0} where
  pub register_async : Db V → Text → SourceKind → Option Text → Outcome ℕ × Db V
  register_async db source source_kind default_branch =
      let (row, created, db') = upsert_repo db source source_kind default_branch in
      if not created && is_none row.indexed_at && is_none row.last_error
      then (raised (index_error already_indexing true), db')
      else (ok row.repo_id, record db' { repos = update_repo row.repo_id pending db'.repos })

  abbrev pristine_only : Db V → ℕ → Option Repo → Db V
  pristine_only db id none = db
  pristine_only db id (some row) =
      if is_none row.indexed_at && row.chunk_count == 0 then (delete_repo_by_id db id).1 else db

  pub delete_if_pristine : Db V → ℕ → Db V
  delete_if_pristine db id = pristine_only db id (fetch_repo db id)

  -- `except (ImportError, RedisError, OSError)`: a `JobError` is none of these.
  abbrev after_enqueue : Db V → ℕ → Outcome Text → Outcome (ℕ × Text) × Db V
  after_enqueue db id (ok job_id) = (ok (id, job_id), db)
  after_enqueue db id (raised redis_error) =
      (raised (index_error IndexErrorCategory.queue_unavailable true), delete_if_pristine db id)
  after_enqueue db id (raised (index_error c r)) = (raised (index_error c r), db)
  after_enqueue db id (raised (provider_error r)) = (raised (provider_error r), db)
  after_enqueue db id (raised (job_error c)) = (raised (job_error c), db)
  after_enqueue db id (raised other) = (raised other, db)

  abbrev after_register : Queue → Outcome ℕ × Db V → Outcome (ℕ × Text) × Db V
  after_register queue (raised e, db) = (raised e, db)
  after_register queue (ok id, db) = after_enqueue db id (enqueue_index_repo queue)

  abbrev dispatch_source :
      Db V → Option Text → Queue → Outcome (Text × SourceKind) → Outcome (ℕ × Text) × Db V
  dispatch_source db default_branch queue (raised e) = (raised e, db)
  dispatch_source db default_branch queue (ok (canonical, source_kind)) =
      after_register queue (register_async db canonical source_kind default_branch)

  -- `POST /api/index`: the repository and the job, or the error.
  pub dispatch : Db V → Text → Option Text → Queue → Outcome (ℕ × Text) × Db V
  unfolding register_async delete_if_pristine enqueue_index_repo
  dispatch db source default_branch queue =
      dispatch_source db default_branch queue (normalise_source source)

  abbrev delete_row : Db V → ℕ → Option Repo → Outcome (Unit {0}) × Db V
  delete_row db id none = (raised (index_error not_found false), db)
  delete_row db id (some row) =
      if is_none row.indexed_at && is_none row.last_error
      then (raised (index_error delete_during_index true), db)
      else let (removed, db') = delete_repo_by_id db id in
        (if removed then ok tt else raised (index_error not_found false), db')

  pub delete_repo : Db V → ℕ → Outcome (Unit {0}) × Db V
  delete_repo db id = delete_row db id (fetch_repo db id)

  -- `except IndexError`: the failure is recorded, and the error goes on.
  abbrev pub record_failure : ℕ → Outcome Snapshot × Db V → Outcome Snapshot × Db V
  record_failure id (ok snapshot, db) = (ok snapshot, db)
  record_failure id (raised (index_error c r), db) =
      (raised (index_error c r), write_repo_failure db id c)
  record_failure id (raised (provider_error r), db) = (raised (provider_error r), db)
  record_failure id (raised (job_error c), db) = (raised (job_error c), db)
  record_failure id (raised redis_error, db) = (raised redis_error, db)
  record_failure id (raised other, db) = (raised other, db)

-- `run_for_existing_repo`. The checkout stands for `materialise` and the walk of the tree.
module _ {V : Type 0} (dim : V → ℕ) (tokens : Text → ℕ) (fuel : ℕ)
    (checkout : Repo → Outcome Scan) where
  abbrev filled :
      Db V → ℕ → Outcome Scan → Outcome (Provider V) → Text → ℕ → Outcome Snapshot × Db V
  filled db id (raised e) provider model now = (raised e, db)
  filled db id (ok scan) provider model now =
      fill_repo dim tokens fuel db id scan provider model now

  abbrev run_for_row :
      Db V → ℕ → Option Repo → Outcome (Provider V) → Text → ℕ → Outcome Snapshot × Db V
  run_for_row db id none provider model now = (raised (index_error not_found false), db)
  run_for_row db id (some row) provider model now =
      record_failure id (filled db id (checkout row) provider model now)

  pub run_for_existing_repo : Db V → ℕ → Outcome (Provider V) → Text → ℕ → Outcome Snapshot × Db V
  run_for_existing_repo db id provider model now =
      run_for_row db id (fetch_repo db id) provider model now
