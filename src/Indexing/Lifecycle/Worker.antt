-- ===== src/Indexing/Lifecycle/Worker.antt =====
-- The worker's pass over a repository row: the status that it leaves.
use codesensei.Common.{
  ℕ, true, Option, some, List, [], ◌∷◌, Text, ◌==◌, ◌≡◌, refl, arith, if◌then◌else◌, ap, length,
}
use codesensei.Indexing.Errors.{
  IndexErrorCategory, Exc, Outcome, ok, raised, index_error, provider_error, job_error, redis_error,
  other,
}
use codesensei.Indexing.Store.{
  ChunkInsert, refreshed, Repo, Db, find_repo, fetch_repo, replace_chunks, write_repo_failure,
}
use codesensei.Indexing.Store.Laws.{find-update}
use codesensei.Indexing.Fill.{Provider, Scan, Snapshot, fill_repo, prepare}
use codesensei.Indexing.Lifecycle.{
  Status, ready, indexing, failed, is_none, repo_status, run_for_existing_repo, record_failure,
  filled,
}

-- The status that a pass should leave: an error that is not an `IndexError` leaves `indexing`.
abbrev pub status_after : Outcome Snapshot → Status
status_after (ok snapshot) = ready
status_after (raised (index_error c r)) = failed
status_after (raised (provider_error r)) = indexing
status_after (raised (job_error c)) = indexing
status_after (raised redis_error) = indexing
status_after (raised other) = indexing

same_row :
    (row : Repo) (id : ℕ) (f : Repo → Repo) (rs : List Repo)
    → find_repo id rs ≡ some row
    → (if row.repo_id == id then f row else row) ≡ f row
unfolding find_repo
same_row row id f [] e = cc
same_row row id f (r ∷ rs) e = ground (arith, same_row row id f rs)

module _ {V : Type 0} where
  -- The row is there, and has this status.
  abbrev pub HasStatus : Db V → ℕ → Status → Type 0
  HasStatus db id status = (row : Repo) × (fetch_repo db id ≡ some row) × (repo_status row ≡ status)

  -- The row of a pass that has just been registered.
  pub record IsWaiting (db : Db V) (id : ℕ) (row : Repo) : Type 0 where
    pub found : fetch_repo db id ≡ some row
    pub not_indexed : is_none row.indexed_at ≡ true
    pub not_failed : is_none row.last_error ≡ true

  IsWaiting-failed :
      (db : Db V) (id : ℕ) (row : Repo) (c : IndexErrorCategory)
      → IsWaiting db id row
      → HasStatus (write_repo_failure db id c) id failed
  unfolding write_repo_failure fetch_repo repo_status
  IsWaiting-failed db id row c w = (
    record row { last_error = some c },
    rw (find-update id id (λ r. record r { last_error = some c }) db.repos (λ r. refl), w.found)
        (ap some (same_row row id (λ r. record r { last_error = some c }) db.repos w.found)),
    rw w.not_indexed,
  )

  replaced-ready :
      (db : Db V) (id : ℕ) (row : Repo) (new : List (ChunkInsert V)) (provider model : Text)
      (at : ℕ) (patterns : Option (List Text))
      → fetch_repo db id ≡ some row
      → HasStatus (replace_chunks db id new provider model at patterns) id ready
  unfolding replace_chunks fetch_repo repo_status
  replaced-ready db id row new provider model at patterns found =
      let f = refreshed provider model at (length new) patterns in
      (
        f row,
        rw (find-update id id f db.repos (λ r. refl), found)
            (ap some (same_row row id f db.repos found)),
        refl,
      )

  recorded :
      (db : Db V) (id : ℕ) (row : Repo) (e : Exc)
      → IsWaiting db id row
      → let r = record_failure id (raised e, db) in HasStatus r.1 id (status_after r.0)
  unfolding repo_status
  recorded db id row (index_error c r) w = IsWaiting-failed db id row c w
  recorded db id row (provider_error r) w = (row, w.found, rw (w.not_indexed, w.not_failed))
  recorded db id row (job_error c) w = (row, w.found, rw (w.not_indexed, w.not_failed))
  recorded db id row redis_error w = (row, w.found, rw (w.not_indexed, w.not_failed))
  recorded db id row other w = (row, w.found, rw (w.not_indexed, w.not_failed))

module _ {V : Type 0} (dim : V → ℕ) (tokens : Text → ℕ) (fuel : ℕ)
    (checkout : Repo → Outcome Scan) where
  recorded_fill :
      (db : Db V) (id : ℕ) (row : Repo) (scan : Scan) (provider : Outcome (Provider V))
      (model : Text) (now : ℕ)
      → IsWaiting db id row
      → let r = record_failure id (fill_repo dim tokens fuel db id scan provider model now) in
        HasStatus r.1 id (status_after r.0)
  unfolding fill_repo
  recorded_fill db id row scan provider model now w =
      go (prepare dim tokens fuel scan.chunks provider) refl
    where
      go :
          (p : Outcome (Text × List (ChunkInsert V)))
          → prepare dim tokens fuel scan.chunks provider ≡ p
          → let r = record_failure id (fill_repo dim tokens fuel db id scan provider model now) in
            HasStatus r.1 id (status_after r.0)
      go (raised e) q = rw (q, fill_repo) (recorded db id row e w)
      go (ok (name, rows)) q =
          rw (q, fill_repo)
            (replaced-ready db id row rows name model now scan.ignore_patterns w.found)

  -- After a pass over a waiting row: `ready` if it returns, `failed` if it raises an `IndexError`. Any
  -- other error leaves the row `indexing`.
  pub run_for_existing_repo-HasStatus :
      (db : Db V) (id : ℕ) (row : Repo) (provider : Outcome (Provider V)) (model : Text) (now : ℕ)
      → IsWaiting db id row
      → let r = run_for_existing_repo dim tokens fuel checkout db id provider model now in
        HasStatus r.1 id (status_after r.0)
  unfolding run_for_existing_repo
  run_for_existing_repo-HasStatus db id row provider model now w =
      rw (w.found, run_for_existing_repo) (go (checkout row))
    where
      go :
          (c : Outcome Scan)
          → let r =
              record_failure id (filled dim tokens fuel checkout db id c provider model now) in
            HasStatus r.1 id (status_after r.0)
      go (raised e) = recorded db id row e w
      go (ok scan) = recorded_fill db id row scan provider model now w
