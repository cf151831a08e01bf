-- ===== src/Indexing/Lifecycle/Tests.antt =====
-- Requests and passes over a database with one repository.
use codesensei.Common.{ℕ, false, true, none, some, [], ◌∷◌, codes, length, ◌≡◌, refl}
use codesensei.Indexing.Errors.{
  Outcome, ok, raised, index_error, IndexErrorCategory, provider_error, already_indexing,
}
use codesensei.Indexing.Store.{Repo, Db, https, fetch_repo, upsert_repo, update_repo, find_source}
use codesensei.Indexing.Source.{normalise_source}
use codesensei.Indexing.Fill.{Provider, Scan}
use codesensei.Indexing.Lifecycle.{
  dispatch, delete_repo, run_for_existing_repo, pool_unreachable, enqueue_fails, handle,
}
use codesensei.Indexing.Lifecycle.Stuck.{dispatch_unreachable_stuck}
use codesensei.Indexing.Lifecycle.Rollback.{
  DeleteResult, IsDeleted, delete_repo-DeleteResult, dispatch_rollback,
}
use codesensei.Indexing.Lifecycle.Worker.{HasStatus, status_after, run_for_existing_repo-HasStatus}

abbrev waiting_repo : Repo
waiting_repo = record {
  repo_id = 0;
  source = codes "https://h/r";
  source_kind = https;
  default_branch = none;
  indexed_at = none;
  chunk_count = 0;
  embedding_provider = none;
  embedding_model = none;
  last_error = none;
  codesensei_ignore_patterns = none;
}

abbrev ready_repo : Repo
ready_repo = record waiting_repo { indexed_at = some 5 }

abbrev empty : Db ℕ
empty = record { repos = []; chunks = []; next_id = 0 }

abbrev waiting : Db ℕ
waiting = record { repos = waiting_repo ∷ []; chunks = []; next_id = 1 }

abbrev settled : Db ℕ
settled = record { repos = ready_repo ∷ []; chunks = []; next_id = 1 }

canonical_source : normalise_source (codes " https://h/r.git// ") ≡ ok (codes "https://h/r", https)
unfolding normalise_source
canonical_source = refl

accepted :
    dispatch empty (codes "https://h/r.git/") none (handle (codes "j"))
    ≡ (ok (0, codes "j"), waiting)
unfolding dispatch normalise_source upsert_repo update_repo
accepted = refl

dispatch_unreachable_stuck_example :
    let db' = (dispatch empty (codes "https://h/r") none pool_unreachable).1 in
    dispatch db' (codes "https://h/r.git") none (handle (codes "j"))
    ≡ (raised (index_error already_indexing true), db')
unfolding normalise_source
dispatch_unreachable_stuck_example =
    dispatch_unreachable_stuck empty (codes "https://h/r") (codes "https://h/r.git")
      (codes "https://h/r") https https none none (handle (codes "j")) refl refl

delete_repo-DeleteResult_example :
    DeleteResult settled 0 (fetch_repo settled 0) (delete_repo settled 0)
delete_repo-DeleteResult_example = delete_repo-DeleteResult settled 0

dispatch_rollback_example :
    ((dispatch settled (codes "https://h/r") none enqueue_fails).0
      ≡ raised (index_error IndexErrorCategory.queue_unavailable true))
    × IsDeleted settled 0 (dispatch settled (codes "https://h/r") none enqueue_fails).1
unfolding normalise_source find_source fetch_repo
dispatch_rollback_example =
    dispatch_rollback settled (codes "https://h/r") (codes "https://h/r") https none ready_repo refl
      (record { by_source = refl; by_id = refl; settled = refl })

abbrev no_provider : Outcome (Provider ℕ)
no_provider = raised (provider_error false)

abbrev empty_tree : Repo → Outcome Scan
empty_tree row = ok (record { ignore_patterns = none; chunks = [] })

run_for_existing_repo-HasStatus_example :
    let r =
      run_for_existing_repo (λ n. n) length 9 empty_tree waiting 0 no_provider (codes "m") 7 in
    HasStatus r.1 0 (status_after r.0)
unfolding fetch_repo
run_for_existing_repo-HasStatus_example =
    run_for_existing_repo-HasStatus (λ n. n) length 9 empty_tree waiting 0 waiting_repo no_provider
      (codes "m") 7 (record { found = refl; not_indexed = refl; not_failed = refl })
