-- ===== src/Indexing/Lifecycle/Rows.antt =====
-- `_register_async` by the state of the row that it finds.
use codesensei.Common.{◌+◌, true, false, ◌&&◌, Option, none, some, [], ◌∷◌, ◌++◌, Text, ◌≡◌}
use codesensei.Indexing.Errors.{ok, raised, index_error, already_indexing}
use codesensei.Indexing.Store.{
  SourceKind, Repo, Db, find_source, upsert_repo, update_repo, new_repo,
}
use codesensei.Indexing.Lifecycle.{register_async, is_none, pending}

module _ {V : Type 0} (db : Db V) (source : Text) (kind : SourceKind) (branch : Option Text) where
  -- The database with the new row.
  abbrev pub with_new : Db V
  with_new = record db {
    repos =
        update_repo db.next_id pending (db.repos ++ (new_repo db.next_id source kind branch ∷ []));
    next_id = db.next_id + 1;
  }

  pub register_async_new :
      find_source source db.repos ≡ none
      → register_async db source kind branch ≡ (ok db.next_id, with_new)
  unfolding register_async upsert_repo
  register_async_new absent = rw (absent, register_async, upsert_repo)

  pub register_async_busy :
      (row : Repo)
      → find_source source db.repos ≡ some row
      → (is_none row.indexed_at && is_none row.last_error) ≡ true
      → register_async db source kind branch ≡ (raised (index_error already_indexing true), db)
  unfolding register_async upsert_repo
  register_async_busy row found busy = rw (found, register_async, upsert_repo) (rw busy)

  pub register_async_settled :
      (row : Repo)
      → find_source source db.repos ≡ some row
      → (is_none row.indexed_at && is_none row.last_error) ≡ false
      → register_async db source kind branch
        ≡ (ok row.repo_id, record db { repos = update_repo row.repo_id pending db.repos })
  unfolding register_async upsert_repo
  register_async_settled row found settled = rw (found, register_async, upsert_repo) (rw settled)
