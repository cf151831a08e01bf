-- ===== src/Indexing/Lifecycle/Stuck.antt =====
-- A registration whose job cannot be queued because the pool is out of reach.
use codesensei.Common.{
  ℕ, true, Option, some, Text, ◌==◌, ◌≡◌, refl, arith, ◌&&◌, Bool-cases, inl, inr, Option-cases,
}
use codesensei.Indexing.Errors.{Outcome, ok, raised, index_error, already_indexing}
use codesensei.Indexing.Store.{SourceKind, Repo, Db, find_source, new_repo}
use codesensei.Indexing.Store.Laws.{find_source-update, find_source-append_new}
use codesensei.Indexing.Source.{normalise_source}
use codesensei.Indexing.Lifecycle.Rows.{
  register_async_new, register_async_busy, register_async_settled,
}
use codesensei.Indexing.Lifecycle.{
  Queue, pool_unreachable, register_async, dispatch, is_none, pending, after_register,
}

module _ {V : Type 0} where
  -- The source has a row, and a pass over it is taken to be in progress.
  abbrev pub IsPending : Db V → Text → Type 0
  IsPending db source =
      (row : Repo) × (find_source source db.repos ≡ some row)
      × (is_none row.indexed_at ≡ true)
      × (is_none row.last_error ≡ true)

  -- Every call of `_register_async` leaves the source pending, the refused one too.
  register_async-IsPending :
      (db : Db V) (source : Text) (kind : SourceKind) (branch : Option Text)
      → IsPending (register_async db source kind branch).1 source
  register_async-IsPending db source kind branch =
      elim (Option-cases (find_source source db.repos)) [
        | inl absent ↦
            let row = new_repo db.next_id source kind branch in
            rw (register_async_new db source kind branch absent) (
              pending row,
              rw (find_source-update, find_source-append_new source db.repos row absent refl)
                  (rw (same_id db.next_id)),
              refl,
              refl,
            )
        | inr (row, found) ↦ elim (Bool-cases (is_none row.indexed_at && is_none row.last_error)) [
          | inl busy ↦
              rw (register_async_busy db source kind branch row found busy)
                (row, found, ground arith, ground arith)
          | inr settled ↦
              rw (register_async_settled db source kind branch row found settled)
                (pending row, rw (find_source-update, found) (rw (same_id row.repo_id)), refl, refl)
        ]
      ]
    where
      same_id : (n : ℕ) → (n == n) ≡ true
      same_id n = ground arith

  -- While a source is pending, a request for it is refused and changes nothing.
  dispatch_pending :
      (db : Db V) (source canonical : Text) (kind : SourceKind) (branch : Option Text)
      (queue : Queue)
      → normalise_source source ≡ ok (canonical, kind)
      → IsPending db canonical
      → dispatch db source branch queue ≡ (raised (index_error already_indexing true), db)
  unfolding dispatch
  dispatch_pending db source canonical kind branch queue parsed (row, found, a, b) =
      rw (parsed, register_async_busy db canonical kind branch row found (rw (a, b)))

  dispatch_unreachable-IsPending :
      (db : Db V) (source canonical : Text) (kind : SourceKind) (branch : Option Text)
      → normalise_source source ≡ ok (canonical, kind)
      → IsPending (dispatch db source branch pool_unreachable).1 canonical
  unfolding dispatch
  dispatch_unreachable-IsPending db source canonical kind branch parsed =
      rw (parsed, dispatch)
        (go (register_async db canonical kind branch)
          (register_async-IsPending db canonical kind branch))
    where
      go :
          (r : Outcome ℕ × Db V)
          → IsPending r.1 canonical
          → IsPending (after_register pool_unreachable r).1 canonical
      go (ok id, db') h = h
      go (raised e, db') h = h

  -- After a request that finds the pool unreachable, every later request for the same repository, by
  -- any spelling of its source and whatever the queue does, is refused as already indexing and
  -- changes nothing.
  pub dispatch_unreachable_stuck :
      (db : Db V) (source source' canonical : Text) (kind kind' : SourceKind)
      (branch branch' : Option Text) (queue : Queue)
      → normalise_source source ≡ ok (canonical, kind)
      → normalise_source source' ≡ ok (canonical, kind')
      → let db' = (dispatch db source branch pool_unreachable).1 in
        dispatch db' source' branch' queue ≡ (raised (index_error already_indexing true), db')
  dispatch_unreachable_stuck db source source' canonical kind kind' branch branch' queue p p' =
      dispatch_pending (dispatch db source branch pool_unreachable).1 source' canonical kind'
        branch' queue p' (dispatch_unreachable-IsPending db source canonical kind branch p)
