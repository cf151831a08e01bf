-- ===== src/Indexing/Store/Laws.antt =====
-- The statements against what a repository's chunks are.
use mathlib.Core.List.{append-nil}
use codesensei.Common.{
  ℕ, ◌+◌, ◌≤◌, ◌<◌, true, false, Option, none, some, List, [], ◌∷◌, ◌++◌, Text, ◌==◌, if◌then◌else◌,
  length, any, All, ◌≡◌, refl, ◌≢◌, arith, inl, inr, Bool-cases, text_eq_iff,
}
use codesensei.Indexing.Store.{
  Repo, ChunkInsert, CodeChunk, Db, find_repo, update_repo, find_source, numbered, ids,
  delete_complement, without_owner, replace_chunks, chunks_of, remove_repo,
}

pub find-update :
    (id j : ℕ) (f : Repo → Repo) (rs : List Repo)
    → ((r : Repo) → (f r).repo_id ≡ r.repo_id)
    → find_repo j (update_repo id f rs)
      ≡ elim (find_repo j rs) [ none ↦ none | some r ↦ some (if r.repo_id == id then f r else r) ]
unfolding find_repo update_repo
find-update id j f [] same = refl
find-update id j f (r ∷ rs) same = ground (arith, same r, find-update id j f rs same)

module _ {V : Type 0} where
  -- Every identifier in use is below the counter.
  pub record IsFresh (db : Db V) : Type 0 where
    pub repos : All (λ (r : Repo). r.repo_id < db.next_id) db.repos
    pub chunks :
        All (λ (c : CodeChunk V). (c.chunk_id < db.next_id) × (c.owner < db.next_id)) db.chunks

  chunks_of-append :
      (id : ℕ) (cs ds : List (CodeChunk V))
      → chunks_of id (cs ++ ds) ≡ chunks_of id cs ++ chunks_of id ds
  unfolding chunks_of
  chunks_of-append id [] ds = refl
  chunks_of-append id (c ∷ cs) ds = ground (arith, chunks_of-append id cs ds)

  chunks_of-numbered :
      (id next : ℕ) (cs : List (ChunkInsert V)) → chunks_of id (numbered next id cs) ≡ cs
  unfolding chunks_of numbered
  chunks_of-numbered id next [] = refl
  chunks_of-numbered id next (c ∷ cs) = ground (arith, chunks_of-numbered id (next + 1) cs)

  pub chunks_of-without :
      (id j : ℕ) (cs : List (CodeChunk V))
      → chunks_of j (without_owner id cs) ≡ (if j == id then [] else chunks_of j cs)
  unfolding chunks_of without_owner
  chunks_of-without id j [] = ground arith
  chunks_of-without id j (c ∷ cs) = ground (arith, chunks_of-without id j cs)

  -- The new identifiers are those from `next` on, as many as there are new rows.
  new-absent :
      (id next k : ℕ) (new : List (ChunkInsert V))
      → k < next
      → any (λ m. m == k) (ids (numbered next id new)) ≡ false
  unfolding numbered
  new-absent id next k [] lt = refl
  new-absent id next k (x ∷ new) lt = ground (arith, new-absent id (next + 1) k new)

  new-present :
      (id next k : ℕ) (new : List (ChunkInsert V))
      → next ≤ k
      → k < next + length new
      → any (λ m. m == k) (ids (numbered next id new)) ≡ true
  unfolding numbered
  new-present id next k [] le lt = absurd (omega arith)
  new-present id next k (x ∷ new) le lt = ground (arith, new-present id (next + 1) k new)

  chunks_of-complement_old :
      (id j next : ℕ) (new : List (ChunkInsert V)) (cs : List (CodeChunk V))
      → All (λ (c : CodeChunk V). (c.chunk_id < next) × (c.owner < next)) cs
      → chunks_of j (delete_complement id (ids (numbered next id new)) cs)
        ≡ (if j == id then [] else chunks_of j cs)
  unfolding chunks_of delete_complement
  chunks_of-complement_old id j next new [] h = ground arith
  chunks_of-complement_old id j next new (c ∷ cs) (h, hs) =
      ground
        (arith, new-absent id next c.chunk_id new h.0, chunks_of-complement_old id j next new cs hs)

  complement-numbered :
      (id next : ℕ) (new : List (ChunkInsert V)) (new_ids : List ℕ)
      → ((k : ℕ) → next ≤ k → k < next + length new → any (λ m. m == k) new_ids ≡ true)
      → delete_complement id new_ids (numbered next id new) ≡ numbered next id new
  unfolding delete_complement numbered
  complement-numbered id next [] new_ids all_in = refl
  complement-numbered id next (x ∷ new) new_ids all_in = ground (
    arith,
    all_in next (omega arith) (omega arith),
    complement-numbered id (next + 1) new new_ids (λ k le lt. all_in k (omega arith) (omega arith)),
  )

  complement-append :
      (id : ℕ) (new_ids : List ℕ) (cs ds : List (CodeChunk V))
      → delete_complement id new_ids (cs ++ ds)
        ≡ delete_complement id new_ids cs ++ delete_complement id new_ids ds
  unfolding delete_complement
  complement-append id new_ids [] ds = refl
  complement-append id new_ids (c ∷ cs) ds = ground (arith, complement-append id new_ids cs ds)

  chunks_of-numbered_ne :
      (id j next : ℕ) (cs : List (ChunkInsert V)) → j ≢ id → chunks_of j (numbered next id cs) ≡ []
  unfolding chunks_of numbered
  chunks_of-numbered_ne id j next [] ne = refl
  chunks_of-numbered_ne id j next (c ∷ cs) ne =
      ground (arith, chunks_of-numbered_ne id j (next + 1) cs ne)

  -- In a database with fresh identifiers, `replace_chunks` leaves the repository with exactly the
  -- new chunks, in order, and every other repository with the chunks that it had.
  pub chunks_of-replace :
      (db : Db V) (id j : ℕ) (new : List (ChunkInsert V)) (provider model : Text) (at : ℕ)
      (patterns : Option (List Text))
      → IsFresh db
      → chunks_of j (replace_chunks db id new provider model at patterns).chunks
        ≡ (if j == id then new else chunks_of j db.chunks)
  unfolding replace_chunks
  chunks_of-replace db id j [] provider model at patterns fresh = chunks_of-without id j db.chunks
  chunks_of-replace db id j (x ∷ new) provider model at patterns fresh =
      rw
        (
          complement-append,
          chunks_of-append,
          chunks_of-complement_old id j db.next_id (x ∷ new) db.chunks fresh.chunks,
          complement-numbered id db.next_id (x ∷ new) (ids (numbered db.next_id id (x ∷ new)))
              (λ k le lt. new-present id db.next_id k (x ∷ new) le lt),
        )
        (ground (
          arith,
          chunks_of-numbered id db.next_id (x ∷ new),
          chunks_of-numbered_ne id j db.next_id (x ∷ new),
          append-nil (chunks_of j db.chunks),
        ))

pub find_source-update :
    (source : Text) (id : ℕ) (f : Repo → Repo) (rs : List Repo)
    → ((r : Repo) → (f r).source ≡ r.source)
    → find_source source (update_repo id f rs) ≡ elim (find_source source rs) [
      | none ↦ none
      | some r ↦ some (if r.repo_id == id then f r else r)
    ]
unfolding find_source update_repo
find_source-update source id f [] same = refl
find_source-update source id f (r ∷ rs) same =
    let step = same r in
    elim (Bool-cases (r.repo_id == id)) [
      | inl hit ↦ rw (hit, step) (ground (arith, find_source-update source id f rs same, hit))
      | inr miss ↦ rw miss (ground (arith, find_source-update source id f rs same, miss))
    ]

pub find_source-append_new :
    (source : Text) (rs : List Repo) (r : Repo)
    → find_source source rs ≡ none
    → r.source ≡ source
    → find_source source (rs ++ (r ∷ [])) ≡ some r
unfolding find_source
find_source-append_new source [] r h e = ground (arith, text_eq_iff r.source source)
find_source-append_new source (q ∷ rs) r h e = ground (arith, find_source-append_new source rs r)

pub find-remove :
    (id j : ℕ) (rs : List Repo)
    → find_repo j (remove_repo id rs) ≡ (if j == id then none else find_repo j rs)
unfolding find_repo remove_repo
find-remove id j [] = ground arith
find-remove id j (r ∷ rs) = ground (arith, find-remove id j rs)

pub any_id-eq :
    (id : ℕ) (rs : List Repo) (r : Repo)
    → find_repo id rs ≡ some r
    → any (λ (q : Repo). q.repo_id == id) rs ≡ true
unfolding find_repo
any_id-eq id [] r h = cc
any_id-eq id (q ∷ rs) r h = ground (arith, any_id-eq id rs r)

pub find-update_ne :
    (id j : ℕ) (f : Repo → Repo) (rs : List Repo)
    → ((r : Repo) → (f r).repo_id ≡ r.repo_id)
    → j ≢ id
    → find_repo j (update_repo id f rs) ≡ find_repo j rs
unfolding find_repo update_repo
find-update_ne id j f [] same ne = refl
find-update_ne id j f (r ∷ rs) same ne = ground (arith, same r, find-update_ne id j f rs same ne)
