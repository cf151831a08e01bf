-- ===== src/Indexing/Fill/Laws.antt =====
-- What a pass over a repository leaves in the database.
use mathlib.Core.Path.{subst}
use codesensei.Common.{
  ℕ, zero, suc, ◌≤◌, Bool, false, not, List, [], ◌∷◌, ◌++◌, Text, ltb, ◌==◌, length, drop, any, ◌≡◌,
  refl, ap, arith, All, All-append, Bool-cases, ltb_false→le, inl, inr, ◌≢◌,
}
use codesensei.Indexing.Errors.{Outcome, ok, raised}
use codesensei.Indexing.Chunk.{ChunkSpec}
use codesensei.Indexing.TokenCap.{enforce_chunk_token_cap}
use codesensei.Indexing.TokenCap.Split.{enforce_chunk_token_cap-eq-counts}
use codesensei.Indexing.Store.{ChunkInsert, Db, replace_chunks, chunks_of}
use codesensei.Indexing.Store.Laws.{IsFresh, chunks_of-replace}
use codesensei.Indexing.Fill.{
  Provider, Scan, Snapshot, max_chunks_per_repo, expected_embedding_dim, embed_batch_size,
  check_dims, embed_batches, zip_inserts, embed_counted, prepare, fill_repo, translate,
  or_recursion_error, ◌>>=◌,
}

ok-injective {ℓ} : {A : Type ℓ} {a b : A} → ok a ≡ ok b → a ≡ b
ok-injective h = cc

-- The value that a step returned, where the chain goes on from it and returns.
>>=-eq-ok {κ μ} :
    {X : Type κ} {Y : Type μ} (step : Outcome X) (next : X → Outcome Y) {y : Y}
    → (step >>= next) ≡ ok y
    → (x : X) × (step ≡ ok x) × (next x ≡ ok y)
>>=-eq-ok (raised e) next q = cc
>>=-eq-ok (ok x) next q = (x, refl, q)

translate-eq-ok {ℓ} :
    {A : Type ℓ} (r : Bool → Bool) (m : Outcome A) (a : A) → translate r m ≡ ok a → m ≡ ok a
translate-eq-ok r m a h = ground arith

module _ {V : Type 0} (dim : V → ℕ) where
  abbrev pub HasDim : V → Type 0
  HasDim v = dim v ≡ expected_embedding_dim

  All-HasDim :
      (vs : List V) → any (λ v. not (dim v == expected_embedding_dim)) vs ≡ false → All HasDim vs
  All-HasDim [] h = tt
  All-HasDim (v ∷ vs) h = (ground arith, All-HasDim vs (ground arith))

  check_dims-eq-ok : (vs ws : List V) → check_dims dim vs ≡ ok ws → All HasDim ws
  check_dims-eq-ok vs ws h =
      elim (Bool-cases (any (λ v. not (dim v == expected_embedding_dim)) vs)) [
        | inl bad ↦ let h' = rw bad at h in absurd (cc)
        | inr good ↦
            let h' = rw good at h in
            let same : vs ≡ ws = cc in subst (All HasDim) same (All-HasDim vs good)
      ]

  embed_batches-dims :
      (p : Provider V) (fuel : ℕ) (cs : List (ChunkSpec × ℕ)) (vs : List V)
      → embed_batches dim p fuel cs ≡ ok vs
      → All HasDim vs
  unfolding embed_batches
  embed_batches-dims p zero cs vs h = subst (All HasDim) (let e : [] ≡ vs = cc in e) tt
  embed_batches-dims p (suc fuel) [] vs h = subst (All HasDim) (let e : [] ≡ vs = cc in e) tt
  embed_batches-dims p (suc fuel) (c ∷ cs) vs h =
      let (raw, _, h1) = >>=-eq-ok (p.embed _) _ h in
      let (checked, e, h2) = >>=-eq-ok (check_dims dim raw) _ h1 in
      let (more, e', h3) =
        >>=-eq-ok (embed_batches dim p fuel (drop embed_batch_size (c ∷ cs))) _ h2 in
      let same : checked ++ more ≡ vs = cc in
      subst (All HasDim) same (
        All-append HasDim checked more (check_dims-eq-ok raw checked e)
          (embed_batches-dims p fuel (drop embed_batch_size (c ∷ cs)) more e'))

  -- A row carries its own token count and a vector of the expected length.
  abbrev pub IsRow : (Text → ℕ) → ChunkInsert V → Type 0
  IsRow tokens row = (row.token_count ≡ tokens row.content) × HasDim row.embedding

  zip_inserts-eq-ok :
      (tokens : Text → ℕ) (cs : List (ChunkSpec × ℕ)) (vs : List V) (rows : List (ChunkInsert V))
      → zip_inserts dim cs vs ≡ ok rows
      → All (λ (c, n). n ≡ tokens c.content) cs
      → All HasDim vs
      → (length rows ≡ length cs) × All (IsRow tokens) rows
  unfolding zip_inserts
  zip_inserts-eq-ok tokens [] [] rows h hc hv =
      subst (λ (rs : List (ChunkInsert V)). (length rs ≡ 0) × All (IsRow tokens) rs)
        (let e : [] ≡ rows = cc in e) (refl, tt)
  zip_inserts-eq-ok tokens [] (v ∷ vs) rows h hc hv = cc
  zip_inserts-eq-ok tokens (c ∷ cs) [] rows h hc hv = cc
  zip_inserts-eq-ok tokens ((c, n) ∷ cs) (v ∷ vs) rows h (ec, hc) (ev, hv) =
      let (rest, e, h') = >>=-eq-ok (zip_inserts dim cs vs) _ h in
      let (len, good) = zip_inserts-eq-ok tokens cs vs rest e hc hv in
      subst (λ (rs : List (ChunkInsert V)). (length rs ≡ suc (length cs)) × All (IsRow tokens) rs)
        (let e' : _ ≡ rows = ok-injective h' in e') (ap suc len, ((ec, ev), good))

  -- The rows that a pass prepares: at most `max_chunks_per_repo`, each well formed.
  abbrev pub AreRows : (Text → ℕ) → List (ChunkInsert V) → Type 0
  AreRows tokens rows = (length rows ≤ max_chunks_per_repo) × All (IsRow tokens) rows

  embed_counted-eq-ok :
      (tokens : Text → ℕ) (counted : List (ChunkSpec × ℕ)) (provider : Outcome (Provider V))
      (name : Text) (rows : List (ChunkInsert V))
      → embed_counted dim counted provider ≡ ok (name, rows)
      → All (λ (c, n). n ≡ tokens c.content) counted
      → AreRows tokens rows
  unfolding embed_counted
  embed_counted-eq-ok tokens counted provider name rows h hc =
      elim (Bool-cases (ltb max_chunks_per_repo (length counted))) [
        | inl many ↦ let h' = rw many at h in absurd (cc)
        | inr few ↦
            let (p, _, h1) = >>=-eq-ok (translate (λ r. false) provider) _ (rw few at h) in
            let (vs, e, h2) =
              >>=-eq-ok (translate (λ r. r) (embed_batches dim p (length counted) counted)) _ h1 in
            let (is, e', h3) = >>=-eq-ok (zip_inserts dim counted vs) _ h2 in
            let (len, good) = zip_inserts-eq-ok tokens counted vs is e' hc (
              embed_batches-dims p (length counted) counted vs (translate-eq-ok (λ r. r) _ vs e)) in
            let same : is ≡ rows = cc (ok-injective h3) in
            subst (AreRows tokens) same
              (omega (arith, len, ltb_false→le max_chunks_per_repo (length counted) few), good)
      ]

  prepare-eq-ok :
      (tokens : Text → ℕ) (fuel : ℕ) (chunks : List ChunkSpec) (provider : Outcome (Provider V))
      (name : Text) (rows : List (ChunkInsert V))
      → prepare dim tokens fuel chunks provider ≡ ok (name, rows)
      → AreRows tokens rows
  unfolding prepare
  prepare-eq-ok tokens fuel [] provider name rows h =
      let (p, _, h1) = >>=-eq-ok provider _ h in
      let same : [] ≡ rows = cc (ok-injective h1) in subst (AreRows tokens) same (omega arith, tt)
  prepare-eq-ok tokens fuel (c ∷ chunks) provider name rows h =
      elim (Bool-cases (ltb max_chunks_per_repo (length (c ∷ chunks)))) [
        | inl many ↦ let h' = rw many at h in absurd (cc)
        | inr few ↦
            let (counted, e, h1) =
              >>=-eq-ok (or_recursion_error (enforce_chunk_token_cap tokens fuel (c ∷ chunks))) _
                (rw few at h) in
            embed_counted-eq-ok tokens counted provider name rows h1 (
              enforce_chunk_token_cap-eq-counts tokens fuel (c ∷ chunks) counted
                (ground (arith, e)))
      ]

  -- What `_fill_repo` owes.
  abbrev pub FillResult : (Text → ℕ) → Db V → ℕ → Outcome Snapshot × Db V → Type 0
  FillResult tokens db id (raised e, db') = db' ≡ db
  FillResult tokens db id (ok snapshot, db') =
      AreRows tokens (chunks_of id db'.chunks)
      × (length (chunks_of id db'.chunks) ≡ snapshot.chunk_count)
      × ((j : ℕ) → j ≢ id → chunks_of j db'.chunks ≡ chunks_of j db.chunks)

  -- In a database with fresh identifiers: if `_fill_repo` returns, the repository's chunks are as many
  -- as the snapshot says and at most 5000, each with its own token count and a vector of the
  -- expected length, and every other repository keeps its chunks; if it raises, the database is as
  -- before.
  pub fill_repo-FillResult :
      (tokens : Text → ℕ) (fuel : ℕ) (db : Db V) (id : ℕ) (scan : Scan)
      (provider : Outcome (Provider V)) (model : Text) (now : ℕ)
      → IsFresh db
      → FillResult tokens db id (fill_repo dim tokens fuel db id scan provider model now)
  unfolding fill_repo
  fill_repo-FillResult tokens fuel db id scan provider model now fresh =
      go (prepare dim tokens fuel scan.chunks provider) refl
    where
      go :
          (r : Outcome (Text × List (ChunkInsert V)))
          → prepare dim tokens fuel scan.chunks provider ≡ r
          → FillResult tokens db id (fill_repo dim tokens fuel db id scan provider model now)
      go (raised e) q = rw (q, fill_repo) refl
      go (ok (name, rows)) q =
          rw (q, fill_repo)
            (let self : chunks_of id
                    (replace_chunks db id rows name model now scan.ignore_patterns).chunks
                  ≡ rows =
                ground (
                  arith,
                  chunks_of-replace db id id rows name model now scan.ignore_patterns fresh,
                ) in
              (
                rw self (prepare-eq-ok tokens fuel scan.chunks provider name rows q),
                rw self,
                λ j ne. ground (
                  arith,
                  chunks_of-replace db id j rows name model now scan.ignore_patterns fresh,
                ),
              ))
