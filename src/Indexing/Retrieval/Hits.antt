-- ===== src/Indexing/Retrieval/Hits.antt =====
-- What the rows of the queries leave.
use codesensei.Common.{
  ◌<◌, ◌⊎◌, map_right, ℕ, ◌≤◌, ◌≡◌, refl, inl, inr, Option, none, some, List, [], ◌∷◌, ltb, All,
  Any, Bool-cases, arith, All-map, All-In, In, Any-In, Pairs,
}
use codesensei.Common.Options.{Holds, Holds-map, HasValue}
use codesensei.Common.Digits.{Unicode}
use codesensei.Indexing.Store.{CodeChunk, Db}
use codesensei.Indexing.Retrieval.{
  RetrievedChunk, distance_floor, score_of, retrieved, nearest, add_row, add_rows, best_of,
}
use codesensei.Indexing.Retrieval.Best.{
  Differ, Covers, keep_best-All, keep_best-Differ, keep_best-Covers, keep_best-keeps,
}

module _ {V : Type 0} (u : Unicode) (distance : V → V → Option ℕ) where
  -- A row is too far, or it is covered.
  abbrev pub IsCovered : List RetrievedChunk → CodeChunk V × Option ℕ → Type 0
  IsCovered es r = Holds (λ d. (distance_floor < d) ⊎ Any (Covers r.0.chunk_id (score_of d)) es) r.1

  -- A near enough row among the nearest of one of the vectors, with its score.
  abbrev pub IsHit : Db V → ℕ → ℕ → List V → RetrievedChunk → Type 0
  IsHit db id k vectors e =
      Any
        (λ v.
          Any
            (λ (r : CodeChunk V × Option ℕ).
              HasValue (λ d. (d ≤ distance_floor) × (e ≡ retrieved r.0 d)) r.1)
            (nearest u distance db id k v))
        vectors

  module _ (P : RetrievedChunk → Type 0) where
    -- What a row adds.
    abbrev Adds : CodeChunk V × Option ℕ → Type 0
    Adds r = Holds (λ d. d ≤ distance_floor → P (retrieved r.0 d)) r.1

    add_row-All :
        (r : CodeChunk V × Option ℕ) (es : List RetrievedChunk)
        → Adds r
        → All P es
        → All P (add_row u distance r es)
    add_row-All (c, none) es adds h = h
    add_row-All (c, some d) es adds h = elim (Bool-cases (ltb distance_floor d)) [
      | inl far ↦ rw far h
      | inr near ↦ rw near (keep_best-All P (retrieved c d) es (adds (ground (arith, near))) h)
    ]

    add_rows-All :
        (rs : List (CodeChunk V × Option ℕ)) (es : List RetrievedChunk)
        → All Adds rs
        → All P es
        → All P (add_rows u distance rs es)
    unfolding add_rows
    add_rows-All [] es adds h = h
    add_rows-All (r ∷ rs) es (add, adds) h =
        add_rows-All rs (add_row u distance r es) adds (add_row-All r es add h)

  Adds-IsHit :
      (db : Db V) (id k : ℕ) (vectors : List V) (v : V) (r : CodeChunk V × Option ℕ)
      → In v vectors
      → In r (nearest u distance db id k v)
      → Adds (IsHit db id k vectors) r
  Adds-IsHit db id k vectors v (c, none) member row = tt
  Adds-IsHit db id k vectors v (c, some d) member row =
      λ near. Any-In _ v vectors (Any-In _ (c, some d) _ (near, refl) row) member

  pub best_of-IsHit :
      (db : Db V) (id k : ℕ) (vectors vs : List V) (es : List RetrievedChunk)
      → All (λ v. In v vectors) vs
      → All (IsHit db id k vectors) es
      → All (IsHit db id k vectors) (best_of u distance db id k vs es)
  unfolding best_of
  best_of-IsHit db id k vectors [] es members h = h
  best_of-IsHit db id k vectors (v ∷ vs) es (member, members) h =
      best_of-IsHit db id k vectors vs (add_rows u distance (nearest u distance db id k v) es)
        members
        (add_rows-All (IsHit db id k vectors) (nearest u distance db id k v) es
          (All-map (nearest u distance db id k v) (λ r. Adds-IsHit db id k vectors v r member)
            (All-In (nearest u distance db id k v)))
          h)

  add_row-Differ :
      (r : CodeChunk V × Option ℕ) (es : List RetrievedChunk)
      → Pairs Differ es
      → Pairs Differ (add_row u distance r es)
  add_row-Differ (c, none) es h = h
  add_row-Differ (c, some d) es h = elim (Bool-cases (ltb distance_floor d)) [
    | inl far ↦ rw far h
    | inr near ↦ rw near (keep_best-Differ (retrieved c d) es h)
  ]

  add_rows-Differ :
      (rs : List (CodeChunk V × Option ℕ)) (es : List RetrievedChunk)
      → Pairs Differ es
      → Pairs Differ (add_rows u distance rs es)
  unfolding add_rows
  add_rows-Differ [] es h = h
  add_rows-Differ (r ∷ rs) es h =
      add_rows-Differ rs (add_row u distance r es) (add_row-Differ r es h)

  pub best_of-Differ :
      (db : Db V) (id k : ℕ) (vs : List V) (es : List RetrievedChunk)
      → Pairs Differ es
      → Pairs Differ (best_of u distance db id k vs es)
  unfolding best_of
  best_of-Differ db id k [] es h = h
  best_of-Differ db id k (v ∷ vs) es h =
      best_of-Differ db id k vs (add_rows u distance (nearest u distance db id k v) es)
        (add_rows-Differ (nearest u distance db id k v) es h)

  add_row-keeps :
      (i score : ℕ) (r : CodeChunk V × Option ℕ) (es : List RetrievedChunk)
      → Any (Covers i score) es
      → Any (Covers i score) (add_row u distance r es)
  add_row-keeps i score (c, none) es h = h
  add_row-keeps i score (c, some d) es h = elim (Bool-cases (ltb distance_floor d)) [
    | inl far ↦ rw far h
    | inr near ↦ rw near (keep_best-keeps i score (retrieved c d) es h)
  ]

  add_row-IsCovered :
      (r : CodeChunk V × Option ℕ) (es : List RetrievedChunk)
      → IsCovered (add_row u distance r es) r
  add_row-IsCovered (c, none) es = tt
  add_row-IsCovered (c, some d) es = elim (Bool-cases (ltb distance_floor d)) [
    | inl far ↦ inl (ground (arith, far))
    | inr near ↦ rw near (inr (keep_best-Covers (retrieved c d) es))
  ]

  add_rows-keeps :
      (i score : ℕ) (rs : List (CodeChunk V × Option ℕ)) (es : List RetrievedChunk)
      → Any (Covers i score) es
      → Any (Covers i score) (add_rows u distance rs es)
  unfolding add_rows
  add_rows-keeps i score [] es h = h
  add_rows-keeps i score (r ∷ rs) es h =
      add_rows-keeps i score rs (add_row u distance r es) (add_row-keeps i score r es h)

  add_rows-IsCovered :
      (rs : List (CodeChunk V × Option ℕ)) (es : List RetrievedChunk)
      → All (IsCovered (add_rows u distance rs es)) rs
  unfolding add_rows
  add_rows-IsCovered [] es = tt
  add_rows-IsCovered (r ∷ rs) es = (
    Holds-map _ _ r.1
        (λ d. map_right (add_rows-keeps r.0.chunk_id (score_of d) rs (add_row u distance r es)))
        (add_row-IsCovered r es),
    add_rows-IsCovered rs (add_row u distance r es),
  )

  pub best_of-keeps :
      (db : Db V) (id k : ℕ) (i score : ℕ) (vs : List V) (es : List RetrievedChunk)
      → Any (Covers i score) es
      → Any (Covers i score) (best_of u distance db id k vs es)
  unfolding best_of
  best_of-keeps db id k i score [] es h = h
  best_of-keeps db id k i score (v ∷ vs) es h =
      best_of-keeps db id k i score vs (add_rows u distance (nearest u distance db id k v) es)
        (add_rows-keeps i score (nearest u distance db id k v) es h)

  pub best_of-IsCovered :
      (db : Db V) (id k : ℕ) (vs : List V) (es : List RetrievedChunk)
      → All
          (λ v. All (IsCovered (best_of u distance db id k vs es)) (nearest u distance db id k v))
          vs
  unfolding best_of
  best_of-IsCovered db id k [] es = tt
  best_of-IsCovered db id k (v ∷ vs) es =
      let after : List RetrievedChunk = add_rows u distance (nearest u distance db id k v) es in
      (
        All-map (nearest u distance db id k v)
            (λ r.
              Holds-map _ _ r.1
                (λ d. map_right (best_of-keeps db id k r.0.chunk_id (score_of d) vs after)))
            (add_rows-IsCovered (nearest u distance db id k v) es),
        best_of-IsCovered db id k vs after,
      )
