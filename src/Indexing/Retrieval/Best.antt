-- ===== src/Indexing/Retrieval/Best.antt =====
-- One chunk for each identifier, with its best score.
use codesensei.Common.{
  ℕ, ◌≤◌, ◌≡◌, refl, inl, inr, ◌⊎◌, true, false, List, [], ◌∷◌, ltb, ◌==◌, All, Any, Bool-cases,
  arith, All-map, Pairs, if◌then◌else◌,
}
use codesensei.Indexing.Retrieval.{RetrievedChunk, keep_best}

-- Chunks of two identifiers.
abbrev pub Differ : RetrievedChunk → RetrievedChunk → Type 0
Differ c e = (c.chunk_id == e.chunk_id) ≡ false

pub Differ-sym : (c e : RetrievedChunk) → Differ c e → Differ e c
Differ-sym c e h = ground arith

-- The chunk of that identifier scores that much or more.
abbrev pub Covers : ℕ → ℕ → RetrievedChunk → Type 0
Covers id score e = (e.chunk_id ≡ id) × (score ≤ e.score)

pub keep_best-All :
    (P : RetrievedChunk → Type 0) (c : RetrievedChunk) (es : List RetrievedChunk)
    → P c
    → All P es
    → All P (keep_best c es)
unfolding keep_best
keep_best-All P c [] p h = (p, tt)
keep_best-All P c (e ∷ es) p (h, hs) = elim (Bool-cases (e.chunk_id == c.chunk_id)) [
  | inl same ↦ rw same (either (Bool-cases (ltb e.score c.score)), hs)
  | inr new ↦ rw new (h, keep_best-All P c es p hs)
]
  where
    either :
        (ltb e.score c.score ≡ true) ⊎ (ltb e.score c.score ≡ false)
        → P (if ltb e.score c.score then c else e)
    either (inl more) = rw more p
    either (inr less) = rw less h

pub keep_best-Differ :
    (c : RetrievedChunk) (es : List RetrievedChunk)
    → Pairs Differ es
    → Pairs Differ (keep_best c es)
unfolding keep_best
keep_best-Differ c [] h = (tt, tt)
keep_best-Differ c (e ∷ es) (h, hs) = elim (Bool-cases (e.chunk_id == c.chunk_id)) [
  | inl same ↦ rw same (elim (Bool-cases (ltb e.score c.score)) [
    | inl more ↦ rw more (All-map es (λ x d. ground (arith, same, d)) h, hs)
    | inr less ↦ rw less (h, hs)
  ])
  | inr new ↦ rw new (keep_best-All (Differ e) c es new h, keep_best-Differ c es hs)
]

pub keep_best-Covers :
    (c : RetrievedChunk) (es : List RetrievedChunk)
    → Any (Covers c.chunk_id c.score) (keep_best c es)
unfolding keep_best
keep_best-Covers c [] = inl (refl, omega arith)
keep_best-Covers c (e ∷ es) = elim (Bool-cases (e.chunk_id == c.chunk_id)) [
  | inl same ↦ rw same (elim (Bool-cases (ltb e.score c.score)) [
    | inl more ↦ rw more (inl (refl, omega arith))
    | inr less ↦ rw less (inl (ground (arith, same), ground (arith, less)))
  ])
  | inr new ↦ rw new (inr (keep_best-Covers c es))
]

pub keep_best-keeps :
    (id score : ℕ) (c : RetrievedChunk) (es : List RetrievedChunk)
    → Any (Covers id score) es
    → Any (Covers id score) (keep_best c es)
unfolding keep_best
keep_best-keeps id score c [] h = elim h [ ]
keep_best-keeps id score c (e ∷ es) (inr h) = elim (Bool-cases (e.chunk_id == c.chunk_id)) [
  | inl same ↦ rw same (inr h)
  | inr new ↦ rw new (inr (keep_best-keeps id score c es h))
]
keep_best-keeps id score c (e ∷ es) (inl (at, le)) = elim (Bool-cases (e.chunk_id == c.chunk_id)) [
  | inl same ↦ rw same (elim (Bool-cases (ltb e.score c.score)) [
    | inl more ↦ rw more (inl (ground (arith, same, at), ground (arith, more, le)))
    | inr less ↦ rw less (inl (at, le))
  ])
  | inr new ↦ rw new (inl (at, le))
]
