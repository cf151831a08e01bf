-- ===== src/Indexing/Retrieval/Candidates.antt =====
-- The candidates of a search, and its selection.
use codesensei.Common.{
  ℕ, ◌+◌, ◌-◌, ◌≤◌, ◌≡◌, refl, ap, Option, none, some, List, [], length, All, arith, All-map,
  All-In, Pairs, Pairs-sort, sort-IsSorted, IsSorted-Pairs, Pairs-map, Any-elim, All-sort, is_empty,
}
use codesensei.Common.Options.{HasValue}
use codesensei.Common.Digits.{Unicode}
use codesensei.Indexing.Store.{CodeChunk, Db}
use codesensei.Indexing.Retrieval.{
  RetrievedChunk, RetrievalResult, distance_floor, retrieved, by_score, nearest, best_of,
  candidates_of, result_of, top_score,
}
use codesensei.Indexing.Retrieval.Best.{Differ, Differ-sym}
use codesensei.Indexing.Retrieval.Hits.{IsHit, best_of-IsHit, best_of-Differ}
use codesensei.Indexing.Retrieval.Budget.{tokens_of, trim-tokens, trim-Pairs, trim-length}

-- Best first.
abbrev pub NotBetter : RetrievedChunk → RetrievedChunk → Type 0
NotBetter c e = e.score ≤ c.score

-- Within the budget, no chunk twice, best first, and counted.
abbrev pub IsSelection : ℕ → RetrievalResult → Type 0
IsSelection budget r =
    (tokens_of r.selected ≤ budget)
    × Pairs Differ r.selected
    × Pairs NotBetter r.selected
    × (r.chunks_used ≡ length r.selected)
    × (r.chunks_fetched ≡ r.chunks_used + r.trimmed)
    × (r.empty ≡ is_empty r.selected)

module _ {V : Type 0} (u : Unicode) (distance : V → V → Option ℕ) where
  candidates_of-Differ :
      (db : Db V) (id k : ℕ) (vs : List V) → Pairs Differ (candidates_of u distance db id k vs)
  unfolding by_score
  candidates_of-Differ db id k vs =
      Pairs-sort Differ Differ-sym (λ c. top_score - c.score) _
        (best_of-Differ u distance db id k vs [] tt)

  candidates_of-sorted :
      (db : Db V) (id k : ℕ) (vs : List V)
      → Pairs
          (λ c e. top_score - c.score ≤ top_score - e.score)
          (candidates_of u distance db id k vs)
  unfolding by_score
  candidates_of-sorted db id k vs =
      IsSorted-Pairs (λ c. top_score - c.score) _
        (sort-IsSorted (λ c. top_score - c.score) (best_of u distance db id k vs []))

  candidates_of-IsHit :
      (db : Db V) (id k : ℕ) (vs : List V)
      → All (IsHit u distance db id k vs) (candidates_of u distance db id k vs)
  unfolding by_score
  candidates_of-IsHit db id k vs =
      All-sort (λ c. top_score - c.score) (IsHit u distance db id k vs) _
        (best_of-IsHit u distance db id k vs vs [] (All-In vs) tt)

  IsHit-bounded :
      (db : Db V) (id k : ℕ) (vs : List V) (e : RetrievedChunk)
      → IsHit u distance db id k vs e
      → e.score ≤ top_score
  IsHit-bounded db id k vs e h =
      Any-elim _ vs (λ v. Any-elim _ (nearest u distance db id k v) (λ r. bounded r.0 r.1)) h
    where
      bounded :
          (c : CodeChunk V) (o : Option ℕ)
          → HasValue (λ d. (d ≤ distance_floor) × (e ≡ retrieved c d)) o
          → e.score ≤ top_score
      bounded c none k = elim k [ ]
      bounded c (some d) (near, same) =
          let score : e.score ≡ top_score - d = ap (λ (x : RetrievedChunk). x.score) same in
          omega (arith, score)

  candidates_of-NotBetter :
      (db : Db V) (id k : ℕ) (vs : List V) → Pairs NotBetter (candidates_of u distance db id k vs)
  candidates_of-NotBetter db id k vs =
      Pairs-map (λ e. e.score ≤ top_score) _ NotBetter (candidates_of u distance db id k vs)
        (λ x y p q r. omega (arith, p, q, r))
        (All-map (candidates_of u distance db id k vs) (IsHit-bounded db id k vs)
          (candidates_of-IsHit db id k vs))
        (candidates_of-sorted db id k vs)

  pub result_of-IsSelection :
      (db : Db V) (id k budget n : ℕ) (vs : List V)
      → IsSelection budget (result_of u distance n budget (candidates_of u distance db id k vs))
  result_of-IsSelection db id k budget n vs =
      let cs : List RetrievedChunk = candidates_of u distance db id k vs in
      (
        trim-tokens budget cs,
        trim-Pairs budget Differ cs (candidates_of-Differ db id k vs),
        trim-Pairs budget NotBetter cs (candidates_of-NotBetter db id k vs),
        refl,
        omega (arith, trim-length budget cs),
        refl,
      )
