-- ===== src/Indexing/Sliding/Coverage.antt =====
-- What the windows cover.
use codesensei.Common.{
  ℕ, zero, suc, ◌+◌, ◌-◌, ◌≤◌, ◌<◌, min, max, ◌≡◌, refl, inl, inr, true, false, Option, some, List,
  [], ◌∷◌, Text, arith, ltb, ◌==◌, length, All, Any, any, is_empty, splitlines, has_text,
  join_lines, Bool-cases, ltb→lt, ltb_false→le, ==_iff,
}
use codesensei.Indexing.Chunk.{ChunkSpec}
use codesensei.Indexing.Sliding.{slice, slide, chunk_at, chunk_sliding, or_language_for}

-- The line with index `k` (from 0) lies in the chunk.
abbrev pub Covers : ℕ → ChunkSpec → Type 0
Covers k c = (c.start_line ≤ k + 1) × (k + 1 ≤ c.end_line)

-- The chunk is a non-empty run of at most `window` of the lines, in its own place.
pub record IsWindow (lines : List Text) (window : ℕ) (c : ChunkSpec) : Type 0 where
  pub starts : 1 ≤ c.start_line
  pub nonempty : c.start_line ≤ c.end_line
  pub inside : c.end_line ≤ length lines
  pub bounded : c.end_line + 1 ≤ c.start_line + window
  pub content : c.content ≡ join_lines (slice lines (c.start_line - 1) c.end_line)

-- The starts of the chunks, each `step` lines after the one before.
abbrev pub Spaced : ℕ → ℕ → List ChunkSpec → Type 0
Spaced start step [] = Unit
Spaced start step (c ∷ cs) = (c.start_line ≡ start) × Spaced (start + step) step cs

-- The chunks cover all lines from index `i` on, each is a window, and the starts are `step` apart.
abbrev pub CoversFrom : List Text → ℕ → ℕ → ℕ → List ChunkSpec → Type 0
CoversFrom lines window step i cs =
    ((k : ℕ) → i ≤ k → k < length lines → Any (Covers k) cs)
    × All (IsWindow lines window) cs
    × Spaced (i + 1) step cs

module _ (file_path language : Text) (lines : List Text) (window step : ℕ) where
  abbrev windows_from : ℕ → ℕ → Option (List ChunkSpec)
  windows_from = slide file_path language lines window step

  abbrev window_at : ℕ → ChunkSpec
  window_at = chunk_at file_path language lines window step

  chunk_at-IsWindow : (i : ℕ) → 0 < window → i < length lines → IsWindow lines window (window_at i)
  chunk_at-IsWindow i h lt = record {
    starts = omega arith;
    nonempty = omega arith;
    inside = omega arith;
    bounded = omega arith;
    content = let e : i + 1 - 1 ≡ i = omega arith in rw e;
  }

  last-CoversFrom :
      (i : ℕ)
      → 0 < window
      → i < length lines
      → min (length lines) (i + window) ≡ length lines
      → CoversFrom lines window step i (window_at i ∷ [])
  last-CoversFrom i h lt e =
      (λ k a b. inl (omega arith, omega arith), (chunk_at-IsWindow i h lt, tt), (refl, tt))

  next-CoversFrom :
      (i : ℕ) (cs : List ChunkSpec)
      → 0 < window
      → step ≤ window
      → i < length lines
      → CoversFrom lines window step (i + step) cs
      → CoversFrom lines window step i (window_at i ∷ cs)
  next-CoversFrom i cs h le lt (cover, good, spaced) = (
    λ k a b. elim (Bool-cases (ltb k (i + step))) [
      | inl near ↦ let near' = ltb→lt k (i + step) near in inl (omega arith, omega arith)
      | inr far ↦ inr (cover k (ltb_false→le k (i + step) far) b)
    ],
    (chunk_at-IsWindow i h lt, good),
    (refl, let e : i + 1 + step ≡ i + step + 1 = omega arith in rw e spaced),
  )

  slide-CoversFrom :
      0 < window
      → 0 < step
      → step ≤ window
      → (fuel i : ℕ) → length lines - i < fuel
      → (cs : List ChunkSpec) × (windows_from fuel i ≡ some cs) × CoversFrom lines window step i cs
  unfolding slide
  slide-CoversFrom h s le zero i f = absurd (omega arith)
  slide-CoversFrom h s le (suc fuel) i f = elim (Bool-cases (ltb i (length lines))) [
    | inr out ↦
        let past = ltb_false→le i (length lines) out in
        ([], rw out, (λ k a b. absurd (omega arith), tt, tt))
    | inl more ↦
        let lt = ltb→lt i (length lines) more in
        let (cs, e, good) = slide-CoversFrom h s le fuel (i + step) (omega arith) in
        elim (Bool-cases (min (length lines) (i + window) == length lines)) [
          | inl last ↦ (
            window_at i ∷ [],
            rw (more, last),
            last-CoversFrom i h lt ((==_iff _ (length lines)).0 last),
          )
          | inr inner ↦ (window_at i ∷ cs, rw (more, inner, e), next-CoversFrom i cs h le lt good)
        ]
  ]

-- For text with a line that is not blank and a window of at least one line, `chunk_sliding` returns
-- chunks; each is a non-empty run of at most `window` lines of the text in its own place, every line
-- lies in one, and each starts `max(1, window - overlap)` lines after the one before, the first at 1.
pub chunk_sliding-CoversFrom :
    (content file_path : Text) (language : Option Text) (window overlap : ℕ)
    → 0 < window
    → any has_text (splitlines content) ≡ true
    → (cs : List ChunkSpec) × (chunk_sliding content file_path language window overlap ≡ some cs)
      × CoversFrom (splitlines content) window (max 1 (window - overlap)) 0 cs
unfolding chunk_sliding
chunk_sliding-CoversFrom content file_path language window overlap h text =
    let (cs, e, good) =
      slide-CoversFrom file_path (or_language_for file_path language) (splitlines content) window
        (max 1 (window - overlap)) h (omega arith) (omega arith) (suc (length (splitlines content)))
        0 (omega arith) in
    (cs, rw (text, any_nonempty (splitlines content) text, e), good)
  where
    any_nonempty : (ls : List Text) → any has_text ls ≡ true → is_empty ls ≡ false
    any_nonempty [] t = cc
    any_nonempty (l ∷ ls) t = refl
