-- ===== src/Indexing/TokenCap/Split.antt =====
-- What the recursive split returns, where every line fits the cap by itself.
use codesensei.Common.Options.{◌>>=◌}
use codesensei.Common.{
  ℕ, zero, suc, ◌+◌, ◌/◌, ◌≤◌, ◌<◌, max, ◌≡◌, refl, ap, false, Option, none, some, List, [], ◌∷◌,
  ◌++◌, Text, leb, length, take, drop, splitlines, join_lines, All, All-append, length-append,
  take-append-drop, arith, inl, inr, Bool-cases, leb→le, leb_false→lt, lt→leb_false, ◌⊎◌,
  length-take, length-drop,
}
use mathlib.Core.Path.{subst}
use mathlib.Core.List.{append-nil, append_assoc}
use codesensei.Indexing.Chunk.{ChunkSpec}
use codesensei.Indexing.TokenCap.{
  max_chunk_tokens, split_chunk_recursive, enforce_one, enforce_chunk_token_cap, with_counts,
  left_half, right_half, piece,
}

-- The chunks are consecutive non-empty runs of `lines`, the first of which has number `start`.
abbrev pub Tiles : ℕ → List Text → List ChunkSpec → Type 0
Tiles start lines [] = lines ≡ []
Tiles start lines (c ∷ cs) =
    (run rest : List Text) × (lines ≡ run ++ rest)
    × (0 < length run)
    × (c.start_line ≡ start)
    × (c.end_line + 1 ≡ start + length run)
    × (c.content ≡ join_lines run)
    × Tiles (start + length run) rest cs

Tiles-append :
    (s : ℕ) (xs ys : List Text) (cs ds : List ChunkSpec)
    → Tiles s xs cs
    → Tiles (s + length xs) ys ds
    → Tiles s (xs ++ ys) (cs ++ ds)
Tiles-append s xs ys [] ds e t =
    let same : s + length xs ≡ s = omega (arith, ap length e) in rw e (rw same at t)
Tiles-append s xs ys (c ∷ cs) ds (run, rest, e, n, a, b, d, more) t = (
  run,
  rest ++ ys,
  rw e (append_assoc run rest ys),
  n,
  a,
  b,
  d,
  Tiles-append (s + length run) rest ys cs ds more (
      let same : s + length xs ≡ s + length run + length rest =
        omega (arith, ap length e, length-append run rest) in
      rw same at t),
)

Tiles-halves :
    (s mid : ℕ) (lines : List Text) (ls rs : List ChunkSpec)
    → mid ≤ length lines
    → Tiles s (take mid lines) ls
    → Tiles (s + mid) (drop mid lines) rs
    → Tiles s lines (ls ++ rs)
Tiles-halves s mid lines ls rs le tl tr =
    let same : s + length (take mid lines) ≡ s + mid = omega (arith, length-take mid lines) in
    subst (λ (xs : List Text). Tiles s xs (ls ++ rs)) (take-append-drop mid lines)
      (Tiles-append s (take mid lines) (drop mid lines) ls rs tl (rw same tr))

join_one : (l : Text) → join_lines (l ∷ []) ≡ l
unfolding join_lines
join_one l = refl

All-take {κ} : (P : Text → Type κ) (n : ℕ) (xs : List Text) → All P xs → All P (take n xs)
All-take P zero xs h = tt
All-take P (suc n) [] h = tt
All-take P (suc n) (x ∷ xs) h = (h.0, All-take P n xs h.1)

All-drop {κ} : (P : Text → Type κ) (n : ℕ) (xs : List Text) → All P xs → All P (drop n xs)
All-drop P zero xs h = h
All-drop P (suc n) [] h = tt
All-drop P (suc n) (x ∷ xs) h = All-drop P n xs h.1

module _ (tokens : Text → ℕ) where
  abbrev pub Fits : Text → Type 0
  Fits text = tokens text ≤ max_chunk_tokens

  -- What the split owes: consecutive pieces that make up the lines, each within the cap.
  abbrev pub IsSplit : ℕ → List Text → Option (List ChunkSpec) → Type 0
  IsSplit start lines r =
      (cs : List ChunkSpec) × (r ≡ some cs) × Tiles start lines cs × All (λ c. Fits c.content) cs

  -- With as much fuel as there are lines, and at least one line, lines that are within the cap by
  -- themselves are split into consecutive non-empty runs, numbered from the chunk's first line, that
  -- make up all the lines, each within the cap.
  pub split_chunk_recursive-IsSplit :
      (fuel : ℕ) (original : ChunkSpec) (lines : List Text)
      → length lines ≤ fuel
      → 0 < length lines
      → All Fits lines
      → IsSplit original.start_line lines (split_chunk_recursive tokens fuel original lines)
  unfolding split_chunk_recursive
  split_chunk_recursive-IsSplit zero original lines le n h = absurd (omega arith)
  split_chunk_recursive-IsSplit (suc fuel) original lines le n h =
      elim (Bool-cases (leb (tokens (join_lines lines)) max_chunk_tokens)) [
        | inl fits ↦ (
          piece tokens original lines ∷ [],
          rw fits,
          (lines, [], rw append-nil, n, refl, omega arith, refl, refl),
          (leb→le _ max_chunk_tokens fits, tt),
        )
        | inr big ↦
            let mid = max 1 (length lines / 2) in
            let two : 1 < length lines = two_lines lines n h big in
            let (ls, el, tl, fl) =
              split_chunk_recursive-IsSplit fuel (left_half tokens original lines mid)
                (take mid lines) (omega (arith, length-take mid lines))
                (omega (arith, length-take mid lines)) (All-take Fits mid lines h) in
            let (rs, er, tr, fr) =
              split_chunk_recursive-IsSplit fuel (right_half tokens original lines mid)
                (drop mid lines) (omega (arith, length-drop mid lines))
                (omega (arith, length-drop mid lines)) (All-drop Fits mid lines h) in
            (
              ls ++ rs,
              rw (big, el, er),
              Tiles-halves original.start_line mid lines ls rs (omega arith) tl tr,
              All-append (λ (c : ChunkSpec). Fits c.content) ls rs fl fr,
            )
      ]
    where
      two_lines :
          (ls : List Text)
          → 0 < length ls
          → All Fits ls
          → leb (tokens (join_lines ls)) max_chunk_tokens ≡ false
          → 1 < length ls
      two_lines [] n h big = absurd (omega arith)
      two_lines (l ∷ []) n h big =
          let one = ap tokens (join_one l) in
          absurd (omega (arith, leb_false→lt _ max_chunk_tokens big, h.0))
      two_lines (l ∷ m ∷ ls) n h big = omega arith

module _ (tokens : Text → ℕ) (fuel : ℕ) where
  -- A chunk that the loop can bring under the cap: it is there already, or it has at least two
  -- lines, each of which is within the cap, and at most as many as there is fuel.
  abbrev pub CanFit : ChunkSpec → Type 0
  CanFit chunk =
      Fits tokens chunk.content
      ⊎ ((1 < length (splitlines chunk.content))
          × (length (splitlines chunk.content) ≤ fuel)
          × All (Fits tokens) (splitlines chunk.content))

  -- A chunk within the cap is kept, and any other becomes consecutive runs of its lines.
  abbrev pub Replaces : ChunkSpec → List ChunkSpec → Type 0
  Replaces chunk cs = (cs ≡ chunk ∷ []) ⊎ Tiles chunk.start_line (splitlines chunk.content) cs

  enforce_one-Replaces :
      (chunk : ChunkSpec)
      → CanFit chunk
      → (cs : List ChunkSpec) × (enforce_one tokens fuel chunk ≡ some cs)
        × Replaces chunk cs
        × All (λ c. Fits tokens c.content) cs
  unfolding enforce_one
  enforce_one-Replaces chunk can = elim (Bool-cases (leb (tokens chunk.content) max_chunk_tokens)) [
    | inl fits ↦ (chunk ∷ [], rw fits, inl refl, (leb→le _ max_chunk_tokens fits, tt))
    | inr big ↦ elim can [
      | inl fits ↦ absurd (omega (arith, leb_false→lt _ max_chunk_tokens big))
      | inr (two, enough, h) ↦
          let (cs, e, t, f) =
            split_chunk_recursive-IsSplit tokens fuel chunk (splitlines chunk.content) enough
              (omega arith) h in
          (cs, rw (big, lt→leb_false _ 1 two, e), inr t, f)
    ]
  ]

  Counted : ChunkSpec × ℕ → Type 0
  Counted (c, n) = (n ≡ tokens c.content) × (n ≤ max_chunk_tokens)

  with_counts-Counted :
      (cs : List ChunkSpec)
      → All (λ c. Fits tokens c.content) cs
      → All Counted (with_counts tokens cs)
  unfolding Counted
  with_counts-Counted [] h = tt
  with_counts-Counted (c ∷ cs) (f, h) = ((refl, f), with_counts-Counted cs h)

  -- With one nested call for each line, the loop returns for all chunks that can fit; every chunk
  -- that it returns comes with its token count, which is within the cap.
  pub enforce_chunk_token_cap-Counted :
      (chunks : List ChunkSpec)
      → All CanFit chunks
      → (out : List (ChunkSpec × ℕ)) × (enforce_chunk_token_cap tokens fuel chunks ≡ some out)
        × All (λ (c, n). (n ≡ tokens c.content) × (n ≤ max_chunk_tokens)) out
  unfolding enforce_chunk_token_cap Counted
  enforce_chunk_token_cap-Counted [] h = ([], refl, tt)
  enforce_chunk_token_cap-Counted (chunk ∷ chunks) (can, h) =
      let (cs, e, _, f) = enforce_one-Replaces chunk can in
      let (out, e', good) = enforce_chunk_token_cap-Counted chunks h in
      (
        with_counts tokens cs ++ out,
        rw (e, e'),
        All-append Counted (with_counts tokens cs) out (with_counts-Counted cs f) good,
      )

>>=-eq-some {κ μ} :
    {X : Type κ} {Y : Type μ} (step : Option X) (next : X → Option Y) {y : Y}
    → (step >>= next) ≡ some y
    → (x : X) × (step ≡ some x) × (next x ≡ some y)
>>=-eq-some (some x) next q = (x, refl, q)
>>=-eq-some none next q = cc

with_counts-eq-counts :
    (tokens : Text → ℕ) (cs : List ChunkSpec)
    → All (λ (c, n). n ≡ tokens c.content) (with_counts tokens cs)
with_counts-eq-counts tokens [] = tt
with_counts-eq-counts tokens (c ∷ cs) = (refl, with_counts-eq-counts tokens cs)

-- Whatever the loop returns, the count beside a chunk is the chunk's.
pub enforce_chunk_token_cap-eq-counts :
    (tokens : Text → ℕ) (fuel : ℕ) (chunks : List ChunkSpec) (out : List (ChunkSpec × ℕ))
    → enforce_chunk_token_cap tokens fuel chunks ≡ some out
    → All (λ (c, n). n ≡ tokens c.content) out
unfolding enforce_chunk_token_cap
enforce_chunk_token_cap-eq-counts tokens fuel [] out h =
    subst (All (λ (c, n). n ≡ tokens c.content)) (let e : [] ≡ out = cc in e) tt
enforce_chunk_token_cap-eq-counts tokens fuel (chunk ∷ chunks) out h =
    let (cs, _, h') = >>=-eq-some (enforce_one tokens fuel chunk) _ h in
    let (rest, e, h'') = >>=-eq-some (enforce_chunk_token_cap tokens fuel chunks) _ h' in
    let same : with_counts tokens cs ++ rest ≡ out = cc in
    subst (All (λ (c, n). n ≡ tokens c.content)) same (
      All-append (λ (c, n). n ≡ tokens c.content) (with_counts tokens cs) rest
        (with_counts-eq-counts tokens cs)
        (enforce_chunk_token_cap-eq-counts tokens fuel chunks rest e))
