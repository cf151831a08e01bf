-- ===== src/Indexing/TokenCap/Endless.antt =====
-- The recursive split at a line that is over the cap by itself.
use codesensei.Common.Options.{◌>>=◌}
use codesensei.Common.{
  ℕ, zero, suc, ◌/◌, ◌<◌, max, ◌≡◌, refl, sym, ap, ◌∙◌, take-append-drop, Option, none, some, List,
  [], ◌∷◌, ◌++◌, Text, length, take, drop, splitlines, join_lines, inl, inr, ◌⊎◌, lt→leb_false,
}
use mathlib.Core.List.{append_assoc, append-nil}
use codesensei.Indexing.Chunk.{ChunkSpec}
use codesensei.Indexing.TokenCap.{
  max_chunk_tokens, split_chunk_recursive, enforce_chunk_token_cap, left_half, right_half,
}

-- `x` is one of the lines.
abbrev pub Holds : Text → List Text → Type 0
Holds x ls = (pre post : List Text) × (ls ≡ pre ++ (x ∷ post))

-- Consecutive lines of others.
abbrev pub IsRunOf : List Text → List Text → Type 0
IsRunOf lines ls = (pre post : List Text) × (lines ≡ pre ++ (ls ++ post))

-- Every run of the lines with `x` in it is over the cap.
abbrev pub IsTooLong : (Text → ℕ) → List Text → Text → Type 0
IsTooLong tokens lines x =
    (ls : List Text) → IsRunOf lines ls → Holds x ls → max_chunk_tokens < tokens (join_lines ls)

halves :
    (pre ls post : List Text) (mid : ℕ)
    → pre ++ (ls ++ post) ≡ pre ++ (take mid ls ++ (drop mid ls ++ post))
halves pre ls post mid =
    ap (λ r. pre ++ (r ++ post)) (sym (take-append-drop mid ls))
    ∙ ap (λ r. pre ++ r) (append_assoc (take mid ls) (drop mid ls) post)

IsRunOf-take : (all ls : List Text) (mid : ℕ) → IsRunOf all ls → IsRunOf all (take mid ls)
IsRunOf-take all ls mid (pre, post, e) = (pre, drop mid ls ++ post, e ∙ halves pre ls post mid)

IsRunOf-drop : (all ls : List Text) (mid : ℕ) → IsRunOf all ls → IsRunOf all (drop mid ls)
IsRunOf-drop all ls mid (pre, post, e) = (
  pre ++ take mid ls,
  post,
  e ∙ halves pre ls post mid ∙ sym (append_assoc pre (take mid ls) (drop mid ls ++ post)),
)

Holds-halves :
    (x : Text) (mid : ℕ) (ls : List Text)
    → Holds x ls
    → Holds x (take mid ls) ⊎ Holds x (drop mid ls)
Holds-halves x zero ls h = inr h
Holds-halves x (suc mid) [] ([], post, e) = absurd (cc)
Holds-halves x (suc mid) [] (p ∷ pre, post, e) = absurd (cc)
Holds-halves x (suc mid) (l ∷ ls) ([], post, e) = inl ([], take mid ls, cc)
Holds-halves x (suc mid) (l ∷ ls) (p ∷ pre, post, e) =
    elim (Holds-halves x mid ls (pre, post, cc)) [
      | inl (a, b, q) ↦ inl (p ∷ a, b, cc)
      | inr h ↦ inr h
    ]

bind-none {ℓ κ} : {A : Type ℓ} {B : Type κ} (m : Option A) → ◌>>=◌ {B = B} m (λ _. none) ≡ none
bind-none none = refl
bind-none (some a) = refl

split_chunk_recursive-eq-none :
    (tokens : Text → ℕ) (x : Text) (all : List Text)
    → IsTooLong tokens all x
    → (fuel : ℕ) (original : ChunkSpec) (lines : List Text) → IsRunOf all lines
    → Holds x lines
    → split_chunk_recursive tokens fuel original lines ≡ none
unfolding split_chunk_recursive
split_chunk_recursive-eq-none tokens x all long zero original lines run h = refl
split_chunk_recursive-eq-none tokens x all long (suc fuel) original lines run h =
    let mid = max 1 (length lines / 2) in
    rw (lt→leb_false (tokens (join_lines lines)) max_chunk_tokens (long lines run h))
      (elim (Holds-halves x mid lines h) [
        | inl left ↦ rw (
            split_chunk_recursive-eq-none tokens x all long fuel
              (left_half tokens original lines mid) (take mid lines)
              (IsRunOf-take all lines mid run) left)
        | inr right ↦
            rw
              (split_chunk_recursive-eq-none tokens x all long fuel
                (right_half tokens original lines mid) (drop mid lines)
                (IsRunOf-drop all lines mid run) right)
              (bind-none _)
      ])

-- A chunk that is over the cap, of two lines or more, with a line such that every run of the chunk's
-- lines with that line in it is over the cap: the split of it never returns, since no number of
-- nested calls is enough for the loop over any chunks that begin with this one.
pub enforce_chunk_token_cap-eq-none :
    (tokens : Text → ℕ) (x : Text) (fuel : ℕ) (chunk : ChunkSpec) (chunks : List ChunkSpec)
    → 1 < length (splitlines chunk.content)
    → Holds x (splitlines chunk.content)
    → IsTooLong tokens (splitlines chunk.content) x
    → max_chunk_tokens < tokens chunk.content
    → enforce_chunk_token_cap tokens fuel (chunk ∷ chunks) ≡ none
unfolding enforce_chunk_token_cap
enforce_chunk_token_cap-eq-none tokens x fuel chunk chunks two h long over =
    let lines : List Text = splitlines chunk.content in
    rw (
      lt→leb_false (tokens chunk.content) max_chunk_tokens over,
      lt→leb_false (length lines) 1 two,
      split_chunk_recursive-eq-none tokens x lines long fuel chunk lines ([], [], whole lines) h,
    )
  where
    whole : (ls : List Text) → ls ≡ ls ++ []
    whole ls = sym (append-nil ls)
