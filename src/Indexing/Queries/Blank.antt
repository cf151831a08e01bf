-- ===== src/Indexing/Queries/Blank.antt =====
-- Hunks whose new side is blank.
use codesensei.Common.{
  ◌≡◌, refl, sym, ◌∙◌, inl, inr, Bool, true, false, not, none, some, List, [], ◌∷◌, ◌++◌, Text,
  if◌then◌else◌, all, any, Bool-cases, is_space, has_text, join_lines, rstrip, lstrip, strip,
  has_text-nonspace,
}
use codesensei.Indexing.Queries.{window}

-- A line of white space only.
abbrev pub is_blank : Text → Bool
is_blank s = all is_space s

has_text-space : (c : _) (s : Text) → is_space c ≡ true → has_text (c ∷ s) ≡ has_text s
unfolding has_text strip lstrip
has_text-space c s h = rw h refl

has_text-nil : has_text [] ≡ false
unfolding has_text strip lstrip rstrip
has_text-nil = refl

has_text-is_blank : (s : Text) → has_text s ≡ not (is_blank s)
has_text-is_blank [] = has_text-nil
has_text-is_blank (c ∷ s) = elim (Bool-cases (is_space c)) [
  | inl space ↦ has_text-space c s space ∙ has_text-is_blank s ∙ rw space refl
  | inr other ↦ has_text-nonspace c s other ∙ rw other refl
]

any-has_text : (ls : List Text) → any has_text ls ≡ not (all is_blank ls)
any-has_text [] = refl
any-has_text (l ∷ ls) = elim (Bool-cases (is_blank l)) [
  | inl blank ↦ rw (has_text-is_blank l, blank, any-has_text ls) refl
  | inr text ↦ rw (has_text-is_blank l, text) refl
]

is_blank-append : (s t : Text) → is_blank (s ++ t) ≡ (if is_blank s then is_blank t else false)
is_blank-append [] t = refl
is_blank-append (c ∷ s) t = elim (Bool-cases (is_space c)) [
  | inl space ↦ rw (space, is_blank-append s t) refl
  | inr other ↦ rw other refl
]

lf_is_space : is_space 10 ≡ true
unfolding is_space
lf_is_space = refl

and_true : (b : Bool) → (if b then true else false) ≡ b
and_true true = refl
and_true false = refl

is_blank-join_lines : (ls : List Text) → is_blank (join_lines ls) ≡ all is_blank ls
unfolding join_lines
is_blank-join_lines [] = refl
is_blank-join_lines (l ∷ []) = sym (and_true (is_blank l))
is_blank-join_lines (l ∷ m ∷ ls) =
    is_blank-append l (10 ∷ join_lines (m ∷ ls))
    ∙ rw (lf_is_space, is_blank-join_lines (m ∷ ls)) refl

-- A window has no query where all its lines are blank, and else the lines joined.
pub window-blank :
    (ls : List Text) → window ls ≡ (if all is_blank ls then none else some (join_lines ls))
unfolding window
window-blank ls = elim (Bool-cases (all is_blank ls)) [
  | inl blank ↦ rw (any-has_text ls, blank) refl
  | inr text ↦
      rw (any-has_text ls, has_text-is_blank (join_lines ls), is_blank-join_lines ls, text) refl
]
