-- ===== src/Common/Splitting.antt =====
-- What was joined is split again.
use Prim.Native.Nat.{ℕ}
use mathlib.Core.Path.{◌≡◌, refl, ap, ◌∙◌}
use mathlib.Core.Bool.{Bool, true, false, not}
use mathlib.Core.List.{List, [], ◌∷◌, ◌++◌}
use native.Mathlib.Omega.{arith}
use codesensei.Common.Tests.{◌==◌}
use mathlib.Core.Option.{some}
use codesensei.Common.Lists.{All, length, drop}
use codesensei.Common.Strings.{
  Text, is_break, is_space, is_empty, splitlines, split_on, join_lines, has_text, lstrip, rstrip,
  drop_last_space, starts_with, span, strip_prefix,
}

-- No character of the text ends a line; none is the separator; none is white space.
abbrev pub IsLine : Text → Type 0
IsLine = All (λ c. is_break c ≡ false)

abbrev pub Lacks : ℕ → Text → Type 0
Lacks sep = All (λ c. (c == sep) ≡ false)

split_on_self : (sep : ℕ) (rest : Text) → split_on sep (sep ∷ rest) ≡ [] ∷ split_on sep rest
unfolding split_on
split_on_self sep rest = ground arith

pub split_on-append :
    (sep : ℕ) (front rest : Text)
    → Lacks sep front
    → split_on sep (front ++ (sep ∷ rest)) ≡ front ∷ split_on sep rest
unfolding split_on
split_on-append sep [] rest h = split_on_self sep rest
split_on-append sep (c ∷ front) rest (h, hs) = rw (h, split_on-append sep front rest hs) refl

pub split_on-whole : (sep : ℕ) (s : Text) → Lacks sep s → split_on sep s ≡ s ∷ []
unfolding split_on
split_on-whole sep [] h = refl
split_on-whole sep (c ∷ s) (h, hs) = rw (h, split_on-whole sep s hs) refl

-- A carriage return is a line boundary.
not_return : (c : ℕ) → is_break c ≡ false → (c == 13) ≡ false
unfolding is_break
not_return c h = ground arith

splitlines-lf : (s : Text) → splitlines (10 ∷ s) ≡ [] ∷ splitlines s
unfolding splitlines is_break
splitlines-lf s = refl

pub splitlines-append :
    (line rest : Text) → IsLine line → splitlines (line ++ (10 ∷ rest)) ≡ line ∷ splitlines rest
unfolding splitlines
splitlines-append [] rest h = splitlines-lf rest
splitlines-append (c ∷ line) rest (h, hs) =
    rw (not_return c h, h, splitlines-append line rest hs) refl

pub splitlines-whole :
    (c : ℕ) (line : Text) → IsLine (c ∷ line) → splitlines (c ∷ line) ≡ (c ∷ line) ∷ []
unfolding splitlines
splitlines-whole c [] (h, hs) = rw (not_return c h, h) refl
splitlines-whole c (d ∷ line) (h, hs) = rw (splitlines-whole d line hs, not_return c h, h) refl

splitlines_nil : splitlines [] ≡ []
unfolding splitlines
splitlines_nil = refl

-- Lines that are not empty come back.
abbrev pub AreLines : List Text → Type 0
AreLines = All (λ l. (is_empty l ≡ false) × IsLine l)

pub splitlines-join_lines : (ls : List Text) → AreLines ls → splitlines (join_lines ls) ≡ ls
unfolding join_lines
splitlines-join_lines [] h = splitlines_nil
splitlines-join_lines ([] ∷ ls) (h, hs) = cc h.0
splitlines-join_lines ((c ∷ l) ∷ []) (h, hs) = splitlines-whole c l h.1
splitlines-join_lines ((c ∷ l) ∷ m ∷ ls) (h, hs) =
    splitlines-append (c ∷ l) (join_lines (m ∷ ls)) h.1
    ∙ ap (λ r. (c ∷ l) ∷ r) (splitlines-join_lines (m ∷ ls) hs)

pub lstrip-nonspace : (c : ℕ) (s : Text) → is_space c ≡ false → lstrip (c ∷ s) ≡ c ∷ s
unfolding lstrip is_space
lstrip-nonspace c s h = ground arith

drop_last_space-nonspace :
    (c : ℕ) (r : Text) → is_space c ≡ false → is_empty (drop_last_space c r) ≡ false
drop_last_space-nonspace c [] h = rw h refl
drop_last_space-nonspace c (d ∷ t) h = refl

rstrip-nonspace : (c : ℕ) (s : Text) → is_space c ≡ false → is_empty (rstrip (c ∷ s)) ≡ false
unfolding rstrip
rstrip-nonspace c s h = drop_last_space-nonspace c (rstrip s) h

pub has_text-nonspace : (c : ℕ) (s : Text) → is_space c ≡ false → has_text (c ∷ s) ≡ true
unfolding has_text
has_text-nonspace c s h =
    ap (λ r. not (is_empty (rstrip r))) (lstrip-nonspace c s h) ∙ ap not (rstrip-nonspace c s h)

starts_with_append : (prefix s : Text) → starts_with (prefix ++ s) prefix ≡ true
unfolding starts_with
starts_with_append [] s = refl
starts_with_append (c ∷ prefix) s = ground (arith, starts_with_append prefix s)

pub drop-length-append : (prefix s : Text) → drop (length prefix) (prefix ++ s) ≡ s
drop-length-append [] s = refl
drop-length-append (c ∷ prefix) s = drop-length-append prefix s

pub strip_prefix-append : (prefix s : Text) → strip_prefix prefix (prefix ++ s) ≡ some s
strip_prefix-append prefix s = rw (starts_with_append prefix s, drop-length-append prefix s) refl

-- The span ends where the test first fails.
abbrev pub Stops : (ℕ → Bool) → Text → Type 0
Stops p [] = Unit
Stops p (c ∷ s) = p c ≡ false

pub span-append :
    (p : ℕ → Bool) (front back : Text)
    → All (λ c. p c ≡ true) front
    → Stops p back
    → span p (front ++ back) ≡ (front, back)
span-append p [] [] h k = refl
span-append p [] (c ∷ s) h k = rw k refl
span-append p (c ∷ front) back h k = rw (h.0, span-append p front back h.1 k) refl

pub span-All : (p : ℕ → Bool) (xs : Text) → All (λ c. p c ≡ true) xs → span p xs ≡ (xs, [])
span-All p [] h = refl
span-All p (c ∷ xs) h = rw (h.0, span-All p xs h.1) refl
