-- ===== src/Review/Hunks/Headers.antt =====
-- The headers that the patterns match.
use codesensei.Common.{
  ◌≡◌, refl, ap, ◌∙◌, true, false, Option, none, some, ◌∷◌, ◌++◌, Text, codes, is_empty, is_space,
  All, Stops, span-append, strip_prefix, strip_prefix-append, starts_with,
}
use codesensei.Common.Options.{◌>>=◌}
use codesensei.Common.Digits.{Unicode}
use codesensei.Review.Hunks.{
  is_digit, one_space, some_digits, optional_number, optional_from, side_size, side, matched,
  match_hunk,
}

abbrev pub IsNumber : Unicode → Text → Type 0
IsNumber u s = (is_empty s ≡ false) × All (λ c. is_digit u c ≡ true) s

abbrev pub IsSize : Unicode → Option Text → Type 0
IsSize u none = Unit
IsSize u (some s) = IsNumber u s

-- A size that is there follows a comma.
abbrev pub size_text : Option Text → Text → Text
size_text none rest = rest
size_text (some s) rest = b',' ∷ (s ++ rest)

-- `@@ -a,b +c,d @@`, and the rest of the line.
abbrev pub header : Text → Option Text → Text → Option Text → Text → Text
header a b c d rest =
    codes "@@"
    ++ (b' '
        ∷ (codes "-"
            ++ (a
                ++ size_text b
                    (b' ' ∷ (codes "+" ++ (c ++ size_text d (b' ' ∷ (codes "@@" ++ rest))))))))

-- A space and a comma are no digits.
abbrev pub IsPlain : Unicode → Type 0
IsPlain u = (is_digit u b' ' ≡ false) × (is_digit u b',' ≡ false)

one_space-space : (s : Text) → one_space (b' ' ∷ s) ≡ some s
unfolding is_space
one_space-space s = refl

module _ (u : Unicode) (plain : IsPlain u) where
  some_digits-append :
      (n rest : Text)
      → IsNumber u n
      → Stops (is_digit u) rest
      → some_digits u (n ++ rest) ≡ some (n, rest)
  some_digits-append n rest (filled, all) stops =
      rw (span-append (is_digit u) n rest all stops, filled) refl

  Stops-size_text : (b : Option Text) (rest : Text) → Stops (is_digit u) (size_text b (b' ' ∷ rest))
  Stops-size_text none rest = plain.0
  Stops-size_text (some s) rest = plain.1

  optional_number-size_text :
      (b : Option Text) (rest : Text)
      → IsSize u b
      → optional_number u (size_text b (b' ' ∷ rest)) ≡ (b, b' ' ∷ rest)
  optional_number-size_text none rest h = refl
  optional_number-size_text (some s) rest h =
      ap (optional_from (b',' ∷ (s ++ (b' ' ∷ rest))))
        (some_digits-append s (b' ' ∷ rest) h plain.0)

  side-append :
      (n : Text) (b : Option Text) (rest : Text)
      → IsNumber u n
      → IsSize u b
      → side u (n ++ size_text b (b' ' ∷ rest)) ≡ some (n, b, rest)
  side-append n b rest number size =
      ap (λ o. o >>= λ p. side_size p.0 (optional_number u p.1))
        (some_digits-append n (size_text b (b' ' ∷ rest)) number (Stops-size_text b rest))
      ∙ ap (side_size n) (optional_number-size_text b rest size)
      ∙ ap (λ o. o >>= λ s. some (n, b, s)) (one_space-space rest)

  from_plus :
      (c : Text) (d : Option Text) (rest : Text)
      → IsNumber u c
      → IsSize u d
      → (do
        s ← strip_prefix (codes "+") (codes "+" ++ (c ++ size_text d (b' ' ∷ (codes "@@" ++ rest))))
        (start, size, s') ← side u s
        matched start size (strip_prefix (codes "@@") s'))
        ≡ some (c, d)
  from_plus c d rest number size =
      ap (λ o. o >>= λ s. side u s >>= λ p. matched p.0 p.1 (strip_prefix (codes "@@") p.2))
        (strip_prefix-append (codes "+") (c ++ size_text d (b' ' ∷ (codes "@@" ++ rest))))
      ∙ ap (λ o. o >>= λ p. matched p.0 p.1 (strip_prefix (codes "@@") p.2))
          (side-append c d (codes "@@" ++ rest) number size)
      ∙ ap (matched c d) (strip_prefix-append (codes "@@") rest)

-- Where a space and a comma are no digits, the header of a hunk, its four numbers in digits and the
-- two sizes there or not, is matched with the first line and the size of the new side, whatever
-- follows it on the line.
pub match_hunk-header :
    (u : Unicode) (a : Text) (b : Option Text) (c : Text) (d : Option Text) (rest : Text)
    → IsPlain u
    → IsNumber u a
    → IsSize u b
    → IsNumber u c
    → IsSize u d
    → match_hunk u (header a b c d rest) ≡ some (c, d)
unfolding match_hunk starts_with is_space
match_hunk-header u a b c d rest plain old old_size new new_size =
    ap
      (λ o. o >>= λ p. do
        s ← strip_prefix (codes "+") p.2
        (start, size, s') ← side u s
        matched start size (strip_prefix (codes "@@") s'))
      (side-append u plain a b (codes "+" ++ (c ++ size_text d (b' ' ∷ (codes "@@" ++ rest)))) old
        old_size)
    ∙ from_plus u plain c d rest new new_size
