-- ===== src/Common/Digits.antt =====
-- Python's `int` of a text.
use Prim.Native.Nat.{ℕ, zero, suc, ◌+◌, ◌-◌, ◌*◌}
use mathlib.Core.Bool.{Bool, true, false, ◌&&◌}
use mathlib.Core.Option.{Option, none, some}
use mathlib.Core.List.{[], ◌∷◌, map}
use codesensei.Common.Tests.{leb, ltb, ◌==◌, if◌then◌else◌}
use codesensei.Common.Lists.{length, keep}
use codesensei.Common.Strings.{Text}
use codesensei.Common.Int.{ℤ, pos, negsuc}

-- What of Unicode's database `str.lower`, `int` and `\d` of a pattern read: the lower case of a
-- text, and the value of a decimal digit.
pub record Unicode : Type 0 where
  pub lower : Text → Text
  pub digit : ℕ → Option ℕ

-- `int` of digits with single underscores between them.
abbrev pub read_digits : Unicode → Bool → ℕ → Text → Option ℕ
read_digits u after_digit acc [] = if after_digit then some acc else none
read_digits u after_digit acc (c ∷ s) = elim (u.digit c) [
  | some d ↦ read_digits u true (acc * 10 + d) s
  | none ↦ if after_digit && c == b'_' then read_digits u false acc s else none
]

abbrev pub is_some {ℓ} : {A : Type ℓ} → Option A → Bool
is_some none = false
is_some (some a) = true

-- Python refuses to convert more than 4300 digits.
unfoldable pub parse_nat : Unicode → Text → Option ℕ
parse_nat u s =
    if ltb 4300 (length (keep (λ c. is_some (u.digit c)) s)) then none else read_digits u false 0 s

abbrev negative : ℕ → ℤ
negative zero = pos 0
negative (suc n) = negsuc n

abbrev read_as : (ℕ → ℤ) → Option ℕ → Option ℤ
read_as f none = none
read_as f (some n) = some (f n)

unfoldable pub parse_int : Unicode → Text → Option ℤ
unfolding parse_nat
parse_int u [] = none
parse_int u (c ∷ s) =
    if c == b'-'
    then read_as negative (parse_nat u s)
    else if c == b'+'
    then read_as pos (parse_nat u s)
    else read_as pos (parse_nat u (c ∷ s))

-- The digits and the letters of ASCII, for tests.
abbrev pub ascii : Unicode
ascii = record {
  lower = map (λ c. if leb b'A' c && leb c b'Z' then c + 32 else c);
  digit = λ c. if leb b'0' c && leb c b'9' then some (c - b'0') else none;
}
