-- ===== src/Common/Int.antt =====
-- Python's `int`; `negsuc n` is -(n + 1).
use Prim.Native.Nat.{ℕ, zero, suc, ◌+◌, ◌/◌, ◌%◌}
use mathlib.Core.Bool.{Bool, true, false}
use mathlib.Core.List.{[], ◌∷◌, ◌++◌}
use codesensei.Common.Tests.{leb, ltb}
use codesensei.Common.Strings.{Text}

pub data ℤ : Type 0 where
  pos : ℕ → ℤ
  negsuc : ℕ → ℤ

-- `1 ≤ n`.
abbrev pub is_positive : ℤ → Bool
is_positive (pos n) = leb 1 n
is_positive (negsuc n) = false

-- The decimal digits; a number is more than its count of digits, so `n + 1` rounds are enough.
digits : ℕ → ℕ → Text
digits zero n = []
digits (suc fuel) n = elim (ltb n 10) [
  | true ↦ (n + b'0') ∷ []
  | false ↦ digits fuel (n / 10) ++ ((n % 10 + b'0') ∷ [])
]

-- `str(n)`.
unfoldable pub decimal : ℤ → Text
unfolding digits
decimal (pos n) = digits (n + 1) n
decimal (negsuc n) = b'-' ∷ digits (n + 2) (n + 1)
