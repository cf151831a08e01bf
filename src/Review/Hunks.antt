-- ===== src/Review/Hunks.antt =====
-- backend/src/codesensei/review/service.py: `_extract_rhs_hunks` and its two patterns.
pub mod Headers
pub mod Bounds
pub mod Numbers
pub mod Tests
use codesensei.Common.{
  ℕ, Bool, true, false, not, ◌||◌, Option, none, some, List, [], ◌∷◌, ◌++◌, Text, codes, ◌==◌, leb,
  if◌then◌else◌, length, is_empty, is_space, starts_with, strip_prefix, strip, span, splitlines,
}
use codesensei.Common.Options.{◌>>=◌}
use codesensei.Common.Dict.{update, or_value}
use codesensei.Common.Digits.{Unicode, is_some, parse_nat}
use codesensei.Review.Windows.{Hunk}

-- `\s`.
abbrev pub one_space : Text → Option Text
one_space [] = none
one_space (c ∷ s) = if is_space c then some s else none

abbrev pub is_digit : Unicode → ℕ → Bool
is_digit u c = is_some (u.digit c)

-- `\d+`, and what follows.
abbrev pub some_digits : Unicode → Text → Option (Text × Text)
some_digits u s =
    let (digits, rest) = span (is_digit u) s in
    if is_empty digits then none else some (digits, rest)

-- `(?:,(\d+))?`: the number where it is there, and what follows.
abbrev pub optional_from : Text → Option (Text × Text) → Option Text × Text
optional_from s none = (none, s)
optional_from s (some (digits, rest)) = (some digits, rest)

abbrev pub optional_number : Unicode → Text → Option Text × Text
optional_number u [] = (none, [])
optional_number u (c ∷ s) =
    if c == b',' then optional_from (c ∷ s) (some_digits u s) else (none, c ∷ s)

abbrev pub matched : Text → Option Text → Option Text → Option (Text × Option Text)
matched start size none = none
matched start size (some rest) = some (start, size)

-- `(\d+)(?:,(\d+))?\s`, and what follows.
abbrev pub side_size : Text → Option Text × Text → Option (Text × Option Text × Text)
side_size digits (size, s) = do rest ← one_space s; some (digits, size, rest)

abbrev pub side : Unicode → Text → Option (Text × Option Text × Text)
side u s = do (digits, rest) ← some_digits u s; side_size digits (optional_number u rest)

-- The groups of `_HUNK_HEADER_RE`.
unfoldable pub match_hunk : Unicode → Text → Option (Text × Option Text)
unfolding starts_with
match_hunk u raw = do
  s1 ← strip_prefix (codes "@@") raw
  s2 ← one_space s1
  s3 ← strip_prefix (codes "-") s2
  (old, old_size, s4) ← side u s3
  s5 ← strip_prefix (codes "+") s4
  (start, size, s6) ← side u s5
  matched start size (strip_prefix (codes "@@") s6)

-- The group of `_FILE_HEADER_RE`, which is not empty.
abbrev not_empty : Text → Option Text
not_empty [] = none
not_empty (c ∷ s) = some (c ∷ s)

unfoldable pub match_file : Text → Option Text
unfolding starts_with
match_file raw = strip_prefix (codes "+++ b/") raw >>= not_empty

-- `out` and `current_file`.
pub record Extract : Type 0 where
  pub out : List (Text × List Hunk)
  pub current_file : Option Text

abbrev pub add_hunk : Text → Hunk → List (Text × List Hunk) → List (Text × List Hunk)
add_hunk path h = update path (λ o. or_value [] o ++ (h ∷ []))

abbrev pub size_of : Unicode → Option Text → Option ℕ
size_of u none = some 1
size_of u (some digits) = parse_nat u digits

abbrev pub with_hunk : Extract → Text → ℕ → ℕ → Extract
with_hunk st path start size =
    if leb start 0 || leb size 0 then st else record st { out = add_hunk path (start, size) st.out }

-- A line that is no file's header; none where `int` raises.
abbrev pub hunk_line : Unicode → Extract → Text → Option (Text × Option Text) → Option Extract
hunk_line u st path none = some st
hunk_line u st path (some (start, size)) = do
  n ← parse_nat u start
  m ← size_of u size
  some (with_hunk st path n m)

abbrev body_line : Unicode → Extract → Text → Option Text → Option Extract
body_line u st raw none = some st
body_line u st raw (some path) = hunk_line u st path (match_hunk u raw)

abbrev extract_file : Unicode → Extract → Text → Option Text → Option Extract
extract_file u st raw none = body_line u st raw st.current_file
extract_file u st raw (some path) = some (record st { current_file = some (strip path) })

-- The body of the loop.
pub extract_line : Unicode → Extract → Text → Option Extract
unfolding match_hunk match_file
extract_line u st raw = extract_file u st raw (match_file raw)

pub extract_lines : Unicode → Extract → List Text → Option Extract
unfolding extract_line
extract_lines u st [] = some st
extract_lines u st (raw ∷ lines) = extract_line u st raw >>= λ st'. extract_lines u st' lines

unfoldable pub extract_rhs_hunks : Unicode → Text → Option (List (Text × List Hunk))
unfolding extract_lines
extract_rhs_hunks u diff =
    extract_lines u (record { out = []; current_file = none }) (splitlines diff) >>= λ st.
    some st.out
