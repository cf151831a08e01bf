-- ===== src/Posting/PrUrl.antt =====
-- backend/src/codesensei/posting/service.py: `_PR_URL_RE` and `parse_pr_url`.
pub mod RoundTrip
use codesensei.Common.{
  span, strip_prefix, ℕ, zero, suc, Bool, true, false, not, ◌&&◌, Option, none, some, List, [], ◌∷◌,
  Text, codes, ◌==◌, if◌then◌else◌, is_empty, length, starts_with, is_space, drop,
}
use codesensei.Review.Errors.{
  review_error, ReviewError, invalid_input, Result, ok, raised, raised_other,
}
use codesensei.Common.Digits.{Unicode, parse_nat, is_some}

abbrev in_segment : ℕ → Bool
in_segment c = not (c == b'/') && not (is_space c)

-- `$` stands at the end of the text, and before a line feed that ends it.
abbrev at_end : Text → Bool
at_end [] = true
at_end (c ∷ []) = c == 10
at_end (c ∷ d ∷ s) = false

abbrev match_number : Unicode → Text → Text → Option Text → Option (Text × Text × Text)
match_number u owner repo none = none
match_number u owner repo (some s) =
    let (digits, back) = span (λ c. is_some (u.digit c)) s in
    if not (is_empty digits) && at_end back then some (owner, repo, digits) else none

abbrev match_repo : Unicode → Text → Option Text → Option (Text × Text × Text)
match_repo u owner none = none
match_repo u owner (some s) =
    let (repo, back) = span in_segment s in
    if is_empty repo then none else match_number u owner repo (strip_prefix (codes "/pull/") back)

abbrev pub match_owner : Unicode → Option Text → Option (Text × Text × Text)
match_owner u none = none
match_owner u (some s) =
    let (owner, back) = span in_segment s in
    if is_empty owner then none else match_repo u owner (strip_prefix (codes "/") back)

-- `int(number)`.
abbrev number_of : Text → Text → Option ℕ → Result (Text × Text × ℕ)
number_of owner repo none = raised_other
number_of owner repo (some n) = ok (owner, repo, n)

abbrev groups : Unicode → Option (Text × Text × Text) → Result (Text × Text × ℕ)
groups u none = raised (review_error invalid_input false)
groups u (some (owner, repo, digits)) = number_of owner repo (parse_nat u digits)

unfoldable pub parse_pr_url : Unicode → Text → Result (Text × Text × ℕ)
unfolding is_space starts_with
parse_pr_url u pr_url = groups u (match_owner u (strip_prefix (codes "https://github.com/") pr_url))
