-- ===== src/Posting/PrUrl/RoundTrip.antt =====
-- The URLs that the pattern matches.
use codesensei.Common.{
  strip_prefix-append, span-append, span-All, ℕ, ◌≡◌, refl, ap, ◌∙◌, true, false, some, ◌++◌, Text,
  codes, is_empty, All,
}
use codesensei.Review.Errors.{ok}
use codesensei.Common.Digits.{Unicode, parse_nat, is_some}
use codesensei.Posting.PrUrl.{
  parse_pr_url, in_segment, match_number, match_repo, match_owner, groups, number_of,
}

module _ (u : Unicode) (owner repo digits : Text) where
  match_number-digits :
      is_empty digits ≡ false
      → All (λ c. is_some (u.digit c) ≡ true) digits
      → match_number u owner repo (some digits) ≡ some (owner, repo, digits)
  match_number-digits some_digit all_digits =
      rw (span-All (λ c. is_some (u.digit c)) digits all_digits, some_digit) refl

  match_repo-repo :
      is_empty repo ≡ false
      → All (λ c. in_segment c ≡ true) repo
      → match_repo u owner (some (repo ++ (codes "/pull/" ++ digits)))
        ≡ match_number u owner repo (some digits)
  match_repo-repo some_repo all_repo =
      rw
        (
          span-append in_segment repo (codes "/pull/" ++ digits) all_repo refl,
          some_repo,
          strip_prefix-append (codes "/pull/") digits,
        )
        refl

  match_owner-owner :
      is_empty owner ≡ false
      → All (λ c. in_segment c ≡ true) owner
      → (rest : Text)
      → match_owner u (some (owner ++ (codes "/" ++ rest))) ≡ match_repo u owner (some rest)
  match_owner-owner some_owner all_owner rest =
      rw
        (
          span-append in_segment owner (codes "/" ++ rest) all_owner refl,
          some_owner,
          strip_prefix-append (codes "/") rest,
        )
        refl

abbrev pub IsSegment : Text → Type 0
IsSegment s = (is_empty s ≡ false) × All (λ c. in_segment c ≡ true) s

abbrev pub IsNumber : Unicode → Text → Type 0
IsNumber u s = (is_empty s ≡ false) × All (λ c. is_some (u.digit c) ≡ true) s

abbrev pub pr_url : Text → Text → Text → Text
pr_url owner repo digits =
    codes "https://github.com/" ++ (owner ++ (codes "/" ++ (repo ++ (codes "/pull/" ++ digits))))

-- Where the owner and the repository are not empty and hold no slash and no white space, the number
-- is written in digits, and `int` reads it as `n`, the URL of the pull request parses to the three.
pub parse_pr_url-pr_url :
    (u : Unicode) (owner repo digits : Text) (n : ℕ)
    → IsSegment owner
    → IsSegment repo
    → IsNumber u digits
    → parse_nat u digits ≡ some n
    → parse_pr_url u (pr_url owner repo digits) ≡ ok (owner, repo, n)
unfolding parse_pr_url
parse_pr_url-pr_url u owner repo digits n o r d e =
    ap (λ m. groups u (match_owner u m))
      (strip_prefix-append (codes "https://github.com/")
        (owner ++ (codes "/" ++ (repo ++ (codes "/pull/" ++ digits)))))
    ∙ ap (groups u) (
        match_owner-owner u owner repo digits o.0 o.1 (repo ++ (codes "/pull/" ++ digits))
        ∙ match_repo-repo u owner repo digits r.0 r.1
        ∙ match_number-digits u owner repo digits d.0 d.1)
    ∙ ap (number_of owner repo) e
