-- ===== src/Review/DiffFetch/Tests.antt =====
-- Runs of the checks of a request, and of the fetch.
use codesensei.Common.{◌≡◌, refl, true, none, some, [], ◌∷◌, Text, codes, is_space, starts_with}
use codesensei.Common.Digits.{ascii}
use codesensei.Review.Errors.{ok}
use codesensei.Review.DiffFetch.{
  FetchEnd, responds, fetch_pr_diff, match_url, looks_like_unified_diff, ReviewRequest, exactly_one,
}
use codesensei.Review.DiffFetch.Request.{IsValid, IsChecked, exactly_one-IsChecked}

abbrev get : Text → FetchEnd
get url = responds 404 []

abbrev request : ReviewRequest
request = record {
  diff = none;
  pr_url = some (codes "https://github.com/o/r/pull/12");
  repo_id = none;
}

asked :
    (fetch_pr_diff ascii get (codes "https://github.com/o/r/pull/12")).asked
    ≡ codes "https://api.github.com/repos/o/r/pulls/12" ∷ []
unfolding fetch_pr_diff match_url starts_with is_space
asked = refl

unlike : looks_like_unified_diff (codes "--- a/x\n+++ b/x\n") ≡ true
unfolding looks_like_unified_diff starts_with
unlike = refl

passes : exactly_one ascii request ≡ ok request
unfolding exactly_one match_url starts_with is_space
passes = refl

exactly_one-IsChecked_example :
    IsChecked (IsValid ascii request) request (exactly_one ascii request)
exactly_one-IsChecked_example = exactly_one-IsChecked ascii request
