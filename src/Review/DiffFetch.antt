-- ===== src/Review/DiffFetch.antt =====
-- backend/src/codesensei/review/github_diff.py, and `ReviewRequest` of review/schema.py, which lets
-- only such addresses through. The answer of GitHub's API is a parameter.
pub mod Request
pub mod Tests
use codesensei.Common.{
  ℕ, Bool, true, false, not, ◌&&◌, ◌||◌, Option, none, some, List, [], ◌∷◌, ◌++◌, Text, codes, ◌==◌,
  if◌then◌else◌, leb, ltb, starts_with, strip_prefix, is_space, is_empty,
}
use codesensei.Common.Digits.{Unicode, is_some}
use codesensei.Review.Errors.{
  ReviewError, Result, ok, raised, raised_other, review_error, invalid_input, github_fetch_failed,
}
use codesensei.Posting.PrUrl.{match_owner}

-- How `client.get` ends: a response, an `HTTPError` of any kind, or another exception.
pub data FetchEnd : Type 0 where
  responds : ℕ → Text → FetchEnd
  http_error get_raises : FetchEnd

-- The addresses that were asked, and the end.
pub record Fetched : Type 0 where
  pub asked : List Text
  pub diff : Result Text

abbrev pub fail : ReviewError
fail = review_error github_fetch_failed false

-- Every status but 200 fails alike, with a message of its own.
abbrev pub after_get : FetchEnd → Result Text
after_get (responds code text) = if code == 200 then ok text else raised fail
after_get http_error = raised fail
after_get get_raises = raised_other

abbrev pub api_url : Text × Text × Text → Text
api_url (owner, repo, number) =
    codes "https://api.github.com/repos/"
    ++ (owner ++ (codes "/" ++ (repo ++ (codes "/pulls/" ++ number))))

-- The groups of `_PR_URL_RE`.
unfoldable pub match_url : Unicode → Text → Option (Text × Text × Text)
unfolding starts_with is_space
match_url u pr_url = match_owner u (strip_prefix (codes "https://github.com/") pr_url)

abbrev pub with_match : (Text → FetchEnd) → Option (Text × Text × Text) → Fetched
with_match get none = record { asked = []; diff = raised (review_error invalid_input false) }
with_match get (some m) = record { asked = api_url m ∷ []; diff = after_get (get (api_url m)) }

unfoldable pub fetch_pr_diff : Unicode → (Text → FetchEnd) → Text → Fetched
unfolding match_url
fetch_pr_diff u get pr_url = with_match get (match_url u pr_url)

-- `^prefix` under MULTILINE: the prefix at the start of the text or after a line feed.
abbrev pub any_line_starts : Bool → Text → Text → Bool
any_line_starts line_start prefix [] = line_start && starts_with [] prefix
any_line_starts line_start prefix (c ∷ s) =
    let rest = any_line_starts (c == 10) prefix s in
    line_start && starts_with (c ∷ s) prefix || rest

unfoldable pub looks_like_unified_diff : Text → Bool
unfolding starts_with
looks_like_unified_diff text =
    if is_empty text
    then false
    else if any_line_starts true (codes "diff --git ") text
    then true
    else any_line_starts true (codes "--- a/") text && any_line_starts true (codes "+++ b/") text

pub record ReviewRequest : Type 0 where
  pub diff : Option Text
  pub pr_url : Option Text
  pub repo_id : Option ℕ

-- Not null and not empty.
abbrev pub has_value : Option Text → Bool
has_value none = false
has_value (some s) = not (is_empty s)

abbrev pub or_empty : Option Text → Text
or_empty none = []
or_empty (some s) = s

-- `_exactly_one`: whether there is a diff, an address, and whether each has its form.
abbrev pub checked : Bool → Bool → Bool → Bool → ReviewRequest → Result ReviewRequest
checked has_diff has_url like_diff like_url r =
    if has_diff && has_url
    then raised (review_error invalid_input false)
    else if not has_diff && not has_url
    then raised (review_error invalid_input false)
    else if has_diff && not like_diff
    then raised (review_error invalid_input false)
    else if has_url && not like_url
    then raised (review_error invalid_input false)
    else ok r

unfoldable pub exactly_one : Unicode → ReviewRequest → Result ReviewRequest
exactly_one u r =
    checked (has_value r.diff) (has_value r.pr_url) (looks_like_unified_diff (or_empty r.diff))
      (is_some (match_url u (or_empty r.pr_url))) r
