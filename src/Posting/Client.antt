-- ===== src/Posting/Client.antt =====
-- backend/src/codesensei/posting/client.py: what one call of GitHub's reviews API comes to. The
-- request itself and the reading of its answer are the HTTP library's: the model takes the answer.
pub mod Laws
use codesensei.Common.Json.{Json, object, no_fields}
use codesensei.Common.Digits.{Unicode, parse_int}
use codesensei.Common.{
  ℕ, ℤ, pos, negsuc, Bool, true, false, ◌&&◌, ◌||◌, Option, none, some, List, [], ◌∷◌, Text, codes,
  ◌==◌, leb, ltb, if◌then◌else◌, is_positive, keep, length, strip, zero, suc, ◌*◌, ◌+◌,
}
use codesensei.Review.Errors.{
  review_error, ReviewErrorCategory, ReviewError, github_auth_failed, github_pr_not_found,
  github_api_unavailable, github_rate_limited,
}

-- GitHub's response: the `Retry-After` header where it has one, and its body as JSON where it is.
pub record Response : Type 0 where
  pub status_code : ℕ
  pub retry_after : Option Text
  pub json : Option Json

-- The end of `client.post`: `TimeoutException`, `ConnectError`, another `HTTPError`, an exception
-- that is none of them, or a response.
pub data Answer : Type 0 where
  times_out cannot_connect http_error fails_otherwise : Answer
  responds : Response → Answer

-- What `post_review` returns or raises.
pub data Reply : Type 0 where
  returned : Json → Reply
  github422 : Json → Reply
  failed : ReviewError → Reply
  crashed : Reply

abbrev positive_or_60 : Option ℤ → ℤ
positive_or_60 none = pos 60
positive_or_60 (some n) = if is_positive n then n else pos 60

abbrev or_empty : Option Text → Text
or_empty none = []
or_empty (some s) = s

pub parse_retry_after : Unicode → Response → ℤ
parse_retry_after u r = positive_or_60 (parse_int u (strip (or_empty r.retry_after)))

abbrev returned_json : Option Json → Reply
returned_json none = crashed
returned_json (some j) = returned j

abbrev rejected_json : Option Json → Reply
rejected_json none = github422 (object no_fields)
rejected_json (some j) = github422 j

pub status_reply : Unicode → ℕ → Response → Reply
status_reply u code r =
    if code == 200
    then returned_json r.json
    else if code == 201
    then returned_json r.json
    else if code == 401 || code == 403
    then failed (review_error github_auth_failed false)
    else if code == 404
    then failed (review_error github_pr_not_found false)
    else if code == 422
    then rejected_json r.json
    else if code == 429
    then failed (record {
      category = github_rate_limited;
      retryable = true;
      retry_after_seconds = some (parse_retry_after u r);
    })
    else if leb 500 code && ltb code 600
    then failed (review_error github_api_unavailable true)
    else failed (review_error github_api_unavailable true)

unfoldable pub post_review : Unicode → Answer → Reply
unfolding status_reply parse_retry_after parse_int strip
post_review u times_out = failed (review_error github_api_unavailable true)
post_review u cannot_connect = failed (review_error github_api_unavailable true)
post_review u http_error = failed (review_error github_api_unavailable true)
post_review u fails_otherwise = crashed
post_review u (responds r) = status_reply u r.status_code r
