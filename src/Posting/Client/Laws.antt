-- ===== src/Posting/Client/Laws.antt =====
-- Which replies of GitHub may be tried again.
use codesensei.Common.{
  any, leb, ◌||◌, ◌&&◌, ℕ, ℤ, pos, negsuc, ◌≡◌, refl, Bool, true, false, Option, none, some, ◌==◌,
  arith, is_positive, not, [], ◌∷◌,
}
use codesensei.Review.Errors.{ReviewErrorCategory, github_rate_limited}
use codesensei.Posting.Client.{
  Response, Answer, times_out, cannot_connect, http_error, fails_otherwise, responds, Reply,
  returned, github422, failed, crashed, post_review, status_reply, parse_retry_after,
  positive_or_60,
}
use codesensei.Common.Digits.{Unicode}

-- The contract of the endpoint (specs/006-pr-review-posting/contracts/api_post_review.md) lets a
-- client retry where GitHub answers 429 or 5xx, the request times out, or the network fails.
abbrev pub is_transient : Answer → Bool
is_transient times_out = true
is_transient cannot_connect = true
is_transient http_error = true
is_transient fails_otherwise = false
is_transient (responds r) = r.status_code == 429 || leb 500 r.status_code && leb r.status_code 599

-- The contract says what becomes of the answer.
abbrev pub is_listed : Answer → Bool
is_listed times_out = true
is_listed cannot_connect = true
is_listed http_error = true
is_listed fails_otherwise = true
is_listed (responds r) =
    let code = r.status_code in
    any (λ n. code == n) (200 ∷ 201 ∷ 401 ∷ 403 ∷ 404 ∷ 422 ∷ 429 ∷ [])
    || leb 500 code && leb code 599

abbrev pub is_retryable : Reply → Bool
is_retryable (returned j) = false
is_retryable (github422 j) = false
is_retryable (failed e) = e.retryable
is_retryable crashed = false

-- Only the rate limit says how long to wait, and then at least a second.
abbrev pub Waits : ReviewErrorCategory → Option ℤ → Type 0
Waits github_rate_limited (some n) = is_positive n ≡ true
Waits github_rate_limited none = ⊥
Waits c t = t ≡ none

abbrev pub WaitsOf : Reply → Type 0
WaitsOf (returned j) = Unit
WaitsOf (github422 j) = Unit
WaitsOf (failed e) = Waits e.category e.retry_after_seconds
WaitsOf crashed = Unit

positive_or_60-positive : (n : Option ℤ) → is_positive (positive_or_60 n) ≡ true
positive_or_60-positive none = refl
positive_or_60-positive (some (negsuc n)) = refl
positive_or_60-positive (some (pos n)) = ground arith

status_reply-retryable :
    (u : Unicode) (code : ℕ) (r : Response)
    → is_retryable (status_reply u code r) ≡ (
        (code == 429 || leb 500 code && leb code 599)
        || not (
            any (λ n. code == n) (200 ∷ 201 ∷ 401 ∷ 403 ∷ 404 ∷ 422 ∷ 429 ∷ [])
            || leb 500 code && leb code 599))
unfolding status_reply
status_reply-retryable u code r = ground arith

status_reply-WaitsOf : (u : Unicode) (code : ℕ) (r : Response) → WaitsOf (status_reply u code r)
unfolding status_reply parse_retry_after
status_reply-WaitsOf u code r = ground arith

-- For every answer of GitHub, or none, `post_review` raises a retryable error exactly where the
-- endpoint's contract allows a retry, or GitHub's status is one that the contract does not list
-- (400 or 410 among them); and an error tells how long to wait exactly where it is the rate limit,
-- and then a positive number of seconds, whatever the header holds.
pub post_review-Waits :
    (u : Unicode) (a : Answer)
    → (is_retryable (post_review u a) ≡ (is_transient a || not (is_listed a)))
      × WaitsOf (post_review u a)
unfolding post_review
post_review-Waits u times_out = (refl, refl)
post_review-Waits u cannot_connect = (refl, refl)
post_review-Waits u http_error = (refl, refl)
post_review-Waits u fails_otherwise = (refl, tt)
post_review-Waits u (responds r) =
    (status_reply-retryable u r.status_code r, status_reply-WaitsOf u r.status_code r)
