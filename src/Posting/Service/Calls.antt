-- ===== src/Posting/Service/Calls.antt =====
-- The calls that posting a review makes, and what it reports of them.
use codesensei.Common.{
  ℕ, ℤ, codes, ◌≡◌, ◌≢◌, refl, Bool, true, false, Option, none, some, List, [], ◌∷◌, Text, length,
}
use codesensei.Review.Errors.{internal, Result, ok, raised, raised_other}
use codesensei.Posting.Mapper.{build_payload}
use codesensei.Posting.Client.{Reply, returned, github422, failed, crashed, post_review}
use codesensei.Common.Json.{lookup, Json, null, bool, int, real, str, array, object}
use codesensei.Common.Digits.{Unicode}
use codesensei.Posting.PrUrl.{parse_pr_url}
use codesensei.Posting.Service.{
  is_position_error, PostReviewRequest, PostedReviewReceipt, Call, LogLine, Outside, Run, int_of,
  str_of, after_response, second_reply, after_422, first_reply, with_token, with_url,
  post_review_to_github, finish, receipt, without_comments,
}

-- The calls that may be made: none; one with the review's payload; or two, the second the first
-- without its inline comments, after GitHub refused the first for a position.
pub data IsCalls (o : Outside) (req : PostReviewRequest) : List Call → Type 0 where
  no_call : IsCalls o req []
  one_call : (c : Call) → c.payload ≡ build_payload req.findings req.event → IsCalls o req (c ∷ [])
  two_calls :
      (c : Call) (j : Json)
      → c.payload ≡ build_payload req.findings req.event
      → post_review o.unicode (o.answer 0 c) ≡ github422 j
      → is_position_error o.unicode j ≡ ok true
      → IsCalls o req (c ∷ record c { payload = record c.payload { comments = [] } } ∷ [])

-- The comments and the characters of the body in the last call.
abbrev pub last_comments : List Call → ℕ
last_comments [] = 0
last_comments (c ∷ []) = length c.payload.comments
last_comments (c ∷ d ∷ cs) = last_comments (d ∷ cs)

abbrev pub last_chars : List Call → ℕ
last_chars [] = 0
last_chars (c ∷ []) = length c.payload.body
last_chars (c ∷ d ∷ cs) = last_chars (d ∷ cs)

-- The log line's outcome is the result's, and a receipt counts what was sent.
abbrev pub Reports : List Call → LogLine → Result PostedReviewReceipt → Type 0
Reports calls line (ok r) =
    (calls ≢ [])
    × (line.outcome ≡ none)
    × (line.review_id ≡ some r.review_id)
    × (r.comment_count ≡ last_comments calls)
    × (r.attempted_calls ≡ length calls)
Reports calls line (raised e) = line.outcome ≡ some e.category
Reports calls line raised_other = line.outcome ≡ some internal

abbrev pub IsRun : Outside → PostReviewRequest → Run → Type 0
IsRun o req run =
    IsCalls o req run.calls
    × (run.log.attempted_calls ≡ length run.calls)
    × (run.log.comment_count ≡ last_comments run.calls)
    × (run.log.body_chars ≡ last_chars run.calls)
    × Reports run.calls run.log run.result

receipt-Reports :
    (now : Text) (c : Call) (calls : List Call) (chars : ℕ) (id : Option ℤ) (url : Option Text)
    → (let cs = c ∷ calls in
        let run =
          finish cs
            (last_comments cs)
            chars
            (length cs)
            id
            (receipt now (last_comments cs) (length cs) id url) in
        Reports cs run.log run.result)
receipt-Reports now c calls chars none url = refl
receipt-Reports now c calls chars (some i) none = refl
receipt-Reports now c calls chars (some i) (some u) = ((λ e. cc), refl, refl, refl, refl)

module _ (o : Outside) (req : PostReviewRequest) where
  after_response-IsRun :
      (c : Call) (calls : List Call) (j : Json)
      → IsCalls o req (c ∷ calls)
      → IsRun o req (
          after_response o.now
            (c ∷ calls)
            (last_comments (c ∷ calls))
            (last_chars (c ∷ calls))
            (length (c ∷ calls))
            j)
  after_response-IsRun c calls (object fs) h = (
    h,
    refl,
    refl,
    refl,
    receipt-Reports o.now c calls (last_chars (c ∷ calls)) (int_of (lookup (codes "id") fs))
        (str_of (lookup (codes "html_url") fs)),
  )
  after_response-IsRun c calls null h = (h, refl, refl, refl, refl)
  after_response-IsRun c calls (bool b) h = (h, refl, refl, refl, refl)
  after_response-IsRun c calls (int n) h = (h, refl, refl, refl, refl)
  after_response-IsRun c calls (real t) h = (h, refl, refl, refl, refl)
  after_response-IsRun c calls (str t) h = (h, refl, refl, refl, refl)
  after_response-IsRun c calls (array js) h = (h, refl, refl, refl, refl)

  second_reply-IsRun :
      (c : Call) (r : Reply)
      → IsCalls o req (c ∷ without_comments c ∷ [])
      → IsRun o req (second_reply o.now c r)
  second_reply-IsRun c (returned j) h = after_response-IsRun c (without_comments c ∷ []) j h
  second_reply-IsRun c (github422 j) h = (h, refl, refl, refl, refl)
  second_reply-IsRun c (failed e) h = (h, refl, refl, refl, refl)
  second_reply-IsRun c crashed h = (h, refl, refl, refl, refl)

  module _ (c : Call) (built : c.payload ≡ build_payload req.findings req.event) where
    after_422-IsRun :
        (j : Json)
        → post_review o.unicode (o.answer 0 c) ≡ github422 j
        → (r : Result Bool) → is_position_error o.unicode j ≡ r
        → IsRun o req (after_422 o c r)
    after_422-IsRun j e (ok true) p = second_reply-IsRun c _ (two_calls c j built e p)
    after_422-IsRun j e (ok false) p = (one_call c built, refl, refl, refl, refl)
    after_422-IsRun j e (raised x) p = (one_call c built, refl, refl, refl, refl)
    after_422-IsRun j e raised_other p = (one_call c built, refl, refl, refl, refl)

    first_reply-IsRun :
        (r : Reply) → post_review o.unicode (o.answer 0 c) ≡ r → IsRun o req (first_reply o c r)
    first_reply-IsRun (returned j) e = after_response-IsRun c [] j (one_call c built)
    first_reply-IsRun (github422 j) e = after_422-IsRun j e (is_position_error o.unicode j) refl
    first_reply-IsRun (failed x) e = (one_call c built, refl, refl, refl, refl)
    first_reply-IsRun crashed e = (one_call c built, refl, refl, refl, refl)

  with_token-IsRun :
      (url : Text × Text × ℕ) (t : Result (Option Text)) → IsRun o req (with_token o req url t)
  with_token-IsRun url raised_other = (no_call, refl, refl, refl, refl)
  with_token-IsRun url (raised e) = (no_call, refl, refl, refl, refl)
  with_token-IsRun url (ok none) = (no_call, refl, refl, refl, refl)
  with_token-IsRun url (ok (some [])) = (no_call, refl, refl, refl, refl)
  with_token-IsRun (owner, repo, number) (ok (some (t ∷ ts))) = first_reply-IsRun _ refl _ refl

  with_url-IsRun : (r : Result (Text × Text × ℕ)) → IsRun o req (with_url o req r)
  with_url-IsRun (ok url) = with_token-IsRun url o.token
  with_url-IsRun (raised e) = (no_call, refl, refl, refl, refl)
  with_url-IsRun raised_other = (no_call, refl, refl, refl, refl)

-- Posting a review makes no call, one call with the review's payload, or two calls, the second the
-- first with its inline comments emptied, and only after GitHub answered the first with a position
-- error. The log line counts those calls, and the comments and the body's characters of the last;
-- it names the error's category. A receipt comes after a call, and reports the same counts.
pub post_review_to_github-IsRun :
    (o : Outside) (req : PostReviewRequest) → IsRun o req (post_review_to_github o req)
unfolding post_review_to_github
post_review_to_github-IsRun o req = with_url-IsRun o req (parse_pr_url o.unicode req.pr_url)

-- How many calls GitHub's reply to the first asks for.
abbrev pub calls_for : Unicode → Reply → ℕ
calls_for u (returned j) = 1
calls_for u (failed e) = 1
calls_for u crashed = 1
calls_for u (github422 j) = elim (is_position_error u j) [
  | ok true ↦ 2
  | ok false ↦ 1
  | raised e ↦ 1
  | raised_other ↦ 1
]

abbrev pub call_to : Text × Text × ℕ → Text → PostReviewRequest → Call
call_to (owner, repo, number) token req = record {
  owner = owner;
  repo = repo;
  number = number;
  token = token;
  payload = build_payload req.findings req.event;
}

module _ (o : Outside) (c : Call) where
  length-after_response :
      (cs : List Call) (n m k : ℕ) (j : Json)
      → length (after_response o.now cs n m k j).calls ≡ length cs
  length-after_response cs n m k null = refl
  length-after_response cs n m k (bool b) = refl
  length-after_response cs n m k (int i) = refl
  length-after_response cs n m k (real t) = refl
  length-after_response cs n m k (str t) = refl
  length-after_response cs n m k (array js) = refl
  length-after_response cs n m k (object fs) = refl

  length-second_reply : (r : Reply) → length (second_reply o.now c r).calls ≡ 2
  length-second_reply (returned j) = length-after_response _ _ _ _ j
  length-second_reply (github422 j) = refl
  length-second_reply (failed e) = refl
  length-second_reply crashed = refl

  length-after_422 :
      (r : Result Bool)
      → length (after_422 o c r).calls
        ≡ elim r [ ok true ↦ 2 | ok false ↦ 1 | raised e ↦ 1 | raised_other ↦ 1 ]
  length-after_422 (ok true) = length-second_reply _
  length-after_422 (ok false) = refl
  length-after_422 (raised e) = refl
  length-after_422 raised_other = refl

  length-first_reply : (r : Reply) → length (first_reply o c r).calls ≡ calls_for o.unicode r
  length-first_reply (returned j) = length-after_response _ _ _ _ j
  length-first_reply (github422 j) = length-after_422 (is_position_error o.unicode j)
  length-first_reply (failed e) = refl
  length-first_reply crashed = refl

-- With a URL that parses and a token that is not empty, the calls made are as many as the reply to
-- the first asks for: two where it is a 422 of a position, and one otherwise.
pub post_review_to_github-calls_for :
    (o : Outside) (req : PostReviewRequest) (url : Text × Text × ℕ) (t : ℕ) (ts : Text)
    → parse_pr_url o.unicode req.pr_url ≡ ok url
    → o.token ≡ ok (some (t ∷ ts))
    → length (post_review_to_github o req).calls
      ≡ calls_for o.unicode (post_review o.unicode (o.answer 0 (call_to url (t ∷ ts) req)))
unfolding post_review_to_github
post_review_to_github-calls_for o req url t ts parsed token =
    rw (parsed, token)
      (length-first_reply o (call_to url (t ∷ ts) req)
        (post_review o.unicode (o.answer 0 (call_to url (t ∷ ts) req))))
