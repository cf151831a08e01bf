-- ===== src/Posting/Service.antt =====
-- backend/src/codesensei/posting/service.py: posting a review, with the retry without comments. The
-- results of GitHub's API are a function of the call's position and payload; each call is recorded.
pub mod Calls
use codesensei.Common.{
  ℕ, zero, suc, ℤ, pos, Bool, true, false, not, ◌&&◌, ◌||◌, Option, none, some, List, [], ◌∷◌, Text,
  codes, ◌==◌, if◌then◌else◌, is_empty, keep, length, text_eq, starts_with, is_space, any, drop,
}
use codesensei.Review.Errors.{
  review_error, ReviewErrorCategory, ReviewError, settings_locked, github_review_rejected, internal,
  Result, ok, raised, raised_other,
}
use codesensei.Review.Schema.{Finding}
use codesensei.Posting.PrUrl.{parse_pr_url}
use codesensei.Posting.Mapper.{Comment, Payload, build_payload}
use codesensei.Posting.Client.{Answer, Reply, returned, github422, failed, crashed, post_review}
use codesensei.Common.Json.{
  lookup, Json, null, bool, int, real, str, array, object, Items, none_left, item, Fields,
  no_fields, field,
}
use codesensei.Common.Digits.{Unicode, parse_nat, is_some}

abbrev is_str : Text → Option Json → Bool
is_str s (some (str t)) = text_eq t s
is_str s j = false

abbrev position_fields : List Text
position_fields = codes "path" ∷ codes "line" ∷ codes "position" ∷ codes "start_line" ∷ []

abbrev is_position_field : Option Json → Bool
is_position_field (some (str t)) = any (text_eq t) position_fields
is_position_field j = false

abbrev is_position_entry : Json → Bool
is_position_entry (object fs) =
    is_str (codes "PullRequestReviewComment") (lookup (codes "resource") fs)
    && is_position_field (lookup (codes "field") fs)
is_position_entry j = false

abbrev any_position_entry : Items → Bool
any_position_entry none_left = false
any_position_entry (item j js) = if is_position_entry j then true else any_position_entry js

abbrev any_position_error : Option Json → Bool
any_position_error (some (array js)) = any_position_entry js
any_position_error j = false

abbrev contains : Text → Text → Bool
contains s [] = starts_with [] s
contains s (c ∷ t) = if starts_with (c ∷ t) s then true else contains s t

abbrev has_hint : Unicode → Option Json → Bool
has_hint u (some (str t)) = contains (codes "not part of the pull request diff") (u.lower t)
has_hint u j = false

-- A body that is no object has no `get`.
pub is_position_error : Unicode → Json → Result Bool
is_position_error u (object fs) =
    ok (any_position_error (lookup (codes "errors") fs) || has_hint u (lookup (codes "message") fs))
is_position_error u j = raised_other

pub record PostReviewRequest : Type 0 where
  pub findings : List Finding
  pub pr_url : Text
  pub event : Text

pub record PostedReviewReceipt : Type 0 where
  pub review_id : ℤ
  pub html_url : Text
  pub posted_at : Text
  pub comment_count : ℕ
  pub attempted_calls : ℕ

-- One call of `github_client.post_review`.
pub record Call : Type 0 where
  pub owner : Text
  pub repo : Text
  pub number : ℕ
  pub token : Text
  pub payload : Payload

-- The line `github_review_posted`; an `outcome` of none is "ok".
pub record LogLine : Type 0 where
  pub comment_count : ℕ
  pub body_chars : ℕ
  pub review_id : Option ℤ
  pub outcome : Option ReviewErrorCategory
  pub attempted_calls : ℕ

-- What the request finds: the setting `GITHUB_TOKEN`, GitHub's answer to the nth call, the time.
pub record Outside : Type 0 where
  pub unicode : Unicode
  pub token : Result (Option Text)
  pub answer : ℕ → Call → Answer
  pub now : Text

pub record Run : Type 0 where
  pub calls : List Call
  pub result : Result PostedReviewReceipt
  pub log : LogLine

abbrev outcome_of {ℓ} : {A : Type ℓ} → Result A → Option ReviewErrorCategory
outcome_of (ok r) = none
outcome_of (raised e) = some e.category
outcome_of raised_other = some internal

-- The `finally` block, after these calls, the last of them counted.
abbrev finish : List Call → ℕ → ℕ → ℕ → Option ℤ → Result PostedReviewReceipt → Run
finish calls count chars attempts review_id result = record {
  calls = calls;
  result = result;
  log = record {
    comment_count = count;
    body_chars = chars;
    review_id = review_id;
    outcome = outcome_of result;
    attempted_calls = attempts;
  };
}

abbrev before_calls : Result PostedReviewReceipt → Run
before_calls r = finish [] 0 0 0 none r

abbrev rejected {ℓ} : {A : Type ℓ} → Result A
rejected = raised (review_error github_review_rejected false)

-- `isinstance(value, int)`, which a Boolean passes too.
abbrev int_of : Option Json → Option ℤ
int_of (some (int n)) = some n
int_of (some (bool true)) = some (pos 1)
int_of (some (bool false)) = some (pos 0)
int_of j = none

abbrev str_of : Option Json → Option Text
str_of (some (str t)) = some t
str_of j = none

abbrev receipt : Text → ℕ → ℕ → Option ℤ → Option Text → Result PostedReviewReceipt
receipt now count attempts none url = rejected
receipt now count attempts (some review_id) none = rejected
receipt now count attempts (some review_id) (some url) = ok (record {
  review_id = review_id;
  html_url = url;
  posted_at = now;
  comment_count = count;
  attempted_calls = attempts;
})

-- From `gh_response` on.
abbrev after_response : Text → List Call → ℕ → ℕ → ℕ → Json → Run
after_response now calls count chars attempts (object fs) =
    let review_id = int_of (lookup (codes "id") fs) in
    finish calls count chars attempts review_id
      (receipt now count attempts review_id (str_of (lookup (codes "html_url") fs)))
after_response now calls count chars attempts j =
    finish calls count chars attempts none raised_other

abbrev without_comments : Call → Call
without_comments c = record c { payload = record c.payload { comments = [] } }

-- The answer to the second call, which carries the same payload with `comments` emptied.
abbrev second_reply : Text → Call → Reply → Run
second_reply now c (returned j) =
    after_response now (c ∷ without_comments c ∷ []) 0 (length c.payload.body) 2 j
second_reply now c (github422 j) =
    finish (c ∷ without_comments c ∷ []) 0 (length c.payload.body) 2 none rejected
second_reply now c (failed e) =
    finish (c ∷ without_comments c ∷ []) 0 (length c.payload.body) 2 none (raised e)
second_reply now c crashed =
    finish (c ∷ without_comments c ∷ []) 0 (length c.payload.body) 2 none raised_other

abbrev first_end : Call → Result PostedReviewReceipt → Run
first_end c r = finish (c ∷ []) (length c.payload.comments) (length c.payload.body) 1 none r

abbrev after_422 : Outside → Call → Result Bool → Run
after_422 o c (ok true) =
    second_reply o.now c (post_review o.unicode (o.answer 1 (without_comments c)))
after_422 o c (ok false) = first_end c rejected
after_422 o c (raised e) = first_end c (raised e)
after_422 o c raised_other = first_end c raised_other

abbrev first_reply : Outside → Call → Reply → Run
first_reply o c (returned j) =
    after_response o.now (c ∷ []) (length c.payload.comments) (length c.payload.body) 1 j
first_reply o c (github422 j) = after_422 o c (is_position_error o.unicode j)
first_reply o c (failed e) = first_end c (raised e)
first_reply o c crashed = first_end c raised_other

abbrev with_token : Outside → PostReviewRequest → Text × Text × ℕ → Result (Option Text) → Run
with_token o req url raised_other = before_calls raised_other
with_token o req url (raised e) = before_calls (raised e)
with_token o req url (ok none) = before_calls (raised (review_error settings_locked false))
with_token o req url (ok (some [])) = before_calls (raised (review_error settings_locked false))
with_token o req (owner, repo, number) (ok (some (t ∷ ts))) =
    let c : Call = record {
      owner = owner;
      repo = repo;
      number = number;
      token = t ∷ ts;
      payload = build_payload req.findings req.event;
    } in
    first_reply o c (post_review o.unicode (o.answer 0 c))

abbrev with_url : Outside → PostReviewRequest → Result (Text × Text × ℕ) → Run
with_url o req (ok url) = with_token o req url o.token
with_url o req (raised e) = before_calls (raised e)
with_url o req raised_other = before_calls raised_other

unfoldable pub post_review_to_github : Outside → PostReviewRequest → Run
unfolding is_position_error
post_review_to_github o req = with_url o req (parse_pr_url o.unicode req.pr_url)
