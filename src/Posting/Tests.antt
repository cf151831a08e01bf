-- ===== src/Posting/Tests.antt =====
-- Runs of backend/src/codesensei/posting on small inputs.
use codesensei.Common.{
  ◌||◌, not, ℕ, pos, negsuc, ◌≡◌, refl, true, false, none, some, List, [], ◌∷◌, codes, ◌==◌,
  if◌then◌else◌, map, text_eq, is_space,
}
use codesensei.Review.Errors.{review_error, ReviewErrorCategory, github_rate_limited, ok, raised}
use codesensei.Review.Schema.{Finding, blocker, nit}
use codesensei.Posting.Mapper.{build_payload}
use codesensei.Posting.Mapper.Complete.{IsComplete, build_payload-IsComplete}
use codesensei.Posting.Client.{Answer, responds, Reply, post_review}
use codesensei.Common.Json.{Json, int, str, array, object, none_left, item, no_fields, field}
use codesensei.Common.Digits.{ascii, parse_int, parse_nat}
use codesensei.Posting.Client.Laws.{
  is_retryable, is_transient, is_listed, WaitsOf, post_review-Waits,
}
use codesensei.Posting.PrUrl.{parse_pr_url}
use codesensei.Posting.PrUrl.RoundTrip.{IsSegment, IsNumber, pr_url, parse_pr_url-pr_url}
use codesensei.Posting.Service.{PostReviewRequest, Call, Outside, post_review_to_github}
use codesensei.Posting.Service.Calls.{IsRun, post_review_to_github-IsRun}

abbrev inline : Finding
inline = record {
  file = codes "a.py";
  line = some (pos 12);
  severity = blocker;
  message = codes "m";
  suggestion = some (codes "s");
  temporal_context = none;
}

abbrev at_zero : Finding
at_zero = record {
  file = codes "b.py";
  line = some (pos 0);
  severity = nit;
  message = codes "n";
  suggestion = none;
  temporal_context = none;
}

abbrev two_findings : List Finding
two_findings = inline ∷ at_zero ∷ []

body_of_two :
    (build_payload two_findings (codes "COMMENT")).body
    ≡ codes "### Findings without inline location\n- **nit**: n"
unfolding build_payload
body_of_two = refl

inline_of_two :
    map (λ c. c.body) (build_payload two_findings (codes "COMMENT")).comments
    ≡ codes "**blocker**: m\n\n_Suggestion_: s" ∷ []
unfolding build_payload
inline_of_two = refl

build_payload-IsComplete_example :
    IsComplete two_findings (build_payload two_findings (codes "COMMENT"))
build_payload-IsComplete_example = build_payload-IsComplete two_findings (codes "COMMENT")

-- `int` takes signs and single underscores.
ints :
    map (parse_int ascii) (codes "-7" ∷ codes "1_0" ∷ codes "1__0" ∷ codes "_1" ∷ codes "" ∷ [])
    ≡ some (negsuc 6) ∷ some (pos 10) ∷ none ∷ none ∷ none ∷ []
unfolding parse_int
ints = refl

abbrev limited : Answer
limited = responds (record { status_code = 429; retry_after = some (codes " 30 "); json = none })

limited_waits :
    post_review ascii limited
    ≡ Reply.failed (record {
      category = github_rate_limited;
      retryable = true;
      retry_after_seconds = some (pos 30);
    })
unfolding post_review
limited_waits = refl

post_review-Waits_example :
    (is_retryable (post_review ascii limited) ≡ (is_transient limited || not (is_listed limited)))
    × WaitsOf (post_review ascii limited)
post_review-Waits_example = post_review-Waits ascii limited

urls :
    map (parse_pr_url ascii) (
      codes "https://github.com/o/r/pull/12\n"
      ∷ codes "https://github.com/o/r/pull/12/files"
      ∷ codes "http://github.com/o/r/pull/12"
      ∷ [])
    ≡ ok (codes "o", codes "r", 12)
      ∷ raised (review_error ReviewErrorCategory.invalid_input false)
      ∷ raised (review_error ReviewErrorCategory.invalid_input false)
      ∷ []
unfolding parse_pr_url parse_nat
urls = refl

read_12 : parse_nat ascii (codes "12") ≡ some 12
unfolding parse_nat
read_12 = refl

IsSegment-o : IsSegment (codes "o")
unfolding is_space
IsSegment-o = (refl, (refl, tt))

IsNumber-12 : IsNumber ascii (codes "12")
IsNumber-12 = (refl, (refl, (refl, tt)))

parse_pr_url-pr_url_example :
    parse_pr_url ascii (pr_url (codes "o") (codes "o") (codes "12")) ≡ ok (codes "o", codes "o", 12)
parse_pr_url-pr_url_example =
    parse_pr_url-pr_url ascii (codes "o") (codes "o") (codes "12") 12 IsSegment-o IsSegment-o
      IsNumber-12 read_12

abbrev request : PostReviewRequest
request = record {
  findings = two_findings;
  pr_url = codes "https://github.com/o/o/pull/12";
  event = codes "COMMENT";
}

abbrev out_of_diff : Json
out_of_diff = object (
    field (codes "errors")
      (array (
        item
          (object (
            field (codes "resource") (str (codes "PullRequestReviewComment"))
              (field (codes "field") (str (codes "line")) no_fields)))
          none_left))
      no_fields)

abbrev posted : Json
posted =
    object (field (codes "id") (int (pos 9)) (field (codes "html_url") (str (codes "u")) no_fields))

abbrev response_of : ℕ → Json → Answer
response_of code j = responds (record { status_code = code; retry_after = none; json = some j })

-- GitHub refuses the comments' positions, and takes the review without them.
abbrev answers : ℕ → Call → Answer
answers n c = if n == 0 then response_of 422 out_of_diff else response_of 200 posted

abbrev outside : Outside
outside = record {
  unicode = ascii;
  token = ok (some (codes "t"));
  answer = answers;
  now = codes "now";
}

request_parses : parse_pr_url ascii request.pr_url ≡ ok (codes "o", codes "o", 12)
unfolding parse_pr_url parse_nat
request_parses = refl

fallback_posts :
    (post_review_to_github outside request).result
    ≡ ok (record {
      review_id = pos 9;
      html_url = codes "u";
      posted_at = codes "now";
      comment_count = 0;
      attempted_calls = 2;
    })
unfolding post_review_to_github parse_pr_url parse_nat post_review build_payload text_eq
fallback_posts = refl

post_review_to_github-IsRun_example : IsRun outside request (post_review_to_github outside request)
post_review_to_github-IsRun_example = post_review_to_github-IsRun outside request
