-- ===== src/Review/Job/Tests.antt =====
-- Runs of a job.
use codesensei.Common.{ℕ, ◌≡◌, refl, true, Option, none, some, [], ◌∷◌, Text, codes}
use codesensei.Common.Digits.{ascii}
use codesensei.Review.Errors.{invalid_input}
use codesensei.Review.DiffFetch.{FetchEnd, responds, fetch_pr_diff}
use codesensei.Review.Pipeline.Tests.{world, no_history, no_history-IsHistory}
use codesensei.Review.Job.{Body, complete_failed, review_job}
use codesensei.Review.Job.Frames.{IsJob, IsAsked, review_job-IsJob}

abbrev uuid : Text → Option ℕ
uuid s = none

abbrev get : Text → FetchEnd
get url = responds 200 (codes "+a")

abbrev body : Option Text → Body
body repo_id = record { diff = some (codes "+a"); pr_url = none; repo_id = repo_id }

bad_repo :
    (review_job world uuid get true no_history (body (some (codes "x")))).frames
    ≡ complete_failed invalid_input ∷ []
unfolding review_job
bad_repo = refl

review_job-IsJob_example :
    IsJob
      (IsAsked 3 uuid (λ url. (fetch_pr_diff ascii get url).diff) (body none))
      true
      no_history
      (review_job world uuid get true no_history (body none))
review_job-IsJob_example =
    review_job-IsJob world uuid get true no_history (body none) no_history-IsHistory
