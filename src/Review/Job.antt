-- ===== src/Review/Job.antt =====
-- backend/src/codesensei/review/tasks.py: the worker's job. The frames are the calls of the publisher,
-- whose failures are ignored; what `UUID` reads of a text is a parameter.
pub mod Frames
pub mod Tests
use codesensei.Common.{
  ℕ, Bool, true, false, Option, none, some, List, [], ◌∷◌, ◌++◌, Text, length, map, if◌then◌else◌,
}
use codesensei.Review.Errors.{
  ReviewErrorCategory, ReviewError, Result, ok, raised, raised_other, invalid_input, internal,
}
use codesensei.Review.Schema.{Verdict}
use codesensei.History.{History}
use codesensei.Review.DiffFetch.{FetchEnd, fetch_pr_diff}
use codesensei.Review.Pipeline.{Stage, World, ReviewResult, Run, run_for_diff, run_for_url}

pub record JobPayload : Type 0 where
  pub run_id : Option ℕ
  pub verdict : Verdict
  pub finding_count : ℕ
  pub provider : Text
  pub elapsed_ms : ℕ

pub data Frame : Type 0 where
  queued : Frame
  progress : Stage → Frame
  complete_success : JobPayload → Frame
  complete_failed : ReviewErrorCategory → Frame

-- What the job returns.
pub data Envelope : Type 0 where
  result : JobPayload → Envelope
  error : ReviewErrorCategory → Bool → Envelope

pub record JobRun : Type 0 where
  pub frames : List Frame
  pub envelope : Envelope
  pub history : History

-- The fields of the body that are texts.
pub record Body : Type 0 where
  pub diff : Option Text
  pub pr_url : Option Text
  pub repo_id : Option Text

abbrev pub payload_of : ReviewResult → JobPayload
payload_of r = record {
  run_id = r.run_id;
  verdict = r.verdict;
  finding_count = length r.findings;
  provider = r.provider;
  elapsed_ms = r.elapsed_ms;
}

abbrev pub envelope_of : Result ReviewResult → Envelope
envelope_of (ok r) = result (payload_of r)
envelope_of (raised e) = error e.category e.retryable
envelope_of raised_other = error internal true

abbrev pub last_frame : Envelope → Frame
last_frame (result p) = complete_success p
last_frame (error c retryable) = complete_failed c

abbrev pub after_run : Run → JobRun
after_run r = record {
  frames = queued ∷ (map progress r.stages ++ (last_frame (envelope_of r.result) ∷ []));
  envelope = envelope_of r.result;
  history = r.history;
}

-- `UUID(repo_id)` of a text that is not empty; none is a `ValueError`.
abbrev pub repo_of : (Text → Option ℕ) → Option Text → Option (Option ℕ)
repo_of uuid none = some none
repo_of uuid (some []) = some none
repo_of uuid (some (c ∷ s)) = elim (uuid (c ∷ s)) [ none ↦ none | some id ↦ some (some id) ]

abbrev pub refused : List Frame → History → JobRun
refused frames h = record {
  frames = frames ++ (complete_failed invalid_input ∷ []);
  envelope = error invalid_input false;
  history = h;
}

-- The frames go out only with a job's identifier and a client.
abbrev pub published : Bool → JobRun → JobRun
published connected j = if connected then j else record j { frames = [] }

module _ {V : Type 0} (w : World V) (uuid : Text → Option ℕ) (get : Text → FetchEnd) where
  abbrev pub with_input : History → Option Text → Option Text → Option ℕ → JobRun
  with_input h (some diff) pr_url repo_id = after_run (run_for_diff w h diff repo_id)
  with_input h none (some pr_url) repo_id =
      after_run (run_for_url w h pr_url (fetch_pr_diff w.libraries.unicode get pr_url).diff repo_id)
  with_input h none none repo_id = refused (queued ∷ []) h

  abbrev pub with_repo_id : History → Body → Option (Option ℕ) → JobRun
  with_repo_id h body none = refused [] h
  with_repo_id h body (some repo_id) = with_input h body.diff body.pr_url repo_id

  unfoldable pub review_job : Bool → History → Body → JobRun
  review_job connected h body =
      published connected (with_repo_id h body (repo_of uuid body.repo_id))
