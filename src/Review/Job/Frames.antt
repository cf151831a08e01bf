-- ===== src/Review/Job/Frames.antt =====
-- The frames that a job publishes.
use codesensei.Common.{
  length, ℕ, ◌≡◌, refl, Bool, true, false, Option, none, some, List, [], ◌∷◌, ◌++◌, Text, map,
}
use codesensei.Review.Errors.{Result, ok, raised, raised_other}
use codesensei.History.{History}
use codesensei.Review.DiffFetch.{FetchEnd, fetch_pr_diff}
use codesensei.History.Rows.{IsHistory}
use codesensei.Review.Pipeline.{Stage, World, ReviewResult, Run}
use codesensei.Review.Pipeline.Ends.{Input, IsRun, IsEnd, IsSaved}
use codesensei.Review.Pipeline.Stages.{run_for_url-IsRun, run_for_diff-IsRun}
use codesensei.Review.Job.{
  Frame, queued, progress, complete_success, complete_failed, Envelope, result, error, JobRun, Body,
  JobPayload, envelope_of, last_frame, after_run, repo_of, refused, published, with_input,
  with_repo_id, review_job,
}

-- Some frames of progress, and then the one that completes the job with what its envelope holds.
abbrev pub EndsWith : Envelope → List Frame → Type 0
EndsWith e [] = ⊥
EndsWith e (queued ∷ fs) = EndsWith e fs
EndsWith e (progress s ∷ fs) = EndsWith e fs
EndsWith (result p) (complete_success q ∷ fs) = (fs ≡ []) × (q ≡ p)
EndsWith (error c retryable) (complete_success q ∷ fs) = ⊥
EndsWith (result p) (complete_failed d ∷ fs) = ⊥
EndsWith (error c retryable) (complete_failed d ∷ fs) = (fs ≡ []) × (d ≡ c)

-- The payload holds what the result does.
abbrev pub IsPayloadOf : ReviewResult → JobPayload → Type 0
IsPayloadOf r p =
    (p.run_id ≡ r.run_id)
    × (p.verdict ≡ r.verdict)
    × (p.finding_count ≡ length r.findings)
    × (p.provider ≡ r.provider)
    × (p.elapsed_ms ≡ r.elapsed_ms)

-- A job that returns a result has saved it as the review does; one that returns an error has left the
-- history as it was.
abbrev pub IsKept : (Input → Type 0) → History → Envelope → History → Type 0
IsKept P h (result p) h' =
    (i : Input) × P i × ((r : ReviewResult) × IsPayloadOf r p × IsSaved i h r p.run_id h')
IsKept P h (error c retryable) h' = h' ≡ h

abbrev pub IsJob : (Input → Type 0) → Bool → History → JobRun → Type 0
IsJob P true h j = EndsWith j.envelope j.frames × IsKept P h j.envelope j.history
IsJob P false h j = (j.frames ≡ []) × IsKept P h j.envelope j.history

-- What a body asks for: its diff, or else its address with the diff that is fetched from there.
abbrev pub IsSource : (Text → Result Text) → Option Text → Option Text → Input → Type 0
IsSource fetched (some diff) pr_url i = (i.source ≡ ok diff) × (i.pr_url ≡ none)
IsSource fetched none (some url) i = (i.source ≡ fetched url) × (i.pr_url ≡ some url)
IsSource fetched none none i = ⊥

abbrev pub IsAsked : ℕ → (Text → Option ℕ) → (Text → Result Text) → Body → Input → Type 0
IsAsked now uuid fetched body i =
    (i.now ≡ now)
    × (repo_of uuid body.repo_id ≡ some i.repo_id)
    × IsSource fetched body.diff body.pr_url i

EndsWith-stages :
    (stages : List Stage) (e : Envelope) → EndsWith e (map progress stages ++ (last_frame e ∷ []))
EndsWith-stages [] (result p) = (refl, refl)
EndsWith-stages [] (error c retryable) = (refl, refl)
EndsWith-stages (s ∷ stages) (result p) = EndsWith-stages stages (result p)
EndsWith-stages (s ∷ stages) (error c retryable) = EndsWith-stages stages (error c retryable)

IsKept-result :
    (P : Input → Type 0) (i : Input) (h : History) (stages : List Stage) (h' : History)
    (o : Result ReviewResult)
    → P i
    → IsEnd i h stages h' o
    → IsKept P h (envelope_of o) h'
IsKept-result P i h stages h' (ok r) p ended = (i, p, (r, (refl, refl, refl, refl, refl), ended.1))
IsKept-result P i h stages h' (raised e) p ended = ended.0
IsKept-result P i h stages h' raised_other p ended = ended.0

IsJob-run :
    (P : Input → Type 0) (i : Input) (connected : Bool) (h : History) (r : Run)
    → P i
    → IsRun 0 i h r
    → IsJob P connected h (published connected (after_run r))
unfolding IsRun
IsJob-run P i true h r p run = (
  EndsWith-stages r.stages (envelope_of r.result),
  IsKept-result P i h r.stages r.history r.result p run.2,
)
IsJob-run P i false h r p run = (refl, IsKept-result P i h r.stages r.history r.result p run.2)

IsJob-unread :
    (P : Input → Type 0) (connected : Bool) (h : History)
    → IsJob P connected h (published connected (refused [] h))
IsJob-unread P true h = ((refl, refl), refl)
IsJob-unread P false h = (refl, refl)

IsJob-empty :
    (P : Input → Type 0) (connected : Bool) (h : History)
    → IsJob P connected h (published connected (refused (queued ∷ []) h))
IsJob-empty P true h = ((refl, refl), refl)
IsJob-empty P false h = (refl, refl)

module _ {V : Type 0} (w : World V) (uuid : Text → Option ℕ) (get : Text → FetchEnd)
    (connected : Bool) (h : History) (ok_h : IsHistory h) where
  abbrev fetch_of : Text → Result Text
  fetch_of pr_url = (fetch_pr_diff w.libraries.unicode get pr_url).diff

  abbrev IsFor : Option (Option ℕ) → Option Text → Option Text → Input → Type 0
  IsFor o diff pr_url i = (i.now ≡ w.now) × (o ≡ some i.repo_id) × IsSource fetch_of diff pr_url i

  with_input-IsJob :
      (diff pr_url : Option Text) (repo_id : Option ℕ)
      → IsJob
          (IsFor (some repo_id) diff pr_url)
          connected
          h
          (published connected (with_input w uuid get h diff pr_url repo_id))
  with_input-IsJob (some diff) pr_url repo_id =
      IsJob-run _ (record { now = w.now; source = ok diff; pr_url = none; repo_id = repo_id })
        connected h _ (refl, refl, (refl, refl)) (run_for_diff-IsRun w h diff repo_id ok_h)
  with_input-IsJob none (some pr_url) repo_id =
      IsJob-run _
        (record { now = w.now; source = fetch_of pr_url; pr_url = some pr_url; repo_id = repo_id })
        connected h _ (refl, refl, (refl, refl))
        (run_for_url-IsRun w h pr_url (fetch_of pr_url) repo_id ok_h)
  with_input-IsJob none none repo_id = IsJob-empty _ connected h

  with_repo_id-IsJob :
      (body : Body) (o : Option (Option ℕ))
      → IsJob
          (IsFor o body.diff body.pr_url)
          connected
          h
          (published connected (with_repo_id w uuid get h body o))
  with_repo_id-IsJob body none = IsJob-unread _ connected h
  with_repo_id-IsJob body (some repo_id) = with_input-IsJob body.diff body.pr_url repo_id

-- Of a sound history, a job publishes frames of progress and then one that completes it, with the
-- result or the error that it returns; without a connection it publishes nothing. A job that returns
-- a result holds the identifier, the verdict and the number of findings of a review of what its body
-- asks for, saved as that review does: with an identifier, its run was inserted and the history
-- capped. One that returns an error leaves the history as it was.
pub review_job-IsJob :
    {V : Type 0} (w : World V) (uuid : Text → Option ℕ) (get : Text → FetchEnd) (connected : Bool)
    (h : History) (body : Body)
    → IsHistory h
    → IsJob
        (IsAsked w.now uuid (λ url. (fetch_pr_diff w.libraries.unicode get url).diff) body)
        connected
        h
        (review_job w uuid get connected h body)
unfolding review_job
review_job-IsJob w uuid get connected h body ok_h =
    with_repo_id-IsJob w uuid get connected h ok_h body (repo_of uuid body.repo_id)
