-- ===== src/Review/Pipeline/Ends.antt =====
-- What a run of a review leaves.
use codesensei.Common.{
  ◌⊎◌, codes, ℕ, suc, ◌≤◌, ◌<◌, ◌≡◌, refl, inl, inr, Option, none, some, List, [], ◌∷◌, Text, All,
  All-map, In, Pairs, arith,
}
use codesensei.Review.Errors.{Result, ok, raised, raised_other}
use codesensei.Review.Schema.{Verdict, approve, request_changes, comment}
use codesensei.History.{History, NewRun, insert_run}
use codesensei.History.RoundTrip.{insert_run-IsRunWith}
use codesensei.History.Rows.{IsHistory}
use codesensei.History.Saved.{IsInserted, IsCapped, insert_run-IsInserted, inserted-IsCapped}
use codesensei.Review.Pipeline.{
  Stage, fetching, validating, retrieving, temporal, llm, parsing, persisting, World, ReviewResult,
  Run, say, step,
}
use codesensei.Review.RunParts.{
  Saving, saves, insert_raises, prune_raises, persist_run, kind_of, verdict_value,
}

abbrev pub rank : Stage → ℕ
rank fetching = 0
rank validating = 1
rank retrieving = 2
rank temporal = 3
rank llm = 4
rank parsing = 5
rank persisting = 6

abbrev pub Before : Stage → Stage → Type 0
Before s t = rank s < rank t

-- What a review is asked for: its time, how its diff is read, its address and its repository.
pub record Input : Type 0 where
  pub now : ℕ
  pub source : Result Text
  pub pr_url : Option Text
  pub repo_id : Option ℕ

-- An address that is not empty makes the kind of a run.
abbrev pub IsKind : Option Text → Text → Type 0
IsKind none kind = kind ≡ codes "diff"
IsKind (some []) kind = kind ≡ codes "diff"
IsKind (some (c ∷ s)) kind = kind ≡ codes "pr_url"

abbrev pub IsVerdictWord : Verdict → Text → Type 0
IsVerdictWord approve t = t ≡ codes "approve"
IsVerdictWord request_changes t = t ≡ codes "request_changes"
IsVerdictWord comment t = t ≡ codes "comment"

-- The fields of a run hold what was asked for, and the result.
abbrev pub AreFieldsOf : Input → ReviewResult → NewRun → Type 0
AreFieldsOf i r fields =
    (i.source ≡ ok fields.diff)
    × IsKind i.pr_url fields.input_kind
    × (fields.pr_url ≡ i.pr_url)
    × (fields.repo_id ≡ i.repo_id)
    × IsVerdictWord r.verdict fields.verdict
    × (fields.provider ≡ r.provider)
    × (fields.elapsed_ms ≡ r.elapsed_ms)
    × (fields.context_files ≡ r.context_files)
    × (fields.prompt_tokens ≡ r.prompt_tokens)
    × (fields.completion_tokens ≡ r.completion_tokens)
    × (fields.cost_usd ≡ r.cost_usd)

-- The history gets a run of the result with its findings.
abbrev pub HasInserted : Input → History → ReviewResult → History → Type 0
HasInserted i h r h' =
    (fields : NewRun) × AreFieldsOf i r fields × IsInserted h i.now fields r.findings h'

-- With an identifier, which is the new run's, that run was inserted and the history capped; without
-- one, the history is as it was, or the run was inserted and nothing was pruned.
abbrev pub IsSaved : Input → History → ReviewResult → Option ℕ → History → Type 0
IsSaved i h r none h' = (h' ≡ h) ⊎ HasInserted i h r h'
IsSaved i h r (some id) h' =
    (id ≡ h.next_id) × ((after : History) × HasInserted i h r after × IsCapped after h')

-- A run that returns has announced that it saves; one that raises has not, and leaves the history.
abbrev pub IsEnd : Input → History → List Stage → History → Result ReviewResult → Type 0
IsEnd i h stages h' (ok r) = In persisting stages × IsSaved i h r r.run_id h'
IsEnd i h stages h' (raised e) = (h' ≡ h) × All (λ s. rank s < 6) stages
IsEnd i h stages h' raised_other = (h' ≡ h) × All (λ s. rank s < 6) stages

unfoldable pub IsRun : ℕ → Input → History → Run → Type 0
IsRun low i h r =
    All (λ s. low ≤ rank s) r.stages × Pairs Before r.stages × IsEnd i h r.stages r.history r.result

pub IsEnd-stage :
    (i : Input) (h : History) (s : Stage) (stages : List Stage) (h' : History)
    (o : Result ReviewResult)
    → rank s < 6
    → IsEnd i h stages h' o
    → IsEnd i h (s ∷ stages) h' o
IsEnd-stage i h s stages h' (ok r) below (member, saved) = (inr member, saved)
IsEnd-stage i h s stages h' (raised e) below (same, others) = (same, (below, others))
IsEnd-stage i h s stages h' raised_other below (same, others) = (same, (below, others))

pub say-IsRun :
    (low : ℕ) (i : Input) (h : History) (s : Stage) (r : Run)
    → low ≤ rank s
    → rank s < 6
    → IsRun (suc (rank s)) i h r
    → IsRun low i h (say s r)
unfolding IsRun
say-IsRun low i h s r le below (later, order, ended) = (
  (le, All-map r.stages (λ t k. omega (arith, k, le)) later),
  (All-map r.stages (λ t k. omega (arith, k)) later, order),
  IsEnd-stage i h s r.stages r.history r.result below ended,
)

pub step-IsRun {ℓ} :
    {A : Type ℓ} (low : ℕ) (i : Input) (h : History) (o : Result A) (f : A → Run)
    → ((a : A) → IsRun low i h (f a))
    → IsRun low i h (step h o f)
unfolding IsRun
step-IsRun low i h (ok a) f k = k a
step-IsRun low i h (raised e) f k = (tt, tt, (refl, tt))
step-IsRun low i h raised_other f k = (tt, tt, (refl, tt))

pub weaker-IsRun :
    (low low' : ℕ) (i : Input) (h : History) (r : Run)
    → low ≤ low'
    → IsRun low' i h r
    → IsRun low i h r
unfolding IsRun
weaker-IsRun low low' i h r le (later, order, ended) =
    (All-map r.stages (λ t k. omega (arith, k, le)) later, order, ended)

abbrev pub input_of : {V : Type 0} → World V → Text → Option ℕ → Option Text → Input
input_of w diff repo_id pr_url = record {
  now = w.now;
  source = ok diff;
  pr_url = pr_url;
  repo_id = repo_id;
}

pub kind_of-IsKind : (o : Option Text) → IsKind o (kind_of o)
kind_of-IsKind none = refl
kind_of-IsKind (some []) = refl
kind_of-IsKind (some (c ∷ s)) = refl

pub verdict_value-IsVerdictWord : (v : Verdict) → IsVerdictWord v (verdict_value v)
verdict_value-IsVerdictWord approve = refl
verdict_value-IsVerdictWord request_changes = refl
verdict_value-IsVerdictWord comment = refl

pub persist_run-IsSaved :
    (i : Input) (s : Saving) (h : History) (fields : NewRun) (r : ReviewResult)
    → IsHistory h
    → AreFieldsOf i r fields
    → IsSaved i h r
        (persist_run s h i.now fields r.findings).0
        (persist_run s h i.now fields r.findings).1
unfolding persist_run
persist_run-IsSaved i saves h fields r ok_h are = (
  (insert_run-IsRunWith h i.now fields r.findings).0,
  (
    (insert_run h i.now fields r.findings).1,
    (fields, are, insert_run-IsInserted h i.now fields r.findings),
    inserted-IsCapped h i.now fields r.findings ok_h,
  ),
)
persist_run-IsSaved i insert_raises h fields r ok_h are = inl refl
persist_run-IsSaved i prune_raises h fields r ok_h are =
    inr (fields, are, insert_run-IsInserted h i.now fields r.findings)
