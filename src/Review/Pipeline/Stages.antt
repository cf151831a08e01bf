-- ===== src/Review/Pipeline/Stages.antt =====
-- The stages of a run, and what it leaves.
use codesensei.Common.{
  ℕ, refl, inl, inr, Option, none, some, List, [], ◌∷◌, Text, Bool-cases, is_empty, arith,
}
use codesensei.Review.Errors.{Result, ok, raised, raised_other}
use codesensei.Review.Schema.{Finding, Verdict}
use codesensei.Review.Windows.{LineWindow, collapse_diff_to_windows}
use codesensei.Review.Temporal.{Pool}
use codesensei.Review.Parser.{parse_review}
use codesensei.Indexing.Store.{Repo, fetch_repo}
use codesensei.Indexing.Retrieval.{RetrievalResult}
use codesensei.History.{History}
use codesensei.History.Rows.{IsHistory}
use codesensei.Review.Pipeline.{
  fetching, validating, retrieving, temporal, llm, parsing, World, ReviewResult, finished, chatted,
  asked, with_windows, with_source, retrieve_context, with_repo, run_chat, run_for_diff,
  run_for_url,
}
use codesensei.Review.RunParts.{routed, context_files_of, usage_field}
use codesensei.Review.Pricing.{compute_cost_usd}
use codesensei.Review.Pipeline.Ends.{
  Input, IsRun, say-IsRun, step-IsRun, weaker-IsRun, input_of, kind_of-IsKind,
  verdict_value-IsVerdictWord, persist_run-IsSaved,
}

module _ {V : Type 0} (w : World V) (h : History) (ok_h : IsHistory h) (diff : Text)
    (repo_id : Option ℕ) (pr_url : Option Text) where
  -- The result before it is saved.
  abbrev unsaved : Option RetrievalResult → Verdict → List Finding → ReviewResult
  unfolding context_files_of
  unsaved retrieved verdict findings =
      let prompt_tokens = usage_field (λ u. u.prompt_tokens) w.usage in
      let completion_tokens = usage_field (λ u. u.completion_tokens) w.usage in
      record {
        verdict = verdict;
        findings = findings;
        provider = w.llm_name;
        elapsed_ms = w.elapsed_ms;
        context_files = context_files_of retrieved;
        prompt_tokens = prompt_tokens;
        completion_tokens = completion_tokens;
        cost_usd =
            compute_cost_usd w.llm_name (usage_field (λ u. u.model) w.usage) prompt_tokens
              completion_tokens;
        run_id = none;
      }

  finished-IsRun :
      (retrieved : Option RetrievalResult) (verdict : Verdict) (findings : List Finding)
      → IsRun 6
          (input_of w diff repo_id pr_url)
          h
          (finished w h diff repo_id pr_url retrieved verdict findings)
  unfolding IsRun finished unsaved
  finished-IsRun retrieved verdict findings = (
    (omega arith, tt),
    (tt, tt),
    (
      inl refl,
      persist_run-IsSaved (input_of w diff repo_id pr_url) w.saving h _
          (unsaved retrieved verdict findings) ok_h
          (
            refl,
            kind_of-IsKind pr_url,
            refl,
            refl,
            verdict_value-IsVerdictWord verdict,
            refl,
            refl,
            refl,
            refl,
            refl,
            refl,
          ),
    ),
  )

  asked-IsRun :
      (retrieved : Option RetrievalResult) (pool : Pool)
      → IsRun 4 (input_of w diff repo_id pr_url) h (asked w h diff repo_id pr_url retrieved pool)
  asked-IsRun retrieved pool =
      say-IsRun 4 (input_of w diff repo_id pr_url) h llm _ (omega arith) (omega arith) (
        step-IsRun 5 (input_of w diff repo_id pr_url) h _ _ (λ raw.
          say-IsRun 5 (input_of w diff repo_id pr_url) h parsing _ (omega arith) (omega arith) (
            step-IsRun 6 (input_of w diff repo_id pr_url) h (parse_review w.libraries raw) _ (λ r.
              step-IsRun 6 (input_of w diff repo_id pr_url) h (routed pool r.1) _
                (λ findings. finished-IsRun retrieved r.0 findings)))))

  chatted-IsRun :
      (retrieved : Option RetrievalResult) (pool : Pool)
      → IsRun 4 (input_of w diff repo_id pr_url) h (chatted w h diff repo_id pr_url retrieved pool)
  chatted-IsRun retrieved pool =
      step-IsRun 4 (input_of w diff repo_id pr_url) h _ _ (λ _. asked-IsRun retrieved pool)

  with_windows-IsRun :
      (retrieved : Option RetrievalResult) (windows : List (Text × List LineWindow))
      → IsRun 3
          (input_of w diff repo_id pr_url)
          h
          (with_windows w h diff repo_id pr_url retrieved windows)
  with_windows-IsRun retrieved [] =
      weaker-IsRun 3 4 (input_of w diff repo_id pr_url) h _ (omega arith)
        (chatted-IsRun retrieved [])
  with_windows-IsRun retrieved (f ∷ files) =
      say-IsRun 3 (input_of w diff repo_id pr_url) h temporal _ (omega arith) (omega arith)
        (chatted-IsRun retrieved _)

  with_source-IsRun :
      (retrieved : Option RetrievalResult) (row : Option Repo)
      → IsRun 3
          (input_of w diff repo_id pr_url)
          h
          (with_source w h diff repo_id pr_url retrieved row)
  with_source-IsRun retrieved none =
      weaker-IsRun 3 4 (input_of w diff repo_id pr_url) h _ (omega arith)
        (chatted-IsRun retrieved [])
  with_source-IsRun retrieved (some row) = elim (Bool-cases (is_empty row.source)) [
    | inl no_source ↦ rw no_source (
        weaker-IsRun 3 4 (input_of w diff repo_id pr_url) h _ (omega arith)
          (chatted-IsRun retrieved []))
    | inr source ↦ rw source (
        step-IsRun 3 (input_of w diff repo_id pr_url) h _ _
          (λ hunks. with_windows-IsRun retrieved (collapse_diff_to_windows hunks)))
  ]

with_repo-IsRun :
    {V : Type 0} (w : World V) (h : History) (ok_h : IsHistory h) (diff : Text) (repo_id : Option ℕ)
    (pr_url : Option Text)
    → IsRun 2 (input_of w diff repo_id pr_url) h (with_repo w h diff repo_id pr_url)
with_repo-IsRun w h ok_h diff none pr_url =
    weaker-IsRun 2 4 _ h _ (omega arith) (chatted-IsRun w h ok_h diff none pr_url none [])
with_repo-IsRun w h ok_h diff (some id) pr_url =
    let i : Input = input_of w diff (some id) pr_url in
    say-IsRun 2 i h retrieving _ (omega arith) (omega arith) (
      step-IsRun 3 i h (retrieve_context w id diff) _
        (λ r. with_source-IsRun w h ok_h diff (some id) pr_url (some r) (fetch_repo w.db id)))

run_chat-IsRun :
    {V : Type 0} (w : World V) (h : History) (ok_h : IsHistory h) (diff : Text) (repo_id : Option ℕ)
    (pr_url : Option Text)
    → IsRun 1 (input_of w diff repo_id pr_url) h (run_chat w h diff repo_id pr_url)
unfolding run_chat
run_chat-IsRun w h ok_h diff repo_id pr_url =
    let i : Input = input_of w diff repo_id pr_url in
    say-IsRun 1 i h validating _ (omega arith) (omega arith)
      (step-IsRun 2 i h _ _ (λ _. with_repo-IsRun w h ok_h diff repo_id pr_url))

-- Of a sound history, a review announces its stages in their order and none twice. One that returns has
-- announced that it saves. If it has an identifier, that is the new run's, which was inserted with
-- what was asked for, the result's fields and its findings, and the history then holds the newest
-- 1000 runs with their findings; if it has none, the history is as it was, or that run was inserted
-- and nothing was pruned. One that raises has not announced it, and leaves the history as it was.
pub run_for_url-IsRun :
    {V : Type 0} (w : World V) (h : History) (pr_url : Text) (fetched : Result Text)
    (repo_id : Option ℕ)
    → IsHistory h
    → IsRun 0
        (record { now = w.now; source = fetched; pr_url = some pr_url; repo_id = repo_id })
        h
        (run_for_url w h pr_url fetched repo_id)
unfolding IsRun
run_for_url-IsRun w h pr_url (ok diff) repo_id ok_h =
    say-IsRun 0 (input_of w diff repo_id (some pr_url)) h fetching _ (omega arith) (omega arith)
      (run_chat-IsRun w h ok_h diff repo_id (some pr_url))
run_for_url-IsRun w h pr_url (raised e) repo_id ok_h =
    (((omega arith), tt), (tt, tt), (refl, (omega arith, tt)))
run_for_url-IsRun w h pr_url raised_other repo_id ok_h =
    (((omega arith), tt), (tt, tt), (refl, (omega arith, tt)))

pub run_for_diff-IsRun :
    {V : Type 0} (w : World V) (h : History) (diff : Text) (repo_id : Option ℕ)
    → IsHistory h
    → IsRun 0
        (record { now = w.now; source = ok diff; pr_url = none; repo_id = repo_id })
        h
        (run_for_diff w h diff repo_id)
run_for_diff-IsRun w h diff repo_id ok_h =
    weaker-IsRun 0 1 _ h _ (omega arith) (run_chat-IsRun w h ok_h diff repo_id none)
