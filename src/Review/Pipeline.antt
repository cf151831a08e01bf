-- ===== src/Review/Pipeline.antt =====
-- backend/src/codesensei/review/service.py: a review from the diff to the stored run. What lies
-- outside is a parameter: how the provider's chat ends, the store's connection, the libraries, the
-- clock. A run is the stages that it announced, how it ended, and the history that it leaves.
pub mod Context
pub mod Ends
pub mod Stages
pub mod Tests
use codesensei.Common.{
  ℕ, zero, suc, ◌+◌, Bool, true, false, not, ◌&&◌, Option, none, some, List, [], ◌∷◌, ◌++◌, Text,
  codes, text_eq, ltb, leb, ◌==◌, if◌then◌else◌, is_empty, length, any,
}
use codesensei.Common.Digits.{Unicode}
use codesensei.Review.RunParts.{
  ChatEnd, Usage, Saving, or_raise, char_bytes, utf8_length, size_within, enforce_size, translated,
  after_search, file_step, context_files_from, context_files_of, selected_of, after_chat,
  verdict_value, persist_run, usage_field, routed, kind_of, answers, times_out, chat_raises,
  provider_fails, saves, insert_raises, prune_raises,
}
use codesensei.Review.Errors.{
  ReviewErrorCategory, ReviewError, Result, ok, raised, raised_other, review_error,
  payload_too_large, repo_not_ready, provider_unavailable,
}
use codesensei.Review.Schema.{Finding, Verdict, approve, request_changes, comment}
use codesensei.Review.Windows.{LineWindow, collapse_diff_to_windows}
use codesensei.Review.Temporal.{TaskEnd, Pool, fetch_temporal_pool_for_review}
use codesensei.Review.Attach.{attach_temporal_context}
use codesensei.Review.Hunks.{extract_rhs_hunks}
use codesensei.Review.Parser.{Libraries, parse_review}
use codesensei.Review.Prompt.{render_user_message}
use codesensei.Review.Pricing.{compute_cost_usd}
use codesensei.Indexing.Errors.{
  Exc, Outcome, index_error, provider_error, job_error, redis_error, other, already_indexing,
  not_found, IndexErrorCategory,
}
use codesensei.Indexing.Store.{Repo, Db, fetch_repo}
use codesensei.Indexing.Fill.{Provider}
use codesensei.Indexing.Retrieval.{
  RetrievedChunk, RetrievalResult, Searched, found, review_raised, exc_raised, search,
}
use codesensei.History.{History, NewRun, ReviewRun, insert_run, prune_to_cap}

pub data Stage : Type 0 where
  fetching validating retrieving temporal llm parsing persisting : Stage

pub record World (V : Type 0) : Type 0 where
  pub db : Db V
  pub distance : V → V → Option ℕ
  pub embedding : Outcome (Provider V)
  pub embedding_model : Text
  pub libraries : Libraries
  pub max_diff_bytes : ℕ
  pub pool_clock : ℕ → ℕ
  pub task_ends : Text → LineWindow → TaskEnd
  pub has_llm : Bool
  pub llm_name : Text
  pub chat : Text → ChatEnd
  pub usage : Option Usage
  pub elapsed_ms : ℕ
  pub now : ℕ
  pub saving : Saving

pub record ReviewResult : Type 0 where
  pub verdict : Verdict
  pub findings : List Finding
  pub provider : Text
  pub elapsed_ms : ℕ
  pub context_files : Option (List Text)
  pub prompt_tokens : Option ℕ
  pub completion_tokens : Option ℕ
  pub cost_usd : Option ℕ
  pub run_id : Option ℕ

pub record Run : Type 0 where
  pub stages : List Stage
  pub result : Result ReviewResult
  pub history : History

-- `await notify(…)`, and what follows.
abbrev pub say : Stage → Run → Run
say s r = record r { stages = s ∷ r.stages }

-- A step that raises ends the run.
abbrev pub step {ℓ} : {A : Type ℓ} → History → Result A → (A → Run) → Run
step h (ok a) f = f a
step h (raised e) f = record { stages = []; result = raised e; history = h }
step h raised_other f = record { stages = []; result = raised_other; history = h }

module _ {V : Type 0} (w : World V) where
  abbrev unicode_of : Unicode
  unicode_of = w.libraries.unicode

  -- From the parsed and routed findings on.
  abbrev pub finished :
      History
      → Text
      → Option ℕ
      → Option Text
      → Option RetrievalResult
      → Verdict
      → List Finding
      → Run
  unfolding context_files_of
  finished h diff repo_id pr_url retrieved verdict findings =
      let prompt_tokens = usage_field (λ u. u.prompt_tokens) w.usage in
      let completion_tokens = usage_field (λ u. u.completion_tokens) w.usage in
      let cost_usd =
        compute_cost_usd w.llm_name (usage_field (λ u. u.model) w.usage) prompt_tokens
          completion_tokens in
      let context_files = context_files_of retrieved in
      let (run_id, h') =
        persist_run w.saving h w.now
          (record {
            input_kind = kind_of pr_url;
            pr_url = pr_url;
            repo_id = repo_id;
            diff = diff;
            verdict = verdict_value verdict;
            provider = w.llm_name;
            elapsed_ms = w.elapsed_ms;
            context_files = context_files;
            prompt_tokens = prompt_tokens;
            completion_tokens = completion_tokens;
            cost_usd = cost_usd;
          })
          findings in
      record {
        stages = persisting ∷ [];
        result = ok (record {
          verdict = verdict;
          findings = findings;
          provider = w.llm_name;
          elapsed_ms = w.elapsed_ms;
          context_files = context_files;
          prompt_tokens = prompt_tokens;
          completion_tokens = completion_tokens;
          cost_usd = cost_usd;
          run_id = run_id;
        });
        history = h';
      }

  -- From the chat on.
  abbrev pub asked : History → Text → Option ℕ → Option Text → Option RetrievalResult → Pool → Run
  asked h diff repo_id pr_url retrieved pool = say llm (
      step h (after_chat (w.chat (render_user_message diff (selected_of retrieved) pool))) (λ raw.
        say parsing (
          step h (parse_review w.libraries raw) (λ r.
            step h (routed pool r.1)
              (λ findings. finished h diff repo_id pr_url retrieved r.0 findings)))))

  -- `get_llm_provider()` raises where no provider is configured.
  abbrev pub chatted : History → Text → Option ℕ → Option Text → Option RetrievalResult → Pool → Run
  chatted h diff repo_id pr_url retrieved pool =
      step h (or_raise (if w.has_llm then some (tt {0}) else none))
        (λ _. asked h diff repo_id pr_url retrieved pool)

  -- From the windows of the history on.
  abbrev pub with_windows :
      History
      → Text
      → Option ℕ
      → Option Text
      → Option RetrievalResult
      → List (Text × List LineWindow)
      → Run
  with_windows h diff repo_id pr_url retrieved [] = chatted h diff repo_id pr_url retrieved []
  with_windows h diff repo_id pr_url retrieved (f ∷ files) = say temporal (
      chatted h diff repo_id pr_url retrieved
        (fetch_temporal_pool_for_review w.pool_clock w.task_ends (f ∷ files)).0)

  -- `repo_source`: the source of the repository, where it is there and not empty.
  abbrev pub with_source :
      History → Text → Option ℕ → Option Text → Option RetrievalResult → Option Repo → Run
  with_source h diff repo_id pr_url retrieved none = chatted h diff repo_id pr_url retrieved []
  with_source h diff repo_id pr_url retrieved (some row) =
      if is_empty row.source
      then chatted h diff repo_id pr_url retrieved []
      else step h (or_raise (extract_rhs_hunks unicode_of diff))
          (λ hunks. with_windows h diff repo_id pr_url retrieved (collapse_diff_to_windows hunks))

  abbrev pub retrieve_context : ℕ → Text → Result RetrievalResult
  retrieve_context id diff =
      after_search (search unicode_of w.distance w.db id 5 3000 w.embedding_model diff w.embedding)

  abbrev pub with_repo : History → Text → Option ℕ → Option Text → Run
  with_repo h diff none pr_url = chatted h diff none pr_url none []
  with_repo h diff (some id) pr_url = say retrieving (
      step h (retrieve_context id diff)
        (λ r. with_source h diff (some id) pr_url (some r) (fetch_repo w.db id)))

  -- `_run_chat`.
  unfoldable pub run_chat : History → Text → Option ℕ → Option Text → Run
  unfolding enforce_size
  run_chat h diff repo_id pr_url =
      say validating
        (step h (enforce_size w.max_diff_bytes diff) (λ _. with_repo h diff repo_id pr_url))

  -- The two calls of `ReviewService`; the diff of a pull request is what `fetch_pr_diff` ends with.
  abbrev pub run_for_diff : History → Text → Option ℕ → Run
  run_for_diff h diff repo_id = run_chat h diff repo_id none

  abbrev pub run_for_url : History → Text → Result Text → Option ℕ → Run
  run_for_url h pr_url fetched repo_id =
      say fetching (step h fetched (λ diff. run_chat h diff repo_id (some pr_url)))
