-- ===== src/Review/Pipeline/Tests.antt =====
-- Runs of a review.
use codesensei.Common.{
  true, ℕ, ◌≡◌, refl, false, none, some, List, [], ◌∷◌, Text, codes, text_eq, is_space, strip,
  rstrip, lstrip,
}
use codesensei.Review.Errors.{ok, raised, review_error, payload_too_large}
use codesensei.Review.Temporal.{returns}
use codesensei.Review.Parser.{strip_fences, parse_review}
use codesensei.Review.Parser.Tests.{libraries}
use codesensei.Review.Prompt.{render_user_message}
use codesensei.Review.Pricing.{pricing_per_1m, rates, compute_cost_usd}
use codesensei.Indexing.Retrieval.Tests.{db, distance, provider}
use codesensei.Indexing.Retrieval.{RetrievedChunk}
use codesensei.Indexing.Errors.{Outcome}
use codesensei.History.{History}
use codesensei.History.Rows.{IsHistory}
use codesensei.Review.Pipeline.{
  finished, World, validating, llm, parsing, persisting, run_chat, run_for_url,
}
use codesensei.Review.RunParts.{answers, saves, enforce_size, utf8_length, context_files_from}
use codesensei.Review.Pipeline.Ends.{IsRun}
use codesensei.Review.Pipeline.Stages.{run_for_url-IsRun}
use codesensei.Review.Pipeline.Context.{AreContext, paths_of, context_files_from-AreContext}

abbrev pub world : World ℕ
world = record {
  db = db;
  distance = distance;
  embedding = Outcome.ok provider;
  embedding_model = codes "m";
  libraries = libraries;
  max_diff_bytes = 10;
  pool_clock = λ k. 0;
  task_ends = λ path window. returns [];
  has_llm = true;
  llm_name = codes "openai";
  chat = λ message. answers (codes "{}");
  usage = some (record {
    model = some (codes "gpt-4o");
    prompt_tokens = some 1000;
    completion_tokens = some 10;
  });
  elapsed_ms = 7;
  now = 3;
  saving = saves;
}

abbrev pub no_history : History
no_history = record { runs = []; findings = []; next_id = 4 }

-- A review without a repository, and one of a diff that is too large.
four_stages :
    (run_chat world no_history (codes "-a\n+b") none none).stages
    ≡ validating ∷ llm ∷ parsing ∷ persisting ∷ []
unfolding finished run_chat enforce_size utf8_length render_user_message parse_review strip_fences
    is_space rstrip lstrip strip text_eq
four_stages = refl

too_large :
    (run_chat world no_history (codes "-a\n+b and more") none none).result
    ≡ raised (review_error payload_too_large false)
unfolding run_chat enforce_size utf8_length
too_large = refl

one_cost :
    compute_cost_usd (codes "openai") (some (codes "gpt-4o")) (some 1000) (some 10) ≡ some 2600
unfolding compute_cost_usd rates text_eq
one_cost = refl

pub no_history-IsHistory : IsHistory no_history
no_history-IsHistory = (tt, tt, tt, tt)

run_for_url-IsRun_example :
    IsRun 0
      (record {
        now = 3;
        source = ok (codes "+a");
        pr_url = some (codes "https://github.com/o/r/pull/1");
        repo_id = none;
      })
      no_history
      (run_for_url world no_history (codes "https://github.com/o/r/pull/1") (ok (codes "+a")) none)
run_for_url-IsRun_example =
    run_for_url-IsRun world no_history (codes "https://github.com/o/r/pull/1") (ok (codes "+a"))
      none no_history-IsHistory

abbrev of_file : Text → RetrievedChunk
of_file path = record {
  chunk_id = 1;
  repo_id = 0;
  file_path = path;
  language = codes "python";
  start_line = 1;
  end_line = 2;
  content = codes "x";
  token_count = 3;
  score = 5;
}

abbrev two_files : List RetrievedChunk
two_files = of_file (codes "a.py") ∷ of_file (codes "b.py") ∷ of_file (codes "a.py") ∷ []

context_files_from-AreContext_example :
    AreContext (paths_of two_files) (context_files_from [] two_files)
context_files_from-AreContext_example = context_files_from-AreContext two_files

priced : rates (codes "openai") (codes "gpt-4o") pricing_per_1m ≡ some (250, 1000)
unfolding rates text_eq
priced = refl
