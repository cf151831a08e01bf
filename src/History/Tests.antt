-- ===== src/History/Tests.antt =====
-- Runs of backend/src/codesensei/reviews_history/store.py on small inputs, and a history over the
-- cap.
use codesensei.Common.{
  comes_first, ℕ, zero, suc, ◌≡◌, refl, true, false, none, some, [], ◌∷◌, codes, map, pos,
}
use codesensei.Common.Options.{HasValue}
use codesensei.Review.Schema.{Finding, blocker}
use codesensei.History.{NewRun, History, insert_run, delete_run, prune_to_cap, list_runs, fetch_run}
use codesensei.History.Prune.{AreDistinct, IsPruned, prune_to_cap-IsPruned}
use codesensei.History.Listing.{IsListing, list_runs-IsListing}
use codesensei.History.RoundTrip.{IsStored, fetch_run-insert_run}
use codesensei.History.Rows.{
  IsHistory, Reachable, start, then_step, inserts, deletes, empty, Reachable-IsHistory,
}

abbrev pasted : NewRun
pasted = record {
  input_kind = codes "diff";
  pr_url = none;
  repo_id = none;
  diff = codes "+x";
  verdict = codes "comment";
  provider = codes "openai";
  elapsed_ms = 7;
  context_files = none;
  prompt_tokens = none;
  completion_tokens = none;
  cost_usd = none;
}

abbrev remark : Finding
remark = record {
  file = codes "a.py";
  line = some (pos 1);
  severity = blocker;
  message = codes "m";
  suggestion = none;
  temporal_context = some [];
}

-- That many runs, of one finding each.
abbrev made : ℕ → History
made zero = empty
made (suc n) = (insert_run (made n) n pasted (remark ∷ [])).1

made-Reachable : (n : ℕ) → Reachable (made n)
made-Reachable zero = start
made-Reachable (suc n) =
    then_step (made n) (made (suc n)) (made-Reachable n) (inserts (made n) n pasted (remark ∷ []))

deletes_one : (delete_run 1 (made 3)).0 ≡ true
unfolding delete_run insert_run
deletes_one = refl

keeps_two : map (λ r. r.run_id) (delete_run 1 (made 3)).1.runs ≡ 0 ∷ 2 ∷ []
unfolding delete_run insert_run
keeps_two = refl

keeps_two_findings : map (λ f. f.owner) (delete_run 1 (made 3)).1.findings ≡ 0 ∷ 2 ∷ []
unfolding delete_run insert_run
keeps_two_findings = refl

deletes_none : (delete_run 9 (made 3)).0 ≡ false
unfolding delete_run insert_run
deletes_none = refl

prunes_none : prune_to_cap (made 3) ≡ (0, made 3)
unfolding prune_to_cap insert_run
prunes_none = refl

Reachable-IsHistory_example : IsHistory (delete_run 1 (made 3)).1
Reachable-IsHistory_example =
    Reachable-IsHistory (delete_run 1 (made 3)).1
      (then_step (made 3) (delete_run 1 (made 3)).1 (made-Reachable 3) (deletes (made 3) 1))

made-AreDistinct : AreDistinct (made 1002).runs
made-AreDistinct = (Reachable-IsHistory (made 1002) (made-Reachable 1002)).0

prune_to_cap-IsPruned_example : IsPruned (made 1002) (prune_to_cap (made 1002))
prune_to_cap-IsPruned_example = prune_to_cap-IsPruned (made 1002) made-AreDistinct

lists_two : map (λ r. r.run_id) (list_runs (made 3) (pos 2)) ≡ 2 ∷ 1 ∷ []
unfolding list_runs insert_run comes_first
lists_two = refl

list_runs-IsListing_example : IsListing (made 3) (pos 2) (list_runs (made 3) (pos 2))
list_runs-IsListing_example = list_runs-IsListing (made 3) (pos 2)

fetch_run-insert_run_example : HasValue (IsStored 3 5 pasted (remark ∷ remark ∷ [])) (
    fetch_run
      (insert_run (made 3) 5 pasted (remark ∷ remark ∷ [])).1
      (insert_run (made 3) 5 pasted (remark ∷ remark ∷ [])).0.run_id)
unfolding insert_run
fetch_run-insert_run_example =
    fetch_run-insert_run (made 3) 5 pasted (remark ∷ remark ∷ [])
      (Reachable-IsHistory (made 3) (made-Reachable 3))
