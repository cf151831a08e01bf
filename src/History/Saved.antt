-- ===== src/History/Saved.antt =====
-- What a run that was inserted, and the prune after it, leave.
use codesensei.Common.{
  ℕ, ◌-◌, ◌≤◌, ◌≡◌, refl, ap, ◌∙◌, inl, inr, not, List, [], ◌∷◌, ◌++◌, ◌==◌, length, drop, All,
  All-map, All-In, All-keep_with, keep-keep, Bool-cases, ==_iff,
}
use codesensei.Review.Schema.{Finding}
use codesensei.History.{
  NewRun, ReviewRun, ReviewFinding, History, has_id, delete_ids, finding_rows, insert_run,
  prune_to_cap, history_max_rows,
}
use codesensei.History.Prune.{by_age, prune_to_cap-IsPruned}
use codesensei.History.Rows.{findings_of, IsHistory, insert_run-IsHistory}
use codesensei.History.RoundTrip.{
  IsRunWith, AreRowsOf, insert_run-IsRunWith, finding_rows-AreRowsOf,
}

-- The history with one more run, that holds these fields and findings.
abbrev pub IsInserted : History → ℕ → NewRun → List Finding → History → Type 0
IsInserted h now fields findings h' =
    (run : ReviewRun) × (rows : List ReviewFinding) × (h'.runs ≡ h.runs ++ (run ∷ []))
    × (h'.findings ≡ h.findings ++ rows)
    × IsRunWith h.next_id now fields findings run
    × AreRowsOf h.next_id 0 findings rows

-- What is left are the newest runs, at most 1000 of them, each with all its findings.
abbrev pub IsCapped : History → History → Type 0
IsCapped h h' =
    (length h'.runs ≤ 1000)
    × (by_age h'.runs ≡ drop (length h.runs - 1000) (by_age h.runs))
    × All (λ r. findings_of r.run_id h'.findings ≡ findings_of r.run_id h.findings) h'.runs

pub insert_run-IsInserted :
    (h : History) (now : ℕ) (fields : NewRun) (findings : List Finding)
    → IsInserted h now fields findings (insert_run h now fields findings).1
unfolding insert_run
insert_run-IsInserted h now fields findings = (
  (insert_run h now fields findings).0,
  finding_rows h.next_id 0 findings,
  refl,
  refl,
  insert_run-IsRunWith h now fields findings,
  finding_rows-AreRowsOf h.next_id 0 findings,
)

delete_ids-findings :
    (ids : List ℕ) (h : History)
    → All
        (λ r. findings_of r.run_id (delete_ids ids h).findings ≡ findings_of r.run_id h.findings)
        (delete_ids ids h).runs
delete_ids-findings ids h =
    All-keep_with (λ r. not (has_id ids r.run_id)) h.runs
      (λ r kept _.
        keep-keep (λ f. not (has_id ids f.owner)) (λ f. f.owner == r.run_id) h.findings
          (λ f e. ap (λ i. not (has_id ids i)) ((==_iff f.owner r.run_id).0 e) ∙ kept))
      (All-In h.runs)

prune_to_cap-findings :
    (h : History)
    → All
        (λ r. findings_of r.run_id (prune_to_cap h).1.findings ≡ findings_of r.run_id h.findings)
        (prune_to_cap h).1.runs
unfolding prune_to_cap
prune_to_cap-findings h = elim (Bool-cases ((length h.runs - history_max_rows) == 0)) [
  | inl none_over ↦ rw none_over (All-map h.runs (λ r _. refl) (All-In h.runs))
  | inr some_over ↦ rw some_over (delete_ids-findings _ h)
]

pub inserted-IsCapped :
    (h : History) (now : ℕ) (fields : NewRun) (findings : List Finding)
    → IsHistory h
    → IsCapped
        (insert_run h now fields findings).1
        (prune_to_cap (insert_run h now fields findings).1).1
inserted-IsCapped h now fields findings ok =
    let h' : History = (insert_run h now fields findings).1 in
    let pruned = prune_to_cap-IsPruned h' (insert_run-IsHistory h now fields findings ok).0 in
    (pruned.0, pruned.2, prune_to_cap-findings h')
