-- ===== src/History.antt =====
-- backend/src/codesensei/reviews_history: models.py and store.py, the rows of `review_runs` and
-- `review_findings`. Identifiers, which the database generates, are drawn from a counter, and the
-- time of a row is the caller's. Rows of one instant, which a query may return in any order, come
-- in the order of insertion. Costs are whole millionths of a dollar.
pub mod Prune
pub mod Rows
pub mod Listing
pub mod RoundTrip
pub mod Saved
pub mod Tests
use codesensei.Common.{
  ℕ, suc, ◌+◌, ◌-◌, ℤ, pos, negsuc, Bool, true, false, not, Option, none, some, List, [], ◌∷◌, ◌++◌,
  Text, ◌==◌, leb, ltb, if◌then◌else◌, is_empty, length, take, any, keep, map, sort,
}
use codesensei.Review.Schema.{Severity, severity_value, TemporalEntry, Finding}

abbrev pub history_max_rows : ℕ
history_max_rows = 1000

abbrev pub default_list_limit : ℕ
default_list_limit = 50

abbrev pub max_list_limit : ℕ
max_list_limit = 200

-- What `insert_run` is called with.
pub record NewRun : Type 0 where
  pub input_kind : Text
  pub pr_url : Option Text
  pub repo_id : Option ℕ
  pub diff : Text
  pub verdict : Text
  pub provider : Text
  pub elapsed_ms : ℕ
  pub context_files : Option (List Text)
  pub prompt_tokens : Option ℕ
  pub completion_tokens : Option ℕ
  pub cost_usd : Option ℕ

pub record ReviewRun : Type 0 where
  pub run_id : ℕ
  pub created_at : ℕ
  pub fields : NewRun
  pub finding_count : ℕ
  pub has_temporal : Bool

pub record ReviewFinding : Type 0 where
  pub owner : ℕ
  pub position : ℕ
  pub file : Text
  pub line : Option ℤ
  pub severity : Text
  pub message : Text
  pub suggestion : Option Text
  pub temporal_context : Option (List TemporalEntry)

pub record History : Type 0 where
  pub runs : List ReviewRun
  pub findings : List ReviewFinding
  pub next_id : ℕ

abbrev pub temporal_to_jsonb : Option (List TemporalEntry) → Option (List TemporalEntry)
temporal_to_jsonb none = none
temporal_to_jsonb (some []) = none
temporal_to_jsonb (some (e ∷ es)) = some (e ∷ es)

abbrev pub is_temporal : Option (List TemporalEntry) → Bool
is_temporal none = false
is_temporal (some es) = not (is_empty es)

-- `enumerate(findings)`, from a position.
abbrev pub finding_rows : ℕ → ℕ → List Finding → List ReviewFinding
finding_rows owner position [] = []
finding_rows owner position (f ∷ fs) =
    record {
      owner = owner;
      position = position;
      file = f.file;
      line = f.line;
      severity = severity_value f.severity;
      message = f.message;
      suggestion = f.suggestion;
      temporal_context = temporal_to_jsonb f.temporal_context;
    }
    ∷ finding_rows owner (suc position) fs

-- The run as it is inserted, and the history after it, where the statements succeed. Where one fails,
-- the repository of the run being gone or unknown to the ORM, nothing is inserted, and the exception
-- is the caller's (`insert_raises` of Review/RunParts).
unfoldable pub insert_run : History → ℕ → NewRun → List Finding → ReviewRun × History
insert_run h now fields findings =
    let run : ReviewRun = record {
      run_id = h.next_id;
      created_at = now;
      fields = fields;
      finding_count = length findings;
      has_temporal = any (λ f. is_temporal f.temporal_context) findings;
    } in
    (
      run,
      record {
        runs = h.runs ++ (run ∷ []);
        findings = h.findings ++ finding_rows h.next_id 0 findings;
        next_id = suc h.next_id;
      },
    )

abbrev pub has_id : List ℕ → ℕ → Bool
has_id ids id = any (λ i. id == i) ids

-- `DELETE FROM review_runs WHERE id IN …`, which takes the runs' findings with them.
abbrev pub delete_ids : List ℕ → History → History
delete_ids ids h = record h {
  runs = keep (λ r. not (has_id ids r.run_id)) h.runs;
  findings = keep (λ f. not (has_id ids f.owner)) h.findings;
}

-- The number of rows deleted, and the history after.
abbrev deleted_count : History → History → ℕ
deleted_count before after = length before.runs - length after.runs

unfoldable pub delete_run : ℕ → History → Bool × History
delete_run id h = let h' = delete_ids (id ∷ []) h in (ltb 0 (deleted_count h h'), h')

-- `SELECT id … ORDER BY created_at ASC LIMIT n`.
abbrev pub oldest : ℕ → List ReviewRun → List ReviewRun
oldest n runs = take n (sort (λ r. r.created_at) runs)

unfoldable pub prune_to_cap : History → ℕ × History
prune_to_cap h =
    let overflow = length h.runs - history_max_rows in
    let h' = delete_ids (map (λ r. r.run_id) (oldest overflow h.runs)) h in
    if overflow == 0 then (0, h) else (deleted_count h h', h')

-- `n` of `list_runs`, of a limit.
abbrev pub list_limit : ℤ → ℕ
list_limit (negsuc n) = default_list_limit
list_limit (pos n) =
    if ltb n 1 then default_list_limit else if ltb max_list_limit n then max_list_limit else n

abbrev pub backwards {ℓ} : {A : Type ℓ} → List A → List A
backwards [] = []
backwards (x ∷ xs) = backwards xs ++ (x ∷ [])

-- `ORDER BY created_at DESC, id DESC`.
abbrev pub newest_first : List ReviewRun → List ReviewRun
newest_first runs = backwards (sort (λ r. r.created_at) (sort (λ r. r.run_id) runs))

unfoldable pub list_runs : History → ℤ → List ReviewRun
list_runs h limit = take (list_limit limit) (newest_first h.runs)

-- `scalar_one_or_none`, with the findings of the run.
abbrev pub scalar_one :
    List ReviewRun → List ReviewFinding → Option (ReviewRun × List ReviewFinding)
scalar_one [] findings = none
scalar_one (r ∷ rs) findings = some (r, findings)

-- The run of an identifier, with its findings in the order of their positions.
unfoldable pub fetch_run : History → ℕ → Option (ReviewRun × List ReviewFinding)
fetch_run h id =
    scalar_one (keep (λ r. r.run_id == id) h.runs)
      (sort (λ f. f.position) (keep (λ f. f.owner == id) h.findings))
