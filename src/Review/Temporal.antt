-- ===== src/Review/Temporal.antt =====
-- backend/src/codesensei/review/git_temporal.py: the history of one window, and the pool of a
-- review's windows. How git and the tasks end are arguments; the clock counts microseconds from the
-- start of the collection.
pub mod Asks
pub mod Started
pub mod Pooled
pub mod Tests
use codesensei.Common.{
  ℕ, zero, suc, ◌+◌, ◌-◌, ◌/◌, Bool, true, false, not, ◌&&◌, ◌||◌, Option, none, some, List, [],
  ◌∷◌, ◌++◌, Text, text_le, leb, ltb, if◌then◌else◌, length, map, is_empty,
}
use codesensei.Common.Dict.{get, update, or_value}
use codesensei.Review.Schema.{TemporalEntry}
use codesensei.Review.Windows.{LineWindow, max_line_range}
use codesensei.Review.GitLog.{parse_log_records, count_hunk_lines}

-- One run of `git log -L start,end:path`, for the commits or for their patches.
pub record Query : Type 0 where
  pub cache_dir : Text
  pub start_line : ℕ
  pub end_line : ℕ
  pub path : Text
  pub max_commits : ℕ
  pub patch : Bool

-- How `_run_git` ends; `raises` is an exception that the callers do not catch.
pub data GitEnd : Type 0 where
  prints : Text → GitEnd
  times_out exits_nonzero os_error bad_unicode raises : GitEnd

-- How `_clone_or_reuse` ends.
pub data Clone : Type 0 where
  usable : Text → Clone
  unsupported clone_raises : Clone

-- The queries that were made, and the entries; none where an exception leaves the function.
pub record Fetch : Type 0 where
  pub queries : List Query
  pub entries : Option (List TemporalEntry)

abbrev fetched : List Query → List TemporalEntry → Fetch
fetched queries entries = record { queries = queries; entries = some entries }

abbrev pub with_count : List (Text × ℕ) → TemporalEntry → TemporalEntry
with_count counts e = record e { hunk_lines_changed = or_value 0 (get e.commit_sha counts) }

-- From the second query on.
abbrev pub after_patch : List Query → List TemporalEntry → GitEnd → Fetch
after_patch asked entries (prints out) =
    fetched asked (map (with_count (count_hunk_lines out)) entries)
after_patch asked entries raises = record { queries = asked; entries = none }
after_patch asked entries times_out = fetched asked entries
after_patch asked entries exits_nonzero = fetched asked entries
after_patch asked entries os_error = fetched asked entries
after_patch asked entries bad_unicode = fetched asked entries

abbrev pub after_records : (Query → GitEnd) → Query → List TemporalEntry → Fetch
after_records git q [] = fetched (q ∷ []) []
after_records git q (e ∷ es) =
    let p : Query = record q { max_commits = 8; patch = true } in
    after_patch (q ∷ p ∷ []) (e ∷ es) (git p)

-- From the first query on.
abbrev pub after_log : (Query → GitEnd) → Query → GitEnd → Fetch
after_log git q (prints out) = after_records git q (parse_log_records out)
after_log git q raises = record { queries = q ∷ []; entries = none }
after_log git q times_out = fetched (q ∷ []) []
after_log git q exits_nonzero = fetched (q ∷ []) []
after_log git q os_error = fetched (q ∷ []) []
after_log git q bad_unicode = fetched (q ∷ []) []

abbrev pub after_clone : (Query → GitEnd) → Text → ℕ → ℕ → ℕ → Clone → Fetch
after_clone git path start end max_commits unsupported = fetched [] []
after_clone git path start end max_commits clone_raises = fetched [] []
after_clone git path start end max_commits (usable cache) =
    let q : Query = record {
      cache_dir = cache;
      start_line = start;
      end_line = end;
      path = path;
      max_commits = max_commits;
      patch = false;
    } in
    after_log git q (git q)

abbrev pub clamp_end : LineWindow → ℕ
clamp_end w =
    if ltb max_line_range (w.end_line - w.start_line + 1)
    then w.start_line + max_line_range - 1
    else w.end_line

unfoldable pub fetch_temporal_context : (Query → GitEnd) → Clone → Text → LineWindow → ℕ → Fetch
fetch_temporal_context git clone path w max_commits =
    if ltb w.start_line 1 || ltb (clamp_end w) w.start_line
    then fetched [] []
    else after_clone git path w.start_line (clamp_end w) max_commits clone

-- How a task of the group ends.
pub data TaskEnd : Type 0 where
  returns : List TemporalEntry → TaskEnd
  task_raises cancelled : TaskEnd

abbrev pub Found : Type 0
Found = LineWindow × List TemporalEntry

abbrev pub Pool : Type 0
Pool = List (Text × List Found)

pub record Summary : Type 0 where
  pub files_count : ℕ
  pub entries_total : ℕ
  pub elapsed_ms : ℕ
  pub budget_exceeded : Bool
  pub files : List Text

abbrev pub total_budget : ℕ
total_budget = 2000000

-- The windows of all files, in the order of the two loops.
abbrev pub requests : List (Text × List LineWindow) → List (Text × LineWindow)
requests [] = []
requests ((path, ws) ∷ files) = map (λ w. (path, w)) ws ++ requests files

-- The tasks that are started, from the clock's kth reading on, how often it was read, and whether
-- the budget ran out.
pub start_tasks : (ℕ → ℕ) → ℕ → List (Text × LineWindow) → List (Text × LineWindow) × ℕ × Bool
start_tasks clock k [] = ([], k, false)
start_tasks clock k (r ∷ rs) =
    let (started, k', exceeded) = start_tasks clock (suc k) rs in
    if ltb total_budget (clock k) then ([], suc k, true) else (r ∷ started, k', exceeded)

abbrev pub append_found : Found → Option (List Found) → List Found
append_found e o = or_value [] o ++ (e ∷ [])

abbrev pub add_result : Text → LineWindow → TaskEnd → Pool → Pool
add_result path w (returns []) pool = pool
add_result path w (returns (e ∷ es)) pool = update path (append_found (w, e ∷ es)) pool
add_result path w task_raises pool = pool
add_result path w cancelled pool = pool

-- The loop over the finished tasks.
pub collect : (Text → LineWindow → TaskEnd) → Pool → List (Text × LineWindow) → Pool
collect ends pool [] = pool
collect ends pool ((path, w) ∷ rs) = collect ends (add_result path w (ends path w) pool) rs

abbrev pub end_size : TaskEnd → ℕ
end_size (returns es) = length es
end_size task_raises = 0
end_size cancelled = 0

abbrev pub total_of : (Text → LineWindow → TaskEnd) → List (Text × LineWindow) → ℕ
total_of ends [] = 0
total_of ends ((path, w) ∷ rs) = end_size (ends path w) + total_of ends rs

-- `sorted` of texts.
abbrev pub insert_text : Text → List Text → List Text
insert_text s [] = s ∷ []
insert_text s (t ∷ ts) = let rest = insert_text s ts in if text_le s t then s ∷ t ∷ ts else t ∷ rest

abbrev pub sort_texts : List Text → List Text
sort_texts [] = []
sort_texts (t ∷ ts) = insert_text t (sort_texts ts)

abbrev pub pool_run :
    (ℕ → ℕ) → (Text → LineWindow → TaskEnd) → List (Text × LineWindow) → ℕ → Bool → Pool × Summary
pool_run clock ends started k exceeded =
    let pool = collect ends [] started in
    (
      pool,
      record {
        files_count = length pool;
        entries_total = total_of ends started;
        elapsed_ms = clock k / 1000;
        budget_exceeded = exceeded || ltb total_budget (clock (suc k));
        files = sort_texts (map (λ e. e.0) pool);
      },
    )

unfoldable pub fetch_temporal_pool_for_review :
    (ℕ → ℕ) → (Text → LineWindow → TaskEnd) → List (Text × List LineWindow) → Pool × Summary
unfolding start_tasks collect
fetch_temporal_pool_for_review clock ends [] = (
  [],
  record {
    files_count = 0;
    entries_total = 0;
    elapsed_ms = 0;
    budget_exceeded = false;
    files = [];
  },
)
fetch_temporal_pool_for_review clock ends (f ∷ files) =
    let (started, k, exceeded) = start_tasks clock 0 (requests (f ∷ files)) in
    pool_run clock ends started k exceeded
