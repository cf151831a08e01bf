-- ===== src/Review/Temporal/Pooled.antt =====
-- What the pool holds.
use codesensei.Common.{
  ℕ, suc, ◌+◌, ◌≡◌, refl, sym, ap, ◌∙◌, inl, inr, Bool, true, false, List, [], ◌∷◌, ◌++◌, Text,
  text_eq, if◌then◌else◌, length, map, Bool-cases, arith, length-map, text_le, text_eq_iff,
}
use mathlib.Core.List.{append_assoc, append-nil}
use codesensei.Common.Dict.{get, update, or_value, get-update_same, get-update_other}
use codesensei.Review.Schema.{TemporalEntry}
use codesensei.Review.Windows.{LineWindow}
use codesensei.Review.Temporal.{
  TaskEnd, returns, task_raises, cancelled, Found, Pool, Summary, requests, start_tasks,
  append_found, add_result, collect, end_size, total_of, sort_texts, pool_run,
  fetch_temporal_pool_for_review, insert_text,
}
use codesensei.Review.Temporal.Started.{IsFront, start_tasks-IsStarted, IsFront-started}

-- The windows of a file for which a task returned entries, in the order of the tasks.
abbrev pub found : TaskEnd → LineWindow → List Found → List Found
found (returns []) w rest = rest
found (returns (e ∷ es)) w rest = (w, e ∷ es) ∷ rest
found task_raises w rest = rest
found cancelled w rest = rest

abbrev pub found_of : (Text → LineWindow → TaskEnd) → Text → List (Text × LineWindow) → List Found
found_of ends path [] = []
found_of ends path ((p, w) ∷ rs) =
    let rest = found_of ends path rs in if text_eq p path then found (ends p w) w rest else rest

abbrev pub of_path : Text → Pool → List Found
of_path path pool = or_value [] (get path pool)

if_same : {A : Type 0} (b : Bool) (xs : List A) → xs ≡ (if b then xs ++ [] else xs)
if_same true xs = sym (append-nil xs)
if_same false xs = refl

of_path-update :
    (path p : Text) (e : Found) (pool : Pool)
    → of_path path (update p (append_found e) pool)
      ≡ (if text_eq p path then of_path path pool ++ (e ∷ []) else of_path path pool)
of_path-update path p e pool = elim (Bool-cases (text_eq p path)) [
  | inl same ↦ rw same (
      ap (or_value []) (get-update_same p path (append_found e) pool same)
      ∙ ap (λ q. of_path q pool ++ (e ∷ [])) ((text_eq_iff p path).0 same))
  | inr other ↦ rw other (ap (or_value []) (get-update_other p path (append_found e) pool other))
]

of_path-add_result :
    (path p : Text) (w : LineWindow) (end : TaskEnd) (pool : Pool)
    → of_path path (add_result p w end pool)
      ≡ (if text_eq p path then of_path path pool ++ found end w [] else of_path path pool)
of_path-add_result path p w (returns []) pool = if_same (text_eq p path) (of_path path pool)
of_path-add_result path p w (returns (e ∷ es)) pool = of_path-update path p (w, e ∷ es) pool
of_path-add_result path p w task_raises pool = if_same (text_eq p path) (of_path path pool)
of_path-add_result path p w cancelled pool = if_same (text_eq p path) (of_path path pool)

found-append :
    (end : TaskEnd) (w : LineWindow) (rest : List Found) → found end w [] ++ rest ≡ found end w rest
found-append (returns []) w rest = refl
found-append (returns (e ∷ es)) w rest = refl
found-append task_raises w rest = refl
found-append cancelled w rest = refl

append-found_if :
    (b : Bool) (xs : List Found) (end : TaskEnd) (w : LineWindow) (rest : List Found)
    → (if b then xs ++ found end w [] else xs) ++ rest
      ≡ xs ++ (if b then found end w rest else rest)
append-found_if true xs end w rest =
    append_assoc xs (found end w []) rest ∙ ap (λ ys. xs ++ ys) (found-append end w rest)
append-found_if false xs end w rest = refl

of_path-collect :
    (ends : Text → LineWindow → TaskEnd) (path : Text) (pool : Pool) (rs : List (Text × LineWindow))
    → of_path path (collect ends pool rs) ≡ of_path path pool ++ found_of ends path rs
unfolding collect
of_path-collect ends path pool [] = sym (append-nil (of_path path pool))
of_path-collect ends path pool ((p, w) ∷ rs) =
    of_path-collect ends path (add_result p w (ends p w) pool) rs
    ∙ ap (λ xs. xs ++ found_of ends path rs) (of_path-add_result path p w (ends p w) pool)
    ∙ append-found_if (text_eq p path) (of_path path pool) (ends p w) w (found_of ends path rs)

-- The sizes of the lists that the pool holds.
abbrev pub found_size : List Found → ℕ
found_size [] = 0
found_size ((w, es) ∷ fs) = length es + found_size fs

abbrev pub pool_size : Pool → ℕ
pool_size [] = 0
pool_size ((path, fs) ∷ pool) = found_size fs + pool_size pool

found_size-append : (xs ys : List Found) → found_size (xs ++ ys) ≡ found_size xs + found_size ys
found_size-append [] ys = omega arith
found_size-append ((w, es) ∷ xs) ys = omega (arith, found_size-append xs ys)

pool_size-update :
    (p : Text) (w : LineWindow) (es : List TemporalEntry) (pool : Pool)
    → pool_size (update p (append_found (w, es)) pool) ≡ pool_size pool + length es
pool_size-update p w es [] = omega arith
pool_size-update p w es ((path, fs) ∷ pool) = elim (Bool-cases (text_eq path p)) [
  | inl same ↦ rw same (omega (arith, found_size-append fs ((w, es) ∷ [])))
  | inr other ↦ rw other (omega (arith, pool_size-update p w es pool))
]

pool_size-add_result :
    (p : Text) (w : LineWindow) (end : TaskEnd) (pool : Pool)
    → pool_size (add_result p w end pool) ≡ pool_size pool + end_size end
pool_size-add_result p w (returns []) pool = omega arith
pool_size-add_result p w (returns (e ∷ es)) pool = pool_size-update p w (e ∷ es) pool
pool_size-add_result p w task_raises pool = omega arith
pool_size-add_result p w cancelled pool = omega arith

pool_size-collect :
    (ends : Text → LineWindow → TaskEnd) (pool : Pool) (rs : List (Text × LineWindow))
    → pool_size (collect ends pool rs) ≡ pool_size pool + total_of ends rs
unfolding collect
pool_size-collect ends pool [] = omega arith
pool_size-collect ends pool ((p, w) ∷ rs) = omega (
  arith,
  pool_size-collect ends (add_result p w (ends p w) pool) rs,
  pool_size-add_result p w (ends p w) pool,
)

length-insert_text : (s : Text) (ts : List Text) → length (insert_text s ts) ≡ suc (length ts)
length-insert_text s [] = refl
length-insert_text s (t ∷ ts) = elim (Bool-cases (text_le s t)) [
  | inl le ↦ rw le refl
  | inr gt ↦ rw gt (ap suc (length-insert_text s ts))
]

length-sort_texts : (ts : List Text) → length (sort_texts ts) ≡ length ts
length-sort_texts [] = refl
length-sort_texts (t ∷ ts) = length-insert_text t (sort_texts ts) ∙ ap suc (length-sort_texts ts)

-- The pool holds for every file what its started tasks found, in their order; the summary counts
-- the pool.
abbrev pub IsPooled :
    (Text → LineWindow → TaskEnd) → List (Text × LineWindow) → Pool × Summary → Type 0
IsPooled ends started (pool, summary) =
    ((path : Text) → of_path path pool ≡ found_of ends path started)
    × (summary.entries_total ≡ pool_size pool)
    × (summary.files_count ≡ length pool)
    × (length summary.files ≡ length pool)

pool_run-IsPooled :
    (clock : ℕ → ℕ) (ends : Text → LineWindow → TaskEnd) (started : List (Text × LineWindow))
    (k : ℕ) (exceeded : Bool)
    → IsPooled ends started (pool_run clock ends started k exceeded)
pool_run-IsPooled clock ends started k exceeded = (
  λ path. of_path-collect ends path [] started,
  omega (arith, pool_size-collect ends [] started),
  refl,
  length-sort_texts (map (λ e. e.0) (collect ends [] started))
      ∙ length-map (collect ends [] started) (λ e. e.0),
)

-- Without files the clock is not read.
abbrev pub IsFrontOf :
    (ℕ → ℕ) → List (Text × LineWindow) → Bool → List (Text × List LineWindow) → Type 0
IsFrontOf clock started exceeded [] = (started ≡ []) × (exceeded ≡ false)
IsFrontOf clock started exceeded (f ∷ files) = IsFront clock started exceeded (requests (f ∷ files))

-- For every clock and every end of the tasks, the tasks of a front of the windows are started, each
-- while the clock is within two seconds. If there are files and they are all of them, the summary
-- says that the budget is exceeded just where the clock's last reading is past that; if not, the
-- reading after them is past it, and the summary says so. For every file the pool holds exactly the
-- windows whose started task returned entries, with those, in order; and the summary has the pool's
-- number of entries and of files, and as many names of files. Without files nothing is started or
-- exceeded.
pub fetch_temporal_pool_for_review-IsPooled :
    (clock : ℕ → ℕ) (ends : Text → LineWindow → TaskEnd) (files : List (Text × List LineWindow))
    → (started : List (Text × LineWindow)) × IsFrontOf clock started
        (fetch_temporal_pool_for_review clock ends files).1.budget_exceeded
        files
      × IsPooled ends started (fetch_temporal_pool_for_review clock ends files)
unfolding fetch_temporal_pool_for_review
fetch_temporal_pool_for_review-IsPooled clock ends [] =
    ([], (refl, refl), ((λ path. refl), refl, refl, refl))
fetch_temporal_pool_for_review-IsPooled clock ends (f ∷ files) =
    let tasks = start_tasks clock 0 (requests (f ∷ files)) in
    (
      tasks.0,
      IsFront-started clock (requests (f ∷ files)) tasks.0 tasks.1 tasks.2
          (start_tasks-IsStarted clock 0 (requests (f ∷ files))),
      pool_run-IsPooled clock ends tasks.0 tasks.1 tasks.2,
    )
