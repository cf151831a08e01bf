-- ===== src/Review/RunParts.antt =====
-- backend/src/codesensei/review/service.py: the parts of a run, each up to its end: the size, the
-- errors of the retrieval, the context files, the chat's end, the routing and the persistence.
use codesensei.Common.{
  ℕ, ◌+◌, Bool, true, false, ◌&&◌, Option, none, some, List, [], ◌∷◌, ◌++◌, Text, codes, text_eq,
  ltb, leb, if◌then◌else◌, length, any,
}
use codesensei.Review.Errors.{
  ReviewErrorCategory, ReviewError, Result, ok, raised, raised_other, review_error,
  payload_too_large, repo_not_ready, provider_unavailable,
}
use codesensei.Review.Schema.{Finding, Verdict, approve, request_changes, comment}
use codesensei.Review.Temporal.{Pool}
use codesensei.Review.Attach.{attach_temporal_context}
use codesensei.Indexing.Errors.{
  index_error, provider_error, job_error, redis_error, other, IndexErrorCategory,
}
use codesensei.Indexing.Retrieval.{
  RetrievedChunk, RetrievalResult, Searched, found, review_raised, exc_raised,
}
use codesensei.History.{History, NewRun, insert_run, prune_to_cap}

-- How `provider.chat` ends under its time limit.
pub data ChatEnd : Type 0 where
  answers : Text → ChatEnd
  times_out chat_raises : ChatEnd
  provider_fails : Bool → ChatEnd

-- What the provider remembers of its last call.
pub record Usage : Type 0 where
  pub model : Option Text
  pub prompt_tokens : Option ℕ
  pub completion_tokens : Option ℕ

-- What the store does with a run: all is saved, nothing is, or the run but not the pruning.
pub data Saving : Type 0 where
  saves insert_raises prune_raises : Saving

abbrev pub or_raise {ℓ} : {A : Type ℓ} → Option A → Result A
or_raise none = raised_other
or_raise (some a) = ok a

-- `len(diff.encode("utf-8"))`; a surrogate cannot be encoded.
abbrev pub char_bytes : ℕ → Option ℕ
char_bytes c =
    if ltb c 0x80
    then some 1
    else if ltb c 0x800
    then some 2
    else if leb 0xd800 c && ltb c 0xe000
    then none
    else if ltb c 0x10000
    then some 3
    else some 4

abbrev add_bytes : Option ℕ → Option ℕ → Option ℕ
add_bytes none n = none
add_bytes (some m) none = none
add_bytes (some m) (some n) = some (m + n)

unfoldable pub utf8_length : Text → Option ℕ
utf8_length [] = some 0
utf8_length (c ∷ s) = add_bytes (char_bytes c) (utf8_length s)

abbrev pub size_within : ℕ → Option ℕ → Result (Unit {0})
size_within limit none = raised_other
size_within limit (some n) =
    if ltb limit n then raised (review_error payload_too_large false) else ok tt

unfoldable pub enforce_size : ℕ → Text → Result (Unit {0})
unfolding utf8_length
enforce_size limit diff = size_within limit (utf8_length diff)

-- `except IndexError`.
abbrev pub translated : IndexErrorCategory → Bool → ReviewError
translated IndexErrorCategory.embedding_mismatch r =
    review_error ReviewErrorCategory.embedding_mismatch false
translated IndexErrorCategory.already_indexing r = review_error repo_not_ready r
translated IndexErrorCategory.not_found r = review_error ReviewErrorCategory.invalid_input r
translated IndexErrorCategory.invalid_input r = review_error ReviewErrorCategory.internal r
translated IndexErrorCategory.payload_too_large r = review_error ReviewErrorCategory.internal r
translated IndexErrorCategory.clone_failed r = review_error ReviewErrorCategory.internal r
translated IndexErrorCategory.embedding_failed r = review_error ReviewErrorCategory.internal r
translated IndexErrorCategory.embedding_dimension_mismatch r =
    review_error ReviewErrorCategory.internal r
translated IndexErrorCategory.delete_during_index r = review_error ReviewErrorCategory.internal r
translated IndexErrorCategory.queue_unavailable r = review_error ReviewErrorCategory.internal r
translated IndexErrorCategory.internal r = review_error ReviewErrorCategory.internal r

abbrev pub after_search : Searched → Result RetrievalResult
after_search (found r) = ok r
after_search (review_raised e) = raised e
after_search (exc_raised (index_error c r)) = raised (translated c r)
after_search (exc_raised (provider_error r)) = raised_other
after_search (exc_raised (job_error c)) = raised_other
after_search (exc_raised redis_error) = raised_other
after_search (exc_raised other) = raised_other

-- The paths of the selected chunks, each once, at most ten.
abbrev pub file_step : List Text → Text → List Text
file_step seen path =
    if leb 10 (length seen)
    then seen
    else if any (text_eq path) seen
    then seen
    else seen ++ (path ∷ [])

unfoldable pub context_files_from : List Text → List RetrievedChunk → List Text
unfolding text_eq
context_files_from seen [] = seen
context_files_from seen (c ∷ cs) = context_files_from (file_step seen c.file_path) cs

unfoldable pub context_files_of : Option RetrievalResult → Option (List Text)
unfolding context_files_from
context_files_of none = none
context_files_of (some r) = some (context_files_from [] r.selected)

abbrev pub selected_of : Option RetrievalResult → List RetrievedChunk
selected_of none = []
selected_of (some r) = r.selected

-- `try: provider.chat(…)`.
abbrev pub after_chat : ChatEnd → Result Text
after_chat (answers raw) = ok raw
after_chat times_out = raised (review_error provider_unavailable true)
after_chat (provider_fails r) = raised (review_error provider_unavailable r)
after_chat chat_raises = raised_other

abbrev pub verdict_value : Verdict → Text
verdict_value approve = codes "approve"
verdict_value request_changes = codes "request_changes"
verdict_value comment = codes "comment"

-- The identifier of the saved run, and the history after it.
unfoldable pub persist_run : Saving → History → ℕ → NewRun → List Finding → Option ℕ × History
unfolding insert_run prune_to_cap
persist_run saves h now fields findings =
    let (run, h') = insert_run h now fields findings in (some run.run_id, (prune_to_cap h').1)
persist_run insert_raises h now fields findings = (none, h)
persist_run prune_raises h now fields findings = (none, (insert_run h now fields findings).1)

abbrev pub usage_field {ℓ} : {A : Type ℓ} → (Usage → Option A) → Option Usage → Option A
usage_field f none = none
usage_field f (some u) = f u

abbrev pub routed : Pool → List Finding → Result (List Finding)
routed [] findings = ok findings
routed (f ∷ files) findings = or_raise (attach_temporal_context (f ∷ files) findings)

abbrev pub kind_of : Option Text → Text
kind_of none = codes "diff"
kind_of (some []) = codes "diff"
kind_of (some (c ∷ s)) = codes "pr_url"
