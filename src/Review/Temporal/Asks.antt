-- ===== src/Review/Temporal/Asks.antt =====
-- What is asked of git, and what comes of it.
use codesensei.Common.{
  ℕ, ◌+◌, ◌≤◌, ◌<◌, ◌≡◌, ◌≢◌, refl, inl, inr, false, ◌||◌, some, List, [], ◌∷◌, Text, ltb, length,
  map, All, Bool-cases, arith,
}
use codesensei.Review.Schema.{TemporalEntry}
use codesensei.Review.Windows.{LineWindow}
use codesensei.Review.GitLog.{parse_log_records, count_hunk_lines}
use codesensei.Review.GitLog.Entries.{IsLogEntry, All-parse_log_records}
use codesensei.Review.Temporal.{
  Query, GitEnd, prints, times_out, exits_nonzero, os_error, bad_unicode, raises, Clone, usable,
  unsupported, clone_raises, Fetch, with_count, after_patch, after_records, after_log, after_clone,
  clamp_end, fetch_temporal_context,
}

-- A range of 1 to 200 lines, counted from 1.
abbrev pub IsAsked : Query → Type 0
IsAsked q = (1 ≤ q.start_line) × (q.start_line ≤ q.end_line) × (q.end_line < q.start_line + 200)

abbrev pub AreAsked : Fetch → Type 0
AreAsked f = All IsAsked f.queries × (length f.queries ≤ 2)

abbrev pub Returns : Fetch → Type 0
Returns f = (es : List TemporalEntry) × (f.entries ≡ some es) × All IsLogEntry es

All-with_count :
    (counts : List (Text × ℕ)) (es : List TemporalEntry)
    → All IsLogEntry es
    → All IsLogEntry (map (with_count counts) es)
All-with_count counts [] h = tt
All-with_count counts (e ∷ es) (h, hs) = (h, All-with_count counts es hs)

module _ (git : Query → GitEnd) (quiet : (q : Query) → git q ≢ raises) where
  after_patch-Returns :
      (asked : List Query) (es : List TemporalEntry) (end : GitEnd)
      → end ≢ raises
      → All IsLogEntry es
      → Returns (after_patch asked es end)
  after_patch-Returns asked es (prints out) h k =
      (_, refl, All-with_count (count_hunk_lines out) es k)
  after_patch-Returns asked es times_out h k = (es, refl, k)
  after_patch-Returns asked es exits_nonzero h k = (es, refl, k)
  after_patch-Returns asked es os_error h k = (es, refl, k)
  after_patch-Returns asked es bad_unicode h k = (es, refl, k)
  after_patch-Returns asked es raises h k = absurd (h refl)

  after_records-Returns :
      (q : Query) (es : List TemporalEntry) → All IsLogEntry es → Returns (after_records git q es)
  after_records-Returns q [] k = ([], refl, tt)
  after_records-Returns q (e ∷ es) k = after_patch-Returns _ (e ∷ es) (git _) (quiet _) k

  after_log-Returns : (q : Query) (end : GitEnd) → end ≢ raises → Returns (after_log git q end)
  after_log-Returns q (prints out) h =
      after_records-Returns q (parse_log_records out) (All-parse_log_records out)
  after_log-Returns q times_out h = ([], refl, tt)
  after_log-Returns q exits_nonzero h = ([], refl, tt)
  after_log-Returns q os_error h = ([], refl, tt)
  after_log-Returns q bad_unicode h = ([], refl, tt)
  after_log-Returns q raises h = absurd (h refl)

  after_clone-Returns :
      (path : Text) (start end n : ℕ) (clone : Clone)
      → Returns (after_clone git path start end n clone)
  after_clone-Returns path start end n unsupported = ([], refl, tt)
  after_clone-Returns path start end n clone_raises = ([], refl, tt)
  after_clone-Returns path start end n (usable cache) = after_log-Returns _ (git _) (quiet _)

-- Where git ends in no exception but those that are caught, the fetch of a window's history returns,
-- however the clone ends, and each of its entries has hashes of 40 and 7 characters and a subject
-- of at most 120.
pub fetch_temporal_context-Returns :
    (git : Query → GitEnd) (clone : Clone) (path : Text) (w : LineWindow) (n : ℕ)
    → ((q : Query) → git q ≢ raises)
    → Returns (fetch_temporal_context git clone path w n)
unfolding fetch_temporal_context
fetch_temporal_context-Returns git clone path w n quiet =
    elim (Bool-cases (ltb w.start_line 1 || ltb (clamp_end w) w.start_line)) [
      | inl bad ↦ rw bad ([], refl, tt)
      | inr good ↦ rw good (after_clone-Returns git quiet path w.start_line (clamp_end w) n clone)
    ]

module _ (git : Query → GitEnd) where
  after_patch-AreAsked :
      (asked : List Query) (es : List TemporalEntry) (end : GitEnd)
      → All IsAsked asked × (length asked ≤ 2)
      → AreAsked (after_patch asked es end)
  after_patch-AreAsked asked es (prints out) h = h
  after_patch-AreAsked asked es times_out h = h
  after_patch-AreAsked asked es exits_nonzero h = h
  after_patch-AreAsked asked es os_error h = h
  after_patch-AreAsked asked es bad_unicode h = h
  after_patch-AreAsked asked es raises h = h

  after_records-AreAsked :
      (q : Query) (es : List TemporalEntry) → IsAsked q → AreAsked (after_records git q es)
  after_records-AreAsked q [] h = ((h, tt), omega arith)
  after_records-AreAsked q (e ∷ es) h =
      after_patch-AreAsked _ (e ∷ es) (git _) ((h, (h, tt)), omega arith)

  after_log-AreAsked : (q : Query) (end : GitEnd) → IsAsked q → AreAsked (after_log git q end)
  after_log-AreAsked q (prints out) h = after_records-AreAsked q (parse_log_records out) h
  after_log-AreAsked q times_out h = ((h, tt), omega arith)
  after_log-AreAsked q exits_nonzero h = ((h, tt), omega arith)
  after_log-AreAsked q os_error h = ((h, tt), omega arith)
  after_log-AreAsked q bad_unicode h = ((h, tt), omega arith)
  after_log-AreAsked q raises h = ((h, tt), omega arith)

  after_clone-AreAsked :
      (path : Text) (w : LineWindow) (n : ℕ) (clone : Clone)
      → (ltb w.start_line 1 || ltb (clamp_end w) w.start_line) ≡ false
      → AreAsked (after_clone git path w.start_line (clamp_end w) n clone)
  after_clone-AreAsked path w n unsupported good = (tt, omega arith)
  after_clone-AreAsked path w n clone_raises good = (tt, omega arith)
  after_clone-AreAsked path w n (usable cache) good =
      after_log-AreAsked _ (git _) (ground (arith, good))

-- However git and the clone end, a fetch makes at most two queries, each of a range of 1 to 200
-- lines that starts at line 1 or later.
pub fetch_temporal_context-AreAsked :
    (git : Query → GitEnd) (clone : Clone) (path : Text) (w : LineWindow) (n : ℕ)
    → AreAsked (fetch_temporal_context git clone path w n)
unfolding fetch_temporal_context
fetch_temporal_context-AreAsked git clone path w n =
    elim (Bool-cases (ltb w.start_line 1 || ltb (clamp_end w) w.start_line)) [
      | inl bad ↦ rw bad (tt, omega arith)
      | inr good ↦ rw good (after_clone-AreAsked git path w n clone good)
    ]
