-- ===== src/Review/GitLog.antt =====
-- backend/src/codesensei/review/git_temporal.py: `_parse_log_records` and `_count_hunk_lines`, the
-- readers of git's output.
pub mod RoundTrip
pub mod Counts
pub mod Patch
pub mod Entries
pub mod Tests
use codesensei.Common.{
  ℕ, suc, ◌+◌, Bool, true, false, not, ◌&&◌, ◌||◌, Option, none, some, List, [], ◌∷◌, ◌++◌, Text,
  codes, leb, ltb, ◌==◌, if◌then◌else◌, length, all, any, take, is_empty, has_text, splitlines,
  split_on, starts_with,
}
use codesensei.Common.Dict.{assign, set_default}
use codesensei.Review.Schema.{TemporalEntry, truncate}

abbrev pub subject_max : ℕ
subject_max = 120

-- The five parts of a line, where it has five and the two hashes have their lengths.
abbrev pub entry_of : List Text → Option TemporalEntry
entry_of (sha ∷ short ∷ email ∷ date ∷ subject ∷ []) =
    if not (length sha == 40) || not (length short == 7)
    then none
    else some (record {
      commit_sha = sha;
      short_sha = short;
      author_email = email;
      author_date = date;
      subject = truncate subject_max subject;
      hunk_lines_changed = 0;
    })
entry_of parts = none

abbrev pub line_entry : Text → Option TemporalEntry
line_entry line = if has_text line then entry_of (split_on 9 line) else none

abbrev keep_entry : Option TemporalEntry → List TemporalEntry → List TemporalEntry
keep_entry none entries = entries
keep_entry (some e) entries = e ∷ entries

pub parse_lines : List Text → List TemporalEntry
parse_lines [] = []
parse_lines (line ∷ lines) = keep_entry (line_entry line) (parse_lines lines)

unfoldable pub parse_log_records : Text → List TemporalEntry
unfolding parse_lines
parse_log_records stdout = parse_lines (splitlines stdout)

-- `c in "0123456789abcdef"`.
abbrev pub is_hex : ℕ → Bool
is_hex c = leb b'0' c && leb c b'9' || leb b'a' c && leb c b'f'

unfoldable pub is_sha : Text → Bool
is_sha raw = length raw == 40 && all is_hex raw

unfoldable pub is_header : Text → Bool
unfolding starts_with
is_header raw = any (starts_with raw) (codes "@@" ∷ codes "diff " ∷ codes "---" ∷ codes "+++" ∷ [])

unfoldable pub is_change : Text → Bool
unfolding starts_with
is_change raw = starts_with raw (codes "+") || starts_with raw (codes "-")

-- `counts`, `current_sha` and `current`.
pub record Scan : Type 0 where
  pub counts : List (Text × ℕ)
  pub current_sha : Option Text
  pub current : ℕ

abbrev pub flush : Option Text → ℕ → List (Text × ℕ) → List (Text × ℕ)
flush none n counts = counts
flush (some sha) n counts = assign sha n counts

-- The body of the loop.
abbrev pub scan_line : Scan → Text → Scan
scan_line st raw =
    if is_empty raw
    then st
    else if is_sha raw
    then record {
      counts = flush st.current_sha st.current st.counts;
      current_sha = some raw;
      current = 0;
    }
    else if is_header raw
    then st
    else if is_change raw
    then record st { current = st.current + 1 }
    else st

abbrev pub scan_lines : Scan → List Text → Scan
scan_lines st [] = st
scan_lines st (raw ∷ lines) = scan_lines (scan_line st raw) lines

-- After the loop: `counts.setdefault(current_sha, current)`.
abbrev pub final_counts : Option Text → ℕ → List (Text × ℕ) → List (Text × ℕ)
final_counts none n counts = counts
final_counts (some sha) n counts = set_default sha n counts

unfoldable pub count_hunk_lines : Text → List (Text × ℕ)
unfolding is_sha is_header is_change
count_hunk_lines patch =
    let st =
      scan_lines (record { counts = []; current_sha = none; current = 0 }) (splitlines patch) in
    final_counts st.current_sha st.current st.counts
