-- ===== src/Review/Parser.antt =====
-- backend/src/codesensei/review/parser.py, and the validators of `Finding` in review/schema.py. What
-- the JSON and the validation libraries decide is a parameter: how a text is decoded, and which
-- values pass for an integer or for a list of history entries.
pub mod Fences
pub mod Sound
pub mod RoundTrip
pub mod Tests
use codesensei.Common.{
  ℕ, zero, suc, ◌-◌, ℤ, pos, negsuc, Bool, true, false, not, ◌&&◌, ◌||◌, Option, none, some, List,
  [], ◌∷◌, Text, codes, text_eq, if◌then◌else◌, length, take, drop, any, is_empty, strip, rstrip,
  starts_with, ends_with, lstrip_char, is_positive,
}
use codesensei.Common.Options.{◌>>=◌}
use codesensei.Common.Json.{
  Json, null, bool, int, real, str, array, object, Items, none_left, item, Fields, no_fields, field,
  lookup,
}
use codesensei.Common.Digits.{Unicode, parse_int}
use codesensei.Review.Errors.{
  ReviewErrorCategory, ReviewError, provider_malformed_output, review_error, Result, ok, raised,
  raised_other,
}
use codesensei.Review.Schema.{
  Severity, blocker, major, minor, nit, TemporalEntry, Finding, truncate, Verdict, approve,
  request_changes, comment,
}

-- The fence that closes is dropped, if it is there.
abbrev pub unclosed : Text → Text
unclosed body =
    strip (if ends_with body (codes "```") then rstrip (take (length body - 3) body) else body)

-- After the fence that opens.
abbrev pub unfence : Text → Text
unfence rest = unclosed (rstrip (lstrip_char 10 rest))

unfoldable pub strip_fences : Text → Text
unfolding strip rstrip lstrip_char ends_with starts_with
strip_fences text =
    let body = strip text in
    if starts_with body (codes "```json")
    then unfence (drop 7 body)
    else if starts_with body (codes "```JSON")
    then unfence (drop 7 body)
    else if starts_with body (codes "```")
    then unfence (drop 3 body)
    else body

-- The end of `json.loads`: a value, a `JSONDecodeError`, or an exception of another class (Python
-- refuses an integer of more than 4300 digits with a plain `ValueError`).
pub data Decoded : Type 0 where
  decoded : Json → Decoded
  not_json other_error : Decoded

pub record Libraries : Type 0 where
  pub loads : Text → Decoded
  pub lax_int : Json → Option ℤ
  pub lax_entries : Json → Option (Option (List TemporalEntry))
  pub unicode : Unicode

abbrev pub verdict_of : Json → Option Verdict
verdict_of (str s) =
    if text_eq s (codes "approve")
    then some approve
    else if text_eq s (codes "request_changes")
    then some request_changes
    else if text_eq s (codes "comment")
    then some comment
    else none
verdict_of j = none

-- `_normalise_severity`, and the enumeration.
abbrev pub severity_of : Unicode → Json → Option Severity
severity_of u (str s) =
    let v = u.lower (strip s) in
    if text_eq v (codes "blocker")
    then some blocker
    else if text_eq v (codes "major")
    then some major
    else if text_eq v (codes "minor")
    then some minor
    else if text_eq v (codes "nit")
    then some nit
    else none
severity_of u j = none

-- `_coerce_line`: null, or a value for the validator of integers.
abbrev pub positive_int : ℤ → Json
positive_int n = if is_positive n then int n else null

abbrev int_or_text : Text → Option ℤ → Json
int_or_text s none = str s
int_or_text s (some n) = positive_int n

abbrev is_null_word : Text → Bool
is_null_word s = any (text_eq s) (codes "null" ∷ codes "none" ∷ codes "n/a" ∷ [])

pub coerce_line : Unicode → Json → Json
unfolding strip text_eq
coerce_line u (str s) =
    let stripped = strip s in
    if is_empty stripped || is_null_word (u.lower stripped)
    then null
    else int_or_text s (parse_int u stripped)
coerce_line u (int n) = positive_int n
coerce_line u (bool b) = if b then bool true else null
coerce_line u null = null
coerce_line u (real t) = real t
coerce_line u (array js) = array js
coerce_line u (object fs) = object fs

-- `int | None`.
abbrev pub optional_int : Libraries → Json → Option (Option ℤ)
optional_int l null = some none
optional_int l j = l.lax_int j >>= λ n. some (some n)

abbrev pub line_of : Libraries → Option Json → Option (Option ℤ)
line_of l none = some none
line_of l (some j) = optional_int l (coerce_line l.unicode j)

-- A text that is not empty.
abbrev pub filled_text : Option Json → Option Text
filled_text (some (str (c ∷ s))) = some (c ∷ s)
filled_text j = none

abbrev pub suggestion_of : Option Json → Option (Option Text)
suggestion_of none = some none
suggestion_of (some null) = some none
suggestion_of (some (str s)) = some (some (truncate 4000 s))
suggestion_of (some j) = none

abbrev pub entries_of : Libraries → Option Json → Option (Option (List TemporalEntry))
entries_of l none = some none
entries_of l (some null) = some none
entries_of l (some j) = l.lax_entries j

abbrev pub finding_from :
    Option Text
    → Option (Option ℤ)
    → Option Severity
    → Option Text
    → Option (Option Text)
    → Option (Option (List TemporalEntry))
    → Option Finding
finding_from file? line? severity? message? suggestion? entries? = do
  file ← file?
  line ← line?
  severity ← severity?
  message ← message?
  suggestion ← suggestion?
  entries ← entries?
  some (record {
    file = file;
    line = line;
    severity = severity;
    message = truncate 2000 message;
    suggestion = suggestion;
    temporal_context = entries;
  })

-- `Finding(**entry)`; none is a `ValidationError`.
pub finding_of : Libraries → Fields → Option Finding
unfolding coerce_line
finding_of l fs =
    finding_from (filled_text (lookup (codes "file") fs)) (line_of l (lookup (codes "line") fs))
      (lookup (codes "severity") fs >>= severity_of l.unicode)
      (filled_text (lookup (codes "message") fs)) (suggestion_of (lookup (codes "suggestion") fs))
      (entries_of l (lookup (codes "temporal_context") fs))

abbrev pub finding_entry : Libraries → Json → Option Finding
finding_entry l (object fs) = finding_of l fs
finding_entry l j = none

pub findings_of : Libraries → Items → Option (List Finding)
unfolding finding_of
findings_of l none_left = some []
findings_of l (item j js) = do f ← finding_entry l j; rest ← findings_of l js; some (f ∷ rest)

abbrev pub findings_value : Libraries → Json → Option (List Finding)
findings_value l (array js) = findings_of l js
findings_value l j = none

abbrev pub payload_of : Libraries → Json → Option (Verdict × List Finding)
payload_of l (object fs) = do
  v ← lookup (codes "verdict") fs
  fv ← lookup (codes "findings") fs
  verdict ← verdict_of v
  findings ← findings_value l fv
  some (verdict, findings)
payload_of l j = none

abbrev pub malformed : Option (Verdict × List Finding) → Result (Verdict × List Finding)
malformed none = raised (review_error provider_malformed_output false)
malformed (some r) = ok r

abbrev pub after_loads : Libraries → Decoded → Result (Verdict × List Finding)
after_loads l (decoded j) = malformed (payload_of l j)
after_loads l not_json = malformed none
after_loads l other_error = raised_other

abbrev pub cleaned_review : Libraries → Text → Result (Verdict × List Finding)
cleaned_review l [] = malformed none
cleaned_review l (c ∷ s) = after_loads l (l.loads (c ∷ s))

unfoldable pub parse_review : Libraries → Text → Result (Verdict × List Finding)
unfolding findings_of
parse_review l raw = cleaned_review l (strip_fences raw)
