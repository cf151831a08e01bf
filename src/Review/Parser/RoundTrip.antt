-- ===== src/Review/Parser/RoundTrip.antt =====
-- The JSON of a review, parsed.
use codesensei.Common.{
  ℕ, ◌≤◌, ◌≡◌, refl, sym, ap, ◌∙◌, ℤ, is_positive, true, false, Option, none, some, List, [], ◌∷◌,
  Text, codes, text_eq, if◌then◌else◌, length, le→leb, is_empty, strip, is_space, lstrip, rstrip,
  All,
}
use codesensei.Common.Options.{◌>>=◌, Holds}
use codesensei.Common.Json.{
  Json, null, int, str, array, object, Items, none_left, item, no_fields, field,
}
use codesensei.Review.Errors.{ok}
use codesensei.Review.Schema.{
  Severity, blocker, major, minor, nit, severity_value, Finding, truncate, Verdict, approve,
  request_changes, comment,
}
use codesensei.Review.Parser.{
  Libraries, strip_fences, verdict_of, severity_of, coerce_line, line_of, filled_text,
  suggestion_of, finding_from, finding_of, finding_entry, findings_of, payload_of, cleaned_review,
  malformed, parse_review, decoded, after_loads,
}
use codesensei.Review.Parser.Sound.{IsFilled}

abbrev pub verdict_text : Verdict → Text
verdict_text approve = codes "approve"
verdict_text request_changes = codes "request_changes"
verdict_text comment = codes "comment"

abbrev pub line_json : Option ℤ → Json
line_json none = null
line_json (some n) = int n

abbrev pub suggestion_json : Option Text → Json
suggestion_json none = null
suggestion_json (some s) = str s

abbrev pub finding_json : Finding → Json
finding_json f = object (
    field (codes "file") (str f.file) (
      field (codes "line") (line_json f.line) (
        field (codes "severity") (str (severity_value f.severity)) (
          field (codes "message") (str f.message)
            (field (codes "suggestion") (suggestion_json f.suggestion) no_fields)))))

abbrev pub findings_json : List Finding → Items
findings_json [] = none_left
findings_json (f ∷ fs) = item (finding_json f) (findings_json fs)

-- The answer that the prompt asks the model for.
abbrev pub review_json : Verdict → List Finding → Json
review_json v fs = object (
    field (codes "verdict") (str (verdict_text v))
      (field (codes "findings") (array (findings_json fs)) no_fields))

-- A finding within the limits, with a line counted from 1 if it has one, and no history yet.
abbrev pub IsFresh : Finding → Type 0
IsFresh f =
    IsFilled f.file
    × IsFilled f.message
    × (length f.message ≤ 2000)
    × Holds (λ s. length s ≤ 4000) f.suggestion
    × Holds (λ n. is_positive n ≡ true) f.line
    × (f.temporal_context ≡ none)

-- An integer passes for itself, and a lower-case word is its own lower case.
abbrev pub IsPlain : Libraries → Type 0
IsPlain l =
    ((n : ℤ) → l.lax_int (int n) ≡ some n)
    × ((s : Severity) → l.unicode.lower (severity_value s) ≡ severity_value s)

filled : (s : Text) → IsFilled s → filled_text (some (str s)) ≡ some s
filled [] h = cc
filled (c ∷ s) h = refl

strip-severity_value : (s : Severity) → strip (severity_value s) ≡ severity_value s
unfolding strip lstrip rstrip is_space
strip-severity_value blocker = refl
strip-severity_value major = refl
strip-severity_value minor = refl
strip-severity_value nit = refl

severity_word : Text → Option Severity
severity_word v =
    if text_eq v (codes "blocker")
    then some blocker
    else if text_eq v (codes "major")
    then some major
    else if text_eq v (codes "minor")
    then some minor
    else if text_eq v (codes "nit")
    then some nit
    else none

severity_word-severity_value : (s : Severity) → severity_word (severity_value s) ≡ some s
unfolding severity_word text_eq
severity_word-severity_value blocker = refl
severity_word-severity_value major = refl
severity_word-severity_value minor = refl
severity_word-severity_value nit = refl

truncate-short : (n : ℕ) (s : Text) → length s ≤ n → truncate n s ≡ s
truncate-short n s h = rw (le→leb (length s) n h) refl

suggestion_of-json :
    (o : Option Text)
    → Holds (λ s. length s ≤ 4000) o
    → suggestion_of (some (suggestion_json o)) ≡ some o
suggestion_of-json none h = refl
suggestion_of-json (some s) h = ap (λ t. some (some t)) (truncate-short 4000 s h)

finding_from-fresh :
    (f : Finding) {file message : Option Text} {line : Option (Option ℤ)}
    {severity : Option Severity} {suggestion : Option (Option Text)}
    → file ≡ some f.file
    → line ≡ some f.line
    → severity ≡ some f.severity
    → message ≡ some f.message
    → suggestion ≡ some f.suggestion
    → length f.message ≤ 2000
    → f.temporal_context ≡ none
    → finding_from file line severity message suggestion (some none) ≡ some f
finding_from-fresh f e1 e2 e3 e4 e5 short fresh =
    rw (e1, e2, e3, e4, e5)
      (ap (λ m. some (record f { message = m; temporal_context = none }))
          (truncate-short 2000 f.message short)
        ∙ ap (λ t. some (record f { temporal_context = t })) (sym fresh))

verdict_of-text : (v : Verdict) → verdict_of (str (verdict_text v)) ≡ some v
unfolding text_eq
verdict_of-text approve = refl
verdict_of-text request_changes = refl
verdict_of-text comment = refl

module _ (l : Libraries) (plain : IsPlain l) where
  severity_of-severity_value :
      (s : Severity) → severity_of l.unicode (str (severity_value s)) ≡ some s
  unfolding severity_word
  severity_of-severity_value s =
      ap (λ v. severity_word (l.unicode.lower v)) (strip-severity_value s)
      ∙ ap severity_word (plain.1 s)
      ∙ severity_word-severity_value s

  line_of-json :
      (o : Option ℤ) → Holds (λ n. is_positive n ≡ true) o → line_of l (some (line_json o)) ≡ some o
  unfolding coerce_line
  line_of-json none h = refl
  line_of-json (some n) h = rw h (ap (λ o. o >>= λ m. some (some m)) (plain.0 n))

  finding_of-json : (f : Finding) → IsFresh f → finding_entry l (finding_json f) ≡ some f
  unfolding finding_of text_eq
  finding_of-json f (file, message, short, suggestion, line, fresh) =
      finding_from-fresh f (filled f.file file) (line_of-json f.line line)
        (severity_of-severity_value f.severity) (filled f.message message)
        (suggestion_of-json f.suggestion suggestion) short fresh

  findings_of-json :
      (fs : List Finding) → All IsFresh fs → findings_of l (findings_json fs) ≡ some fs
  unfolding findings_of
  findings_of-json [] h = refl
  findings_of-json (f ∷ fs) (h, hs) =
      ap (λ o. o >>= λ g. findings_of l (findings_json fs) >>= λ gs. some (g ∷ gs))
        (finding_of-json f h)
      ∙ ap (λ o. o >>= λ gs. some (f ∷ gs)) (findings_of-json fs hs)

  payload_of-json :
      (v : Verdict) (fs : List Finding)
      → All IsFresh fs
      → payload_of l (review_json v fs) ≡ some (v, fs)
  unfolding text_eq
  payload_of-json v fs h =
      ap (λ o. o >>= λ w. findings_of l (findings_json fs) >>= λ gs. some (w, gs))
        (verdict_of-text v)
      ∙ ap (λ o. o >>= λ gs. some (v, gs)) (findings_of-json fs h)

cleaned_review-loads :
    (l : Libraries) (s : Text) (j : Json)
    → is_empty s ≡ false
    → l.loads s ≡ decoded j
    → cleaned_review l s ≡ malformed (payload_of l j)
cleaned_review-loads l [] j h e = cc
cleaned_review-loads l (c ∷ s) j h e = ap (after_loads l) e

-- Where the JSON library decodes what is left of the answer without its fences as a review of a
-- verdict and findings within the limits, an integer passes for itself, and the words of the
-- severities are their own lower case, parsing gives that verdict and those findings.
pub parse_review-review_json :
    (l : Libraries) (raw : Text) (v : Verdict) (fs : List Finding)
    → IsPlain l
    → is_empty (strip_fences raw) ≡ false
    → l.loads (strip_fences raw) ≡ decoded (review_json v fs)
    → All IsFresh fs
    → parse_review l raw ≡ ok (v, fs)
unfolding parse_review
parse_review-review_json l raw v fs plain some_text loaded fresh =
    cleaned_review-loads l (strip_fences raw) (review_json v fs) some_text loaded
    ∙ ap malformed (payload_of-json l plain v fs fresh)
