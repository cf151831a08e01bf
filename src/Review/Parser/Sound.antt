-- ===== src/Review/Parser/Sound.antt =====
-- What a parsed review is like.
use codesensei.Common.{
  ℕ, ◌-◌, ◌≤◌, ◌≡◌, refl, inl, inr, false, Option, none, some, List, [], ◌∷◌, ◌++◌, Text, codes,
  leb, length, length-append, length-take, take, is_empty, All, Bool-cases, arith,
}
use codesensei.Common.Options.{◌>>=◌, Holds, Holds-bind}
use codesensei.Common.Json.{
  Json, null, bool, int, real, str, array, object, Items, none_left, item, Fields, lookup,
}
use codesensei.Review.Errors.{provider_malformed_output, Result, ok, raised, raised_other}
use codesensei.Review.Schema.{Finding, truncate, Verdict}
use codesensei.Review.Parser.{
  Libraries, strip_fences, verdict_of, severity_of, line_of, filled_text, suggestion_of, entries_of,
  finding_of, finding_entry, findings_of, findings_value, payload_of, cleaned_review, malformed,
  parse_review, Decoded, decoded, not_json, other_error, after_loads,
}

-- A text that is not empty, or at most that long.
abbrev pub IsFilled : Text → Type 0
IsFilled s = is_empty s ≡ false

abbrev pub IsFinding : Finding → Type 0
IsFinding f =
    IsFilled f.file
    × IsFilled f.message
    × (length f.message ≤ 2000)
    × Holds (λ s. length s ≤ 4000) f.suggestion

-- A verdict with findings of that kind, or an error that is not to be retried, or the exception that
-- the decoding of the text has ended with.
abbrev pub IsParsed : Decoded → Result (Verdict × List Finding) → Type 0
IsParsed d (ok r) = All IsFinding r.1
IsParsed d (raised e) = (e.category ≡ provider_malformed_output) × (e.retryable ≡ false)
IsParsed d raised_other = d ≡ other_error

truncate-le : (n : ℕ) (s : Text) → 1 ≤ n → length (truncate n s) ≤ n
truncate-le n s h = elim (Bool-cases (leb (length s) n)) [
  | inl within ↦ rw within (ground (arith, within))
  | inr over ↦
      rw over (omega (arith, h, length-append (take (n - 1) s) (codes "…"), length-take (n - 1) s))
]

is_empty-append : (s t : Text) → IsFilled t → IsFilled (s ++ t)
is_empty-append [] t h = h
is_empty-append (c ∷ s) t h = refl

truncate-IsFilled : (n : ℕ) (s : Text) → IsFilled s → IsFilled (truncate n s)
truncate-IsFilled n s h = elim (Bool-cases (leb (length s) n)) [
  | inl within ↦ rw within h
  | inr over ↦ rw over (is_empty-append (take (n - 1) s) (codes "…") refl)
]

filled_text-IsFilled : (o : Option Json) → Holds IsFilled (filled_text o)
filled_text-IsFilled none = tt
filled_text-IsFilled (some null) = tt
filled_text-IsFilled (some (bool b)) = tt
filled_text-IsFilled (some (int n)) = tt
filled_text-IsFilled (some (real t)) = tt
filled_text-IsFilled (some (str [])) = tt
filled_text-IsFilled (some (str (c ∷ s))) = refl
filled_text-IsFilled (some (array js)) = tt
filled_text-IsFilled (some (object fs)) = tt

abbrev IsSuggestion : Option Text → Type 0
IsSuggestion o = Holds (λ s. length s ≤ 4000) o

suggestion_of-IsSuggestion : (o : Option Json) → Holds IsSuggestion (suggestion_of o)
suggestion_of-IsSuggestion none = tt
suggestion_of-IsSuggestion (some null) = tt
suggestion_of-IsSuggestion (some (bool b)) = tt
suggestion_of-IsSuggestion (some (int n)) = tt
suggestion_of-IsSuggestion (some (real t)) = tt
suggestion_of-IsSuggestion (some (str s)) = truncate-le 4000 s (omega arith)
suggestion_of-IsSuggestion (some (array js)) = tt
suggestion_of-IsSuggestion (some (object fs)) = tt

Holds-Unit : {A : Type 0} (o : Option A) → Holds (λ a. Unit {0}) o
Holds-Unit none = tt
Holds-Unit (some a) = tt

finding_of-IsFinding : (l : Libraries) (fs : Fields) → Holds IsFinding (finding_of l fs)
unfolding finding_of
finding_of-IsFinding l fs =
    Holds-bind IsFilled IsFinding (filled_text (lookup (codes "file") fs)) _
      (λ file file_ok.
        Holds-bind (λ a. Unit {0}) IsFinding (line_of l (lookup (codes "line") fs)) _
          (λ line _.
            Holds-bind (λ a. Unit {0}) IsFinding
              (lookup (codes "severity") fs >>= severity_of l.unicode) _
              (λ severity _.
                Holds-bind IsFilled IsFinding (filled_text (lookup (codes "message") fs)) _
                  (λ message message_ok.
                    Holds-bind IsSuggestion IsFinding
                      (suggestion_of (lookup (codes "suggestion") fs)) _
                      (λ suggestion suggestion_ok.
                        Holds-bind (λ a. Unit {0}) IsFinding
                          (entries_of l (lookup (codes "temporal_context") fs)) _
                          (λ entries _. (
                            file_ok,
                            truncate-IsFilled 2000 message message_ok,
                            truncate-le 2000 message (omega arith),
                            suggestion_ok,
                          ))
                          (Holds-Unit _))
                      (suggestion_of-IsSuggestion _))
                  (filled_text-IsFilled _))
              (Holds-Unit _))
          (Holds-Unit _))
      (filled_text-IsFilled _)

finding_entry-IsFinding : (l : Libraries) (j : Json) → Holds IsFinding (finding_entry l j)
finding_entry-IsFinding l null = tt
finding_entry-IsFinding l (bool b) = tt
finding_entry-IsFinding l (int n) = tt
finding_entry-IsFinding l (real t) = tt
finding_entry-IsFinding l (str s) = tt
finding_entry-IsFinding l (array js) = tt
finding_entry-IsFinding l (object fs) = finding_of-IsFinding l fs

findings_of-IsFinding : (l : Libraries) (js : Items) → Holds (All IsFinding) (findings_of l js)
unfolding findings_of
findings_of-IsFinding l none_left = tt
findings_of-IsFinding l (item j js) =
    Holds-bind IsFinding (All IsFinding) (finding_entry l j) _
      (λ f h.
        Holds-bind (All IsFinding) (All IsFinding) (findings_of l js) _ (λ fs k. (h, k))
          (findings_of-IsFinding l js))
      (finding_entry-IsFinding l j)

findings_value-IsFinding : (l : Libraries) (j : Json) → Holds (All IsFinding) (findings_value l j)
findings_value-IsFinding l null = tt
findings_value-IsFinding l (bool b) = tt
findings_value-IsFinding l (int n) = tt
findings_value-IsFinding l (real t) = tt
findings_value-IsFinding l (str s) = tt
findings_value-IsFinding l (array js) = findings_of-IsFinding l js
findings_value-IsFinding l (object fs) = tt

abbrev Findings : Verdict × List Finding → Type 0
Findings r = All IsFinding r.1

payload_of-IsFinding : (l : Libraries) (j : Json) → Holds Findings (payload_of l j)
payload_of-IsFinding l null = tt
payload_of-IsFinding l (bool b) = tt
payload_of-IsFinding l (int n) = tt
payload_of-IsFinding l (real t) = tt
payload_of-IsFinding l (str s) = tt
payload_of-IsFinding l (array js) = tt
payload_of-IsFinding l (object fs) =
    Holds-bind (λ a. Unit {0}) Findings (lookup (codes "verdict") fs) _
      (λ v _.
        Holds-bind (λ a. Unit {0}) Findings (lookup (codes "findings") fs) _
          (λ j _.
            Holds-bind (λ a. Unit {0}) Findings (verdict_of v) _
              (λ verdict _.
                Holds-bind (All IsFinding) Findings (findings_value l j) _ (λ findings h. h)
                  (findings_value-IsFinding l j))
              (Holds-Unit _))
          (Holds-Unit _))
      (Holds-Unit _)

malformed-IsParsed :
    (d : Decoded) (o : Option (Verdict × List Finding))
    → Holds Findings o
    → IsParsed d (malformed o)
malformed-IsParsed d none h = (refl, refl)
malformed-IsParsed d (some r) h = h

after_loads-IsParsed : (l : Libraries) (d : Decoded) → IsParsed d (after_loads l d)
after_loads-IsParsed l (decoded j) =
    malformed-IsParsed (decoded j) (payload_of l j) (payload_of-IsFinding l j)
after_loads-IsParsed l not_json = (refl, refl)
after_loads-IsParsed l other_error = refl

cleaned_review-IsParsed : (l : Libraries) (s : Text) → IsParsed (l.loads s) (cleaned_review l s)
cleaned_review-IsParsed l [] = (refl, refl)
cleaned_review-IsParsed l (c ∷ s) = after_loads-IsParsed l (l.loads (c ∷ s))

-- For every answer of the model, parsing gives a verdict and findings, each with a file and a message
-- that are not empty, the message of at most 2000 characters and the suggestion of at most 4000; or
-- it raises the error of a malformed answer, which is not to be retried; or another exception, and
-- then the JSON library has ended with one on the answer without its fences.
pub parse_review-IsParsed :
    (l : Libraries) (raw : Text) → IsParsed (l.loads (strip_fences raw)) (parse_review l raw)
unfolding parse_review
parse_review-IsParsed l raw = cleaned_review-IsParsed l (strip_fences raw)
