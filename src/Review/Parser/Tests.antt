-- ===== src/Review/Parser/Tests.antt =====
-- Runs of the parser.
use codesensei.Common.{
  ◌≡◌, refl, false, Option, none, some, [], ◌∷◌, codes, ℤ, pos, is_space, rstrip, text_eq, is_empty,
  arith,
}
use codesensei.Common.Json.{Json, int}
use codesensei.Common.Digits.{ascii}
use codesensei.Review.Errors.{ok}
use codesensei.Review.Schema.{
  Finding, Severity, blocker, major, minor, nit, severity_value, request_changes,
}
use codesensei.Review.Parser.{Libraries, decoded, strip_fences, parse_review}
use codesensei.Review.Parser.Fences.{fenced, parse_review-fenced}
use codesensei.Review.Parser.Sound.{IsParsed, parse_review-IsParsed}
use codesensei.Review.Parser.RoundTrip.{IsFresh, IsPlain, review_json, parse_review-review_json}

abbrev pub one_finding : Finding
one_finding = record {
  file = codes "a.py";
  line = some (pos 3);
  severity = major;
  message = codes "Unused name.";
  suggestion = some (codes "Drop it.");
  temporal_context = none;
}

abbrev lax : Json → Option ℤ
lax (int n) = some n
lax j = none

-- A library that reads every text as the same review.
abbrev pub libraries : Libraries
libraries = record {
  loads = λ s. decoded (review_json request_changes (one_finding ∷ []));
  lax_int = lax;
  lax_entries = λ j. none;
  unicode = ascii;
}

unfenced : strip_fences (codes "  ```json\n{}\n```\n") ≡ codes "{}"
unfolding strip_fences is_space text_eq
unfenced = refl

stripped : strip_fences (codes "{}") ≡ codes "{}"
unfolding strip_fences is_space
stripped = refl

brace : (is_space b'{' ≡ false) × (rstrip (codes "{}") ≡ codes "{}")
unfolding is_space rstrip
brace = (refl, refl)

parse_review-fenced_example :
    parse_review libraries (fenced (codes "{}")) ≡ parse_review libraries (codes "{}")
parse_review-fenced_example = parse_review-fenced libraries (codes "}") brace

parse_review-IsParsed_example :
    IsParsed (libraries.loads (strip_fences (codes "{}"))) (parse_review libraries (codes "{}"))
parse_review-IsParsed_example = parse_review-IsParsed libraries (codes "{}")

plain : IsPlain libraries
plain = (λ n. refl, lower)
  where
    lower : (s : Severity) → ascii.lower (severity_value s) ≡ severity_value s
    lower blocker = refl
    lower major = refl
    lower minor = refl
    lower nit = refl

some_text : is_empty (strip_fences (codes "{}")) ≡ false
some_text = rw stripped refl

fresh : IsFresh one_finding
fresh = (refl, refl, omega arith, omega arith, refl, refl)

parse_review-review_json_example :
    parse_review libraries (codes "{}") ≡ ok (request_changes, one_finding ∷ [])
parse_review-review_json_example =
    parse_review-review_json libraries (codes "{}") request_changes (one_finding ∷ []) plain
      some_text refl (fresh, tt)
