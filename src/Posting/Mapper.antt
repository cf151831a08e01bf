-- ===== src/Posting/Mapper.antt =====
-- backend/src/codesensei/posting/mapper.py: the payload of a review.
pub mod Complete
use codesensei.Common.{
  ℕ, ℤ, Bool, true, false, not, ◌&&◌, Option, none, some, List, [], ◌∷◌, ◌++◌, Text, codes,
  if◌then◌else◌, is_positive, decimal, is_empty, keep, map, take, drop, join_lines,
}
use codesensei.Review.Schema.{Severity, severity_value, Finding}

abbrev pub inline_comment_cap : ℕ
inline_comment_cap = 50

abbrev pub side_right : Text
side_right = codes "RIGHT"

pub record Comment : Type 0 where
  pub path : Text
  pub side : Text
  pub line : Option ℤ
  pub body : Text

pub record Payload : Type 0 where
  pub event : Text
  pub body : Text
  pub comments : List Comment

abbrev at_least_one : Option ℤ → Bool
at_least_one none = false
at_least_one (some n) = is_positive n

pub has_location : Finding → Bool
has_location f = not (is_empty f.file) && at_least_one f.line

-- `f"{head}…{suggestion}"` where there is a suggestion that is not empty.
abbrev with_suggestion : Text → Text → Option Text → Text
with_suggestion head label none = head
with_suggestion head label (some []) = head
with_suggestion head label (some (c ∷ s)) = head ++ (label ++ (c ∷ s))

pub render_inline_body : Finding → Text
render_inline_body f =
    with_suggestion (codes "**" ++ (severity_value f.severity ++ (codes "**: " ++ f.message)))
      (codes "\n\n_Suggestion_: ") f.suggestion

abbrev line_text : Option ℤ → Text
line_text none = codes "None"
line_text (some n) = decimal n

abbrev location : Finding → Text
location f = codes " at `" ++ (f.file ++ (codes ":" ++ (line_text f.line ++ codes "`")))

pub render_bullet : Bool → Finding → Text
render_bullet include_location f =
    with_suggestion
      (codes "- **"
        ++ (severity_value f.severity
            ++ (codes "**"
                ++ ((if include_location then location f else []) ++ (codes ": " ++ f.message)))))
      (codes "  \n  _Suggestion_: ") f.suggestion

pub build_inline_comment : Finding → Comment
build_inline_comment f = record {
  path = f.file;
  side = side_right;
  line = f.line;
  body = render_inline_body f;
}

abbrev section : Text → Bool → List Finding → List Text
section title include_location [] = []
section title include_location (f ∷ fs) = title ∷ map (render_bullet include_location) (f ∷ fs)

-- A blank line before the second section, where there is a first.
abbrev append_section : List Text → List Text → List Text
append_section [] second = second
append_section (p ∷ parts) [] = p ∷ parts
append_section (p ∷ parts) (q ∷ second) = (p ∷ parts) ++ ([] ∷ q ∷ second)

-- `parts` of `_compose_top_body`, and its result.
pub top_parts : List Finding → List Finding → List Text
top_parts locationless overflow =
    append_section (section (codes "### Findings without inline location") false locationless)
      (section (codes "### Additional findings (beyond the 50-comment cap)") true overflow)

pub compose_top_body : List Finding → List Finding → Text
unfolding top_parts
compose_top_body locationless overflow = join_lines (top_parts locationless overflow)

unfoldable pub build_payload : List Finding → Text → Payload
unfolding has_location render_inline_body render_bullet build_inline_comment compose_top_body
    decimal join_lines
build_payload findings event =
    let inline_pool = keep has_location findings in
    record {
      event = event;
      body =
          compose_top_body (keep (λ f. not (has_location f)) findings)
            (drop inline_comment_cap inline_pool);
      comments = map build_inline_comment (take inline_comment_cap inline_pool);
    }
