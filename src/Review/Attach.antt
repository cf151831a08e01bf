-- ===== src/Review/Attach.antt =====
-- backend/src/codesensei/review/service.py: `_attach_temporal_context`, and the validation of
-- review/schema.py's `TemporalEntry` that it runs.
pub mod Laws
pub mod Tests
use codesensei.Common.{
  ℕ, ℤ, pos, negsuc, Bool, true, false, ◌&&◌, Option, none, some, List, [], ◌∷◌, Text, leb, ◌==◌,
  if◌then◌else◌, length, all, map, is_empty,
}
use codesensei.Common.Dict.{get}
use codesensei.Review.Schema.{TemporalEntry, Finding, truncate}
use codesensei.Review.Windows.{LineWindow}
use codesensei.Review.Temporal.{Found, Pool}

-- The bounds of the fields' lengths.
abbrev pub is_valid_entry : TemporalEntry → Bool
is_valid_entry e =
    length e.commit_sha == 40
    && length e.short_sha == 7
    && leb 1 (length e.author_email)
    && leb (length e.author_email) 254
    && leb 1 (length e.author_date)
    && leb 1 (length e.subject)

-- The validator of the subject.
abbrev pub shortened : TemporalEntry → TemporalEntry
shortened e = record e { subject = truncate 120 e.subject }

-- `TemporalEntry(**asdict(entry))` for every entry; none is a `ValidationError`.
abbrev pub validated : List TemporalEntry → Option (List TemporalEntry)
validated es = if all is_valid_entry es then some (map shortened es) else none

abbrev pub holds_line : LineWindow → Option ℤ → Bool
holds_line w none = false
holds_line w (some (negsuc n)) = false
holds_line w (some (pos n)) = leb w.start_line n && leb n w.end_line

-- The first window that holds the line and has entries.
abbrev pub first_window : Option ℤ → List Found → Option Found
first_window line [] = none
first_window line ((w, []) ∷ ws) = first_window line ws
first_window line ((w, e ∷ es) ∷ ws) =
    let rest = first_window line ws in if holds_line w line then some (w, e ∷ es) else rest

abbrev pub window_of : Pool → Finding → Option Found
window_of pool f = elim (get f.file pool) [ none ↦ none | some ws ↦ first_window f.line ws ]

abbrev with_entries : Finding → Option (List TemporalEntry) → Option Finding
with_entries f none = none
with_entries f (some es) = some (record f { temporal_context = some es })

abbrev attach_window : Finding → Option Found → Option Finding
attach_window f none = some f
attach_window f (some (w, es)) = with_entries f (validated es)

abbrev pub attach_one : Pool → Finding → Option Finding
attach_one pool f = attach_window f (window_of pool f)

abbrev cons_finding : Option Finding → Option (List Finding) → Option (List Finding)
cons_finding none fs = none
cons_finding (some f) none = none
cons_finding (some f) (some fs) = some (f ∷ fs)

-- The findings after the loop; none where a validation raises.
unfoldable pub attach_temporal_context : Pool → List Finding → Option (List Finding)
attach_temporal_context pool [] = some []
attach_temporal_context pool (f ∷ fs) =
    cons_finding (attach_one pool f) (attach_temporal_context pool fs)
