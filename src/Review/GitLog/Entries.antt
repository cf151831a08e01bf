-- ===== src/Review/GitLog/Entries.antt =====
-- What every entry of the log is like.
use codesensei.Common.{
  ◌≤◌, ◌≡◌, inl, inr, Option, none, some, List, [], ◌∷◌, Text, codes, leb, ◌==◌, length, take, All,
  Bool-cases, has_text, split_on, splitlines, arith, length-append, length-take,
}
use codesensei.Review.Schema.{TemporalEntry, truncate}
use codesensei.Review.GitLog.{entry_of, line_entry, keep_entry, parse_lines, parse_log_records}

-- The hashes have their lengths, and the subject is short enough.
abbrev pub IsLogEntry : TemporalEntry → Type 0
IsLogEntry e = (length e.commit_sha ≡ 40) × (length e.short_sha ≡ 7) × (length e.subject ≤ 120)

length-truncate : (s : Text) → length (truncate 120 s) ≤ 120
length-truncate s = elim (Bool-cases (leb (length s) 120)) [
  | inl le ↦ rw le (ground (arith, le))
  | inr gt ↦ rw gt (omega (arith, length-append (take 119 s) (codes "…"), length-take 119 s))
]

abbrev OptionAll : Option TemporalEntry → Type 0
OptionAll none = Unit
OptionAll (some e) = IsLogEntry e

entry_of-IsLogEntry : (parts : List Text) → OptionAll (entry_of parts)
entry_of-IsLogEntry [] = tt
entry_of-IsLogEntry (a ∷ []) = tt
entry_of-IsLogEntry (a ∷ b ∷ []) = tt
entry_of-IsLogEntry (a ∷ b ∷ c ∷ []) = tt
entry_of-IsLogEntry (a ∷ b ∷ c ∷ d ∷ []) = tt
entry_of-IsLogEntry (sha ∷ short ∷ email ∷ date ∷ subject ∷ []) =
    elim (Bool-cases (length sha == 40)) [
      | inr off ↦ rw off tt
      | inl is_40 ↦ elim (Bool-cases (length short == 7)) [
        | inr off ↦ rw (is_40, off) tt
        | inl is_7 ↦
            rw (is_40, is_7) (ground (arith, is_40), ground (arith, is_7), length-truncate subject)
      ]
    ]
entry_of-IsLogEntry (a ∷ b ∷ c ∷ d ∷ e ∷ f ∷ parts) = tt

line_entry-IsLogEntry : (line : Text) → OptionAll (line_entry line)
line_entry-IsLogEntry line = elim (Bool-cases (has_text line)) [
  | inl text ↦ rw text (entry_of-IsLogEntry (split_on 9 line))
  | inr blank ↦ rw blank tt
]

All-keep_entry :
    (o : Option TemporalEntry) (es : List TemporalEntry)
    → OptionAll o
    → All IsLogEntry es
    → All IsLogEntry (keep_entry o es)
All-keep_entry none es h k = k
All-keep_entry (some e) es h k = (h, k)

All-parse_lines : (lines : List Text) → All IsLogEntry (parse_lines lines)
unfolding parse_lines
All-parse_lines [] = tt
All-parse_lines (line ∷ lines) =
    All-keep_entry (line_entry line) _ (line_entry-IsLogEntry line) (All-parse_lines lines)

-- Every entry that is read from git's log has hashes of 40 and 7 characters and a subject of at most
-- 120.
pub All-parse_log_records : (out : Text) → All IsLogEntry (parse_log_records out)
unfolding parse_log_records
All-parse_log_records out = All-parse_lines (splitlines out)
