-- ===== src/Review/Schema.antt =====
-- backend/src/codesensei/review/schema.py: the finding that the parser builds.
use codesensei.Common.{ℕ, ◌-◌, ℤ, Option, List, ◌++◌, Text, codes, leb, if◌then◌else◌, length, take}

pub data Severity : Type 0 where
  blocker major minor nit : Severity

-- `severity.value`.
abbrev pub severity_value : Severity → Text
severity_value blocker = codes "blocker"
severity_value major = codes "major"
severity_value minor = codes "minor"
severity_value nit = codes "nit"

pub data Verdict : Type 0 where
  approve request_changes comment : Verdict

pub record TemporalEntry : Type 0 where
  pub commit_sha : Text
  pub short_sha : Text
  pub author_email : Text
  pub author_date : Text
  pub subject : Text
  pub hunk_lines_changed : ℕ

pub record Finding : Type 0 where
  pub file : Text
  pub line : Option ℤ
  pub severity : Severity
  pub message : Text
  pub suggestion : Option Text
  pub temporal_context : Option (List TemporalEntry)

-- `_truncate`; the ellipsis is one character.
abbrev pub truncate : ℕ → Text → Text
truncate limit value =
    if leb (length value) limit then value else take (limit - 1) value ++ codes "…"
