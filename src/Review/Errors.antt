-- ===== src/Review/Errors.antt =====
-- backend/src/codesensei/review/errors.py: `ReviewErrorCategory` and `ReviewError`. The message is
-- left out; `retry_after_seconds` is kept.
use codesensei.Common.{ℤ, Bool, Option, none}

pub data ReviewErrorCategory : Type 0 where
  invalid_input payload_too_large github_fetch_failed provider_unavailable : ReviewErrorCategory
  provider_malformed_output settings_locked repo_not_ready embedding_mismatch : ReviewErrorCategory
  github_auth_failed github_pr_not_found github_review_rejected : ReviewErrorCategory
  github_api_unavailable github_rate_limited internal : ReviewErrorCategory

pub record ReviewError : Type 0 where
  pub category : ReviewErrorCategory
  pub retryable : Bool
  pub retry_after_seconds : Option ℤ

-- An error with no time to wait.
abbrev pub review_error : ReviewErrorCategory → Bool → ReviewError
review_error c r = record { category = c; retryable = r; retry_after_seconds = none }

-- The end of a call: a value, a `ReviewError`, or an exception of another class.
pub data Result {ℓ} (A : Type ℓ) : Type ℓ where
  ok : A → Result A
  raised : ReviewError → Result A
  raised_other : Result A
