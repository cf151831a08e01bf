-- ===== src/Indexing/Errors.antt =====
-- backend/src/codesensei/indexing/errors.py, and the exceptions that cross the indexing service.
use codesensei.Common.{Bool}

pub data IndexErrorCategory : Type 0 where
  invalid_input payload_too_large already_indexing clone_failed embedding_failed :
      IndexErrorCategory
  embedding_dimension_mismatch embedding_mismatch delete_during_index : IndexErrorCategory
  queue_unavailable not_found internal : IndexErrorCategory

pub data JobErrorCategory : Type 0 where
  invalid_input queue_unavailable not_found internal : JobErrorCategory

-- What a call may raise: an `IndexError` or a `ProviderError` with its `retryable` flag, a
-- `JobError`, a `RedisError` or `OSError`, or an exception of another class. An error's message is
-- determined by its category and the request, and is left out.
pub data Exc : Type 0 where
  index_error : IndexErrorCategory → Bool → Exc
  provider_error : Bool → Exc
  job_error : JobErrorCategory → Exc
  redis_error : Exc
  other : Exc

pub data Outcome {ℓ} (A : Type ℓ) : Type ℓ where
  ok : A → Outcome A
  raised : Exc → Outcome A
