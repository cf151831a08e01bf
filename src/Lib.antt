-- ===== src/Lib.antt =====
-- Verification of the CodeSensei backend (backend/src/codesensei), a service that indexes
-- repositories into chunks with embeddings and reviews diffs with a language model.
--
-- The parts, and the files that model them:
--
-- - Common models Python's `str` as the list of its code points, with the methods that the backend
--   calls (strip, split, splitlines, join), `dict` with texts for keys, `int` of a text, JSON values,
--   and lists over native numbers.
-- - Indexing/Chunk, Indexing/Sliding models indexing/chunker.py, the language of a path and the sliding
--   window. The `while` loop takes fuel; one round more than there are lines is enough, since each
--   round moves by at least one line.
-- - Indexing/TokenCap models `_enforce_chunk_token_cap` and `_split_chunk_recursive` of
--   indexing/service.py over any tokenizer. The fuel counts nested calls, and running out of it
--   stands for Python's RecursionError.
-- - Indexing/Store models indexing/models.py and indexing/store.py, the rows of `repositories` and
--   `code_chunks` as a value, with the statements that change them. The row of a repository whose
--   chunks are replaced is there, as the foreign key of the chunks demands.
-- - Indexing/Source models `normalise_source` of indexing/clone.py.
-- - Indexing/Fill models `_fill_repo` of indexing/service.py, a pass from the chunks of the tree to the
--   replaced rows. The provider, the tokenizer and the walk of the tree are parameters.
-- - Indexing/Lifecycle models registration, deletion and the worker's entry point of
--   indexing/service.py, with `enqueue_index_repo` of tasks/enqueue.py.
-- - Review/Windows, Review/GitLog, Review/Temporal and Review/CloneCache model review/git_temporal.py:
--   the windows of a diff, the readers of git's output, the collection of a review's history, and
--   the cache of clones. How git, the clone and the tasks end, the clock and SHA-1 are parameters.
-- - Review/Hunks and Review/Attach model `_extract_rhs_hunks` and `_attach_temporal_context` of
--   review/service.py.
-- - Indexing/Queries and Indexing/Retrieval model indexing/retrieval.py: the queries of a diff, and the
--   search of the store's chunks with its token budget. pgvector's distance is a parameter; distances
--   and scores are whole numbers of a fixed unit in place of floats.
-- - Review/Errors, Review/Schema models the records of review/errors.py and review/schema.py;
--   Review/Parser models review/parser.py with the validators of `Finding` over JSON values. What the
--   JSON and the validation libraries decide is a parameter.
-- - Review/DiffFetch models review/github_diff.py and the checks of `ReviewRequest` in review/schema.py;
--   Review/Prompt models review/prompt.py without the system's message, a constant; Review/Pricing
--   models review/pricing.py with prices in cents and costs in millionths of a dollar.
-- - Review/RunParts and Review/Pipeline model the other functions of review/service.py: a run is the
--   stages that it announces, how it ends, and the history it leaves. Whether a provider is
--   configured, how its chat, the store's transactions and git's tasks end, and how the clock goes is
--   one record of parameters. Review/Job models review/tasks.py, the job around a run with the
--   frames that it publishes.
-- - Posting/Mapper models posting/mapper.py, the payload of a review; Posting/Client models
--   posting/client.py, what GitHub's answer to a call comes to; Posting/PrUrl and Posting/Service
--   model posting/service.py with its retry. The answers, the token's setting and what Unicode's
--   database says of digits and of lower case are parameters.
-- - History models the tables and the operations of reviews_history/models.py and
--   reviews_history/store.py, where their statements succeed; that an insertion or a prune fails is
--   a case of the caller, `persist_run` of Review/RunParts.
--
-- How they interact: `dispatch` registers a row in the store and asks the queue for a job; the
-- worker runs `run_for_existing_repo`, which checks the source out, chunks it, caps the chunks,
-- embeds them in batches and replaces the rows in one transaction. Exceptions are values of
-- `Exc`; an operation returns its outcome beside the database that it leaves. A review's job runs
-- the pipeline, which searches the indexed chunks, collects the history of the diff's windows, asks
-- the model, parses its answer and stores the run in the history. Posting a review
-- builds the payload from the findings, calls GitHub once or twice, and returns its result beside
-- the calls made and the line logged.
--
-- Not modelled: the web layer, logging but for the line that posting emits, the progress frames of
-- a pass, git and network calls, the text of error messages (the column `last_error` holds the
-- error's category), the other parts of the backend (the chunkers but for the sliding window, the
-- settings, the providers, the streams of frames), and the frontend.
pub mod Common
pub mod History
pub mod Indexing
pub mod Posting
pub mod Review
