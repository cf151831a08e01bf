-- ===== src/Indexing.antt =====
-- backend/src/codesensei/indexing: chunking, the token cap, and the life of a repository row.
pub mod Queries
pub mod Retrieval
pub mod Chunk
pub mod Sliding
pub mod TokenCap
pub mod Errors
pub mod Store
pub mod Source
pub mod Fill
pub mod Lifecycle
