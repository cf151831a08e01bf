-- ===== src/Posting.antt =====
-- backend/src/codesensei/posting: a review as one GitHub review.
mod Tests
pub mod Mapper
pub mod Client
pub mod PrUrl
pub mod Service
