-- ===== src/Dvc.antt =====
-- internal/dvc: point charts, the search for stays, and the filters.
pub mod Types
pub mod Search
pub mod Filters
pub mod Parser
mod Tests
