-- ===== src/Search.antt =====
-- Module 5, search (module5-search/app).
pub mod Rrf
pub mod Repository
pub mod Access
pub mod Service
mod Tests
