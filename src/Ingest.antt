-- ===== src/Ingest.antt =====
-- Module 2, the email ingestion worker (module2-email-worker/app).
pub mod Mail
pub mod Domain
pub mod Dedup
pub mod Scan
pub mod Upload
pub mod Event
pub mod Worker
mod Tests
