-- ===== src/Extract.antt =====
-- Module 3, the AI extraction worker (module3-ai-worker/app).
pub mod Schemas
pub mod Truth
pub mod Routing
pub mod Tiers
pub mod Cascade
pub mod Payload
pub mod Verification
pub mod Directory
pub mod Event
pub mod Pipeline
mod Tests
