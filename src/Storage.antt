-- ===== src/Storage.antt =====
-- Module 4, the storage consumer and the HTTP interface over its tables (module4-storage).
pub mod Schemas
pub mod Build
pub mod Consumer
pub mod Api
mod Tests
