-- ===== src/Storage/Api.antt =====
-- The HTTP interface of module 4: module4-storage/app/main.py and repository/repository.py, over the
-- tables, policies and triggers of migrations/versions/001_initial_schema.py.
pub mod Tables
pub mod Context
pub mod Papers
pub mod Updates
pub mod Reads
pub mod Steps
pub mod Chain
pub mod Changes
pub mod History
pub mod Recorded
pub mod Scope
mod Tests
