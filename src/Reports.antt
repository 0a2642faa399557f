-- ===== src/Reports.antt =====
-- Module 6, report generation (module6-reports/app).
pub mod Generation
pub mod Access
mod Tests
