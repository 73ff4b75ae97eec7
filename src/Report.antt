-- ===== src/Report.antt =====
-- The report service (services/report-service/src). The parent holds no code.
pub mod Calls
pub mod Csv
pub mod Generate
pub mod Pdf
pub mod Schedule
pub mod Server
mod Tests
