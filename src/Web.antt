-- ===== src/Web.antt =====
-- The browser application (apps/web/src), its state and its requests. The parent holds no code.
pub mod Store
pub mod Theme
pub mod Api
pub mod Signin
pub mod Signup
pub mod AlertsPage
pub mod Overview
pub mod KeysPage
pub mod CostPage
pub mod UsagePage
pub mod BudgetsPage
pub mod Sidebar
pub mod ReportsPage
pub mod AuditPage
pub mod Registration
mod Tests
