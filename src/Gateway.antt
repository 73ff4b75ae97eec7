-- ===== src/Gateway.antt =====
-- The API gateway (services/api-gateway/src). The parent holds no code.
pub mod Calls
pub mod Authenticate
pub mod Listing
pub mod Alerts
pub mod Audit
pub mod Budgets
pub mod Keys
pub mod Reports
pub mod Usage
pub mod Server
pub mod Tenancy
mod Tests
