-- ===== src/Auth.antt =====
-- The authentication service (services/auth-service/src). The parent holds no code.
pub mod Calls
pub mod Jwt
pub mod Refresh
pub mod Email
pub mod Stubs
pub mod Memory
pub mod Server
mod Tests
