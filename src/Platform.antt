-- ===== src/Platform.antt =====
-- The services together: what one of them produces and another one reads.
pub mod Tokens
mod Signin
mod Tests
