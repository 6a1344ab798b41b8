-- ===== src/Auth.antt =====
-- Signing in and sessions (api-server/internal/auth).
pub mod World
pub mod Repo
pub mod Otp
pub mod Tokens
pub mod Service
pub mod Sessions
pub mod Suspended
pub mod Lock
mod Tests
pub mod Guess
