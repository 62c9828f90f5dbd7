-- ===== src/Auth.antt =====
-- Authentication: sessions with a rotating refresh secret, and the reset of a password.
pub mod Session
pub mod Access
pub mod Exchange
pub mod Refresh
pub mod Guards
pub mod Login
mod Tests
