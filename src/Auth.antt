-- ===== src/Auth.antt =====
-- Signing in and single-use keys: src/modules/auth and src/modules/bootstrap-token.
pub mod Bootstrap
pub mod Invites
pub mod TwoFactor
pub mod Passwords
pub mod Resets
mod Tests
