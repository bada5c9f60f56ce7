-- ===== src/Access.antt =====
-- Who may use the API: internal/auth, and the gates of internal/api in front of its handlers.
pub mod Limiter
pub mod Client
pub mod Crypto
pub mod Password
pub mod Totp
pub mod Token
pub mod Accounts
pub mod Jwt
pub mod Session
pub mod Login
