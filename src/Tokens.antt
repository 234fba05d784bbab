-- ===== src/Tokens.antt =====
-- services/src: tokens and sessions.
pub mod Libraries
pub mod Jwt
pub mod Sessions
