-- ===== src/Auth.antt =====
-- internal/auth: sessions by refresh tokens, access tokens, and the guard of the admin's routes.
pub mod Token
pub mod Library
pub mod Security
pub mod Jwt
pub mod Repository
pub mod Service
pub mod Middleware
pub mod Rest
