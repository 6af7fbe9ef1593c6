-- ===== src/User.antt =====
-- internal/user: the admin's accounts.
pub mod Entity
pub mod Repository
pub mod Service
pub mod Rest
