-- ===== src/Race.antt =====
-- internal/race: the local snapshot of the races that the CMS manages.
pub mod Entity
pub mod Repository
pub mod Service
pub mod Rest
