-- ===== src/Report.antt =====
-- internal/report: the read side, what the admin's panel asks and what the tables answer.
pub mod Filter
pub mod ReadModel
pub mod Ports
pub mod Repository
pub mod Service
pub mod Rest
