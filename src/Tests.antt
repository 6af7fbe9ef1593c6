-- ===== src/Tests.antt =====
-- The library's results at concrete inputs.
mod Data
mod Registrations
mod Sessions
mod Accounts
mod Reports
mod Api
mod Rest
mod Storage
