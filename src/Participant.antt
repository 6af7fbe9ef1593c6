-- ===== src/Participant.antt =====
-- internal/participant: runners and their registrations for races.
pub mod Values
pub mod Person
pub mod Registration
pub mod Repository
pub mod Service
pub mod Listing
pub mod Rest
pub mod Notification
