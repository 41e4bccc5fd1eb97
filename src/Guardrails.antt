-- ===== src/Guardrails.antt =====
-- The guardrails of a chat turn (backend/app/guardrails and the services around them).
pub mod Patterns
pub mod Toggled
pub mod Input
pub mod Trips
pub mod Admission
pub mod Output
pub mod Turn
pub mod Covers
pub mod Longest
mod Tests
