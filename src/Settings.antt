-- ===== src/Settings.antt =====
-- The runtime settings that an administrator changes (backend/app/api/settings.py).
pub mod Row
pub mod Trail
pub mod Update
pub mod Accepted
pub mod Replay
pub mod Audited
pub mod Configured
pub mod Dashboard
pub mod Counted
mod Tests
