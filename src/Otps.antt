-- ===== src/Otps.antt =====
-- The one-time passwords of src/modules/common: their service and their table.
pub mod Environment
pub mod Service
pub mod Checks
pub mod Tests
