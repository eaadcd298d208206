-- ===== src/Payrolls.antt =====
-- The payrolls of src/modules/employer: their life and its changes.
pub mod Domain
pub mod Environment
pub mod Service
pub mod Steps
pub mod History
pub mod Prepared
pub mod Tests
