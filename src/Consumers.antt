-- ===== src/Consumers.antt =====
-- src/modules/consumer: the consumers, their handles, contacts and standing.
pub mod Handles
pub mod Domain
pub mod Environment
pub mod Lookup
pub mod Service
pub mod Characters
pub mod Names
pub mod Standing
pub mod Contacts
pub mod Generation
pub mod Passwords
pub mod Updates
pub mod Tests
