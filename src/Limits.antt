-- ===== src/Limits.antt =====
-- src/modules/transaction/limits.service.ts: what a consumer may spend.
pub mod Domain
pub mod Service
pub mod Check
pub mod Offer
pub mod Selection
mod Tests
