-- ===== src/Mono.antt =====
-- src/modules/mono: payouts to bank accounts, payments over links, and the bank's webhook.
pub mod Domain
pub mod Environment
pub mod Repo
pub mod Service
pub mod Webhook
pub mod Assumptions
pub mod Payments
pub mod Withdrawals
pub mod Matching
pub mod Funding
pub mod Events
pub mod Sample
pub mod Tests
