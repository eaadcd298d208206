-- ===== src/Circle.antt =====
-- src/modules/circle: the wallets of consumers at Circle, and the cache of their balances.
pub mod Domain
pub mod Environment
pub mod Assumptions
pub mod Runs
pub mod Repo
pub mod Client
pub mod Service
pub mod Cache
pub mod Debit
pub mod DebitEffects
pub mod Credit
pub mod CreditEffects
pub mod Transfer
pub mod TransferEffects
pub mod Wallets
pub mod Checks
pub mod Sample
pub mod SampleLaws
mod Tests
