-- ===== src/ExchangeRates.antt =====
-- src/modules/exchangerate: the rates of exchange, their storing and their lookup.
pub mod Domain
pub mod Environment
pub mod Repo
pub mod Service
pub mod Lookup
pub mod Creation
pub mod Threshold
pub mod Rounds
pub mod Completeness
pub mod Tests
