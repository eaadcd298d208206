-- ===== src/Transactions.antt =====
-- src/modules/transaction: the transactions that the server books by itself.
pub mod Domain
pub mod Requests
pub mod Environment
pub mod Validation
pub mod Repo
pub mod Processors
pub mod Adjustments
pub mod Payroll
pub mod Service
pub mod Preprocessing
pub mod Saved
pub mod Booked
pub mod Access
mod Tests
