-- ===== src/Employees.antt =====
-- src/modules/employee: the employees of employers, their invitation, their link to a consumer, and
-- how much of their salary they may allocate.
pub mod Domain
pub mod Environment
pub mod Repo
pub mod Service
pub mod Runs
pub mod Allocation
pub mod Links
pub mod Invites
pub mod Tests
