-- ===== src/Pomelo.antt =====
-- src/modules/pomelo: the webhooks by which Pomelo asks for the authorization of card transactions.
pub mod Domain
pub mod Environment
pub mod Repo
pub mod Signature
pub mod Answers
pub mod Steps
pub mod Authorize
pub mod Adjust
pub mod Debited
pub mod Approved
pub mod Assumptions
pub mod Guards
pub mod Webhooks
pub mod Keeping
pub mod Stored
pub mod Replay
pub mod Sample
pub mod Tests
