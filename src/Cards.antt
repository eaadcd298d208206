-- ===== src/Cards.antt =====
-- The card transactions of src/modules/pomelo on the wallets of src/modules/circle.
pub mod Server
pub mod Wallets
pub mod Payments
pub mod Tests
