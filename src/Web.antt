-- ===== src/Web.antt =====
-- web/: what the website computes, and the page that sells a session.
pub mod Amounts
pub mod Rent
pub mod Storage
pub mod Wallet
pub mod Tests
