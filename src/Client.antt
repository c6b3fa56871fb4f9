-- ===== src/Client.antt =====
-- client/src: the renter's own side of a payment.
pub mod Browser
pub mod Escrow
pub mod Payment
mod Tests
