-- ===== src/Client/Browser.antt =====
-- client/src/browser: what a renter's browser does with keys and payments.
pub mod Base64
pub mod SshKey
pub mod Signer
