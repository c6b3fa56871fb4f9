-- ===== src/Hederakit.antt =====
-- hederakit/src: the sidecar that holds the operator's key. Its key file and its mirror lookups.
pub mod Key
pub mod Ledger
pub mod Commands
pub mod Mirror
mod Tests
