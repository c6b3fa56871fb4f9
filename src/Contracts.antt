-- ===== src/Contracts.antt =====
-- contracts/contracts: the contracts in Solidity.
pub mod Escrow
mod Tests
