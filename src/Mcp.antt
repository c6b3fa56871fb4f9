-- ===== src/Mcp.antt =====
-- packages/mcp-server/src: the tools by which an agent rents compute, and what limits its spending.
pub mod World
pub mod Payer
pub mod Receipt
pub mod Credentials
pub mod Config
pub mod Limits
pub mod Client
pub mod Payload
pub mod Tools
pub mod Search
pub mod Tests
