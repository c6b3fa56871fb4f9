-- ===== src/Types.antt =====
-- packages/types/src: the shapes that the components share.
pub mod Node
pub mod Session
pub mod X402
