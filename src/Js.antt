-- ===== src/Js.antt =====
-- What the code uses of JavaScript's own strings, `bigint` and dates.
pub mod Text
pub mod BigInt
pub mod Date
mod Tests
