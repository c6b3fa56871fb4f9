-- ===== src/Web/Rent.antt =====
-- web/components/rent: the page that sells a session. What it asks for, what it shows, and the
-- session that it follows.
pub mod Terms
pub mod Session
pub mod Form
pub mod Panel
pub mod Flow
mod Tests
