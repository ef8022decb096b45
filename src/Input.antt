-- ===== src/Input.antt =====
-- The input half of a call (src/plexus/input.rs): the ledger of what the handler has consumed, a
-- connection's table of open halves, what the handler reads, and the flow of one call's items.
pub mod Ledger
pub mod Table
pub mod Frames
pub mod Reader
pub mod Flow
mod Tests
