-- ===== src/Wire.antt =====
-- How the pipe writes an item's JSON (src/plexus/wire/json.rs).
pub mod Scan
pub mod Writer
pub mod Serializer
mod Tests
