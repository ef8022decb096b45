-- ===== src/View.antt =====
-- What one caller may see of a gated service (src/plexus/view.rs).
pub mod Schema
pub mod Described
pub mod Shape
pub mod Decide
pub mod Reading
pub mod Agreement
pub mod Meaning
pub mod Refines
pub mod Usable
pub mod Told
pub mod TellsMethods
pub mod Tells
pub mod Door
pub mod Cache
pub mod Shells
mod Tests
