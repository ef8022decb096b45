-- ===== src/Remote.antt =====
-- A service's link to a child process (src/plexus/remote_child/link.rs).
pub mod Lines
pub mod Routes
pub mod Conn
pub mod Message
pub mod Link
pub mod Window
pub mod Restarts
mod Quiet
mod Waits
pub mod Gone
mod Tests
