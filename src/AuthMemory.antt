-- ===== src/AuthMemory.antt =====
-- The in-memory store behind the `auth` activation (src/plexus/auth_memory.rs): its roles, its
-- memberships, and its backend of sign-ins and sessions. A lock's holder is one step.
pub mod Roles
pub mod Memberships
pub mod Backend
pub mod Flows
pub mod Tokens
pub mod Laws
pub mod Sessions
pub mod Derived
mod Tests
