-- ===== src/Link.antt =====
-- src/link.rs: decisions of the link between servers.
pub mod Collision
pub mod Bursts
mod Examples
