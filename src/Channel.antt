-- ===== src/Channel.antt =====
-- src/channels.rs: the member record with its prefix modes, the channel modes and the channel.
pub mod Prefixes
pub mod Member
pub mod Modes
pub mod Record
pub mod Masks
mod Examples
