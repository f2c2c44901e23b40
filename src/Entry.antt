-- ===== src/Entry.antt =====
-- src/channels.rs: who may come in to a channel, and `join` as a whole.
pub mod Bans
pub mod Doors
pub mod Denied
pub mod Join
pub mod Asked
pub mod Rounds
pub mod Arrived
pub mod Examples
