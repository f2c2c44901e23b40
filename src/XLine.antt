-- ===== src/XLine.antt =====
-- src/xline.rs: server bans.
pub mod Kinds
pub mod Duration
pub mod Db
pub mod Match
pub mod Table
pub mod Unique
pub mod Refused
pub mod Effects
pub mod Reload
mod Examples
