-- ===== src/Mode.antt =====
-- src/mode.rs: the handlers of the channel modes.
pub mod Members
pub mod Numerics
pub mod Prefix
pub mod Params
pub mod Hidden
pub mod ListModes
pub mod UserModes
pub mod Handlers
pub mod Dispatch
pub mod UserDispatch
pub mod Letters
pub mod Lookup
pub mod Runs
pub mod Limits
pub mod Stored
pub mod Bounds
pub mod Bans
pub mod Privileges
pub mod Caps
pub mod Reread
pub mod Echo
pub mod Authority
pub mod Ladder
mod Examples
pub mod Samples
