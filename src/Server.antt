-- ===== src/Server.antt =====
-- src/server.rs, src/users.rs, src/watch.rs: users, and the indexes that the server keeps of them.
pub mod Users
pub mod State
pub mod Indexes
pub mod Watch
pub mod Accept
pub mod Quit
pub mod Departed
pub mod Left
mod Examples
