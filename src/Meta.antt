-- ===== src/Meta.antt =====
-- The metadata server, APIs/ms/metadata_server.c, which connects clients and file servers.
pub mod Json
pub mod Join
pub mod Store
pub mod Database
pub mod Server
pub mod Sync
pub mod Callback
pub mod Routing
pub mod Replies
pub mod Status
pub mod Reporting
pub mod Writing
pub mod Rounds
pub mod Repositories
pub mod Outer
pub mod Diff
