-- ===== src/BlockWatch.antt =====
-- ethereum/blockwatch: the block watcher. The modules below hold its types and configuration, the
-- canonical chain, the synchronisation, the block ranges and the log queries.
pub mod Types
pub mod Laws
pub mod Chain
pub mod Replay
pub mod Follows
pub mod Linked
pub mod Depth
pub mod Sync
pub mod Synced
pub mod Simple
pub mod Ranges
pub mod Logs
pub mod FastSync
