-- ===== src/DiskCache.antt =====
-- internal/cache/disk: the sharded cache of responses on disk.
pub mod Shard
pub mod Metadata
pub mod Cache
pub mod Responses
pub mod Offline
mod Tests
