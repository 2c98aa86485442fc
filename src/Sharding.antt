-- ===== src/Sharding.antt =====
-- pkg/sharding: entry ids, and the shards of the log.
pub mod EntryId
pub mod Ranges
