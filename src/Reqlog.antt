-- ===== src/Reqlog.antt =====
-- crates/yb-reqlog: the request log, a queue and a worker with its database and its shards.
pub mod Disk
pub mod Worker
pub mod Shards
pub mod Logger
