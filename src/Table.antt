-- ===== src/Table.antt =====
-- The hash table of include/kv.h and src/kv.c: entries in collision chains.
pub mod Types
pub mod Bytes
pub mod Chain
pub mod Ops
pub mod Init
pub mod Locks
pub mod Laws
pub mod Lookup
pub mod Writes
pub mod Resize
pub mod Evict
