-- ===== src/Table/Types.antt =====
-- The data of include/kv.h: values, entries and the table's own part of `kv_store_t`.
use mini_kv_db_server.Prelude.{ℕ, Bool, Option, List}
use mini_kv_db_server.Prelude.Int.{ℤ}
use mini_kv_db_server.Prelude.Text.{Bytes}

-- `kv_list_t`: the values from head to tail; `count` is kept beside them.
pub record KvList : Type 0 where
  pub nodes : List Bytes
  pub count : ℕ

-- `kv_set_t`: its chains, as many as `bucket_count`.
pub record KvSet : Type 0 where
  pub buckets : List (List Bytes)
  pub count : ℕ

-- The payload with its `kv_type_t`.
pub data Value : Type 0 where
  string : Bytes → Value
  list : KvList → Value
  set_of : KvSet → Value

-- `kv_entry_t`; `next` is the order in the chain.
pub record Entry : Type 0 where
  pub key : Bytes
  pub value : Value
  pub expire_at_ms : ℤ
  pub last_accessed_time : ℕ

-- The fields of `kv_store_t` that describe the table, its limits and its locks. `bucket_count` is
-- the length of `buckets`. The counters count entries and bytes that are on the heap, so the
-- sums that the code forms of them stay below 2 ^ 64.
pub record Table : Type 0 where
  pub buckets : List (List Entry)
  pub size : ℕ
  pub max_capacity : ℕ
  pub allocated_bytes : ℕ
  pub peak_allocated_bytes : ℕ
  pub max_memory_budget : ℕ
  pub auto_resize : Bool
  pub aof_path : Option Bytes
  pub num_locks : ℕ
  pub lock_initialized : Bool
  pub lru_clock : ℕ

-- A pointer to an entry: its bucket, the number of nodes before it, and what it points to.
pub record Found : Type 0 where
  pub index : ℕ
  pub position : ℕ
  pub entry : Entry
