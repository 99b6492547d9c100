-- ===== src/World.antt =====
-- The state that the operations of the store change: the table, the log with the background jobs,
-- the replication list and the environment. A thread that holds the locks sees and changes all of
-- it; the fields of `kv_store_t` are shared out over `Table` and `Aof`.
use mini_kv_db_server.Prelude.{ℕ, Option, List}
use mini_kv_db_server.Prelude.Text.{Bytes}
use mini_kv_db_server.Env.{Env}
use mini_kv_db_server.Table.Types.{Table}

-- An open stream in mode "a+": what the file holds, written out or buffered, and the position
-- that ftell reports, which each write moves to the end.
pub record Stream : Type 0 where
  pub content : Bytes
  pub position : ℕ

-- The fields of `kv_store_t` for the log, the background jobs and the rewrite buffer.
pub record Aof : Type 0 where
  pub aof_fp : Option Stream
  pub durability_level : ℕ
  pub bgsave_pid : ℕ
  pub aof_rewrite_pid : ℕ
  pub aof_rewrite_buf : Option Bytes
  pub aof_rewrite_buf_len : ℕ
  pub aof_rewrite_buf_cap : ℕ

-- `replica_mode_t`.
pub data ReplicaMode : Type 0 where
  no_mode master replica : ReplicaMode

-- `replication_state_t`: the mode and the sockets of the replicas; `sent` is what the calls of
-- send have handed to them, and `closed` the sockets that were closed.
pub record Replication : Type 0 where
  pub mode : ReplicaMode
  pub replicas_head : List ℕ
  pub sent : List (ℕ × Bytes)
  pub closed : List ℕ

pub record World : Type 0 where
  pub table : Table
  pub aof : Aof
  pub replication : Replication
  pub env : Env
