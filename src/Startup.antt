-- ===== src/Startup.antt =====
-- `kv_init_full` of src/kv.c with a log, and the settings of a store: what a server does before its first
-- command.
pub mod Outcome
use mini_kv_db_server.Prelude.{
  ℕ, ◌+◌, ◌≡◌, ap, ◌∙◌, Bool, true, false, ◌&&◌, Option, none, some, List, ltb, if◌then◌else◌,
  length, All,
}
use mini_kv_db_server.Prelude.Text.{Bytes}
use mini_kv_db_server.Status.{Status, ok, internal, budget_exceeded, io}
use mini_kv_db_server.Env.{Env, tracked_malloc}
use mini_kv_db_server.World.{Aof, Replication, World}
use mini_kv_db_server.Table.Types.{Table}
use mini_kv_db_server.Table.Resize.{raise_peak}
use mini_kv_db_server.Table.Init.{kv_init_with_budget}
use mini_kv_db_server.Kv.{or_empty}
use mini_kv_db_server.Payload.{Run, returned, use_after_free}
use mini_kv_db_server.Replay.{replay_aof_log}
use mini_kv_db_server.Replay.Changes.{Change, apply_all, log_of, IsLoggable}
use mini_kv_db_server.Replay.Changes.Log.{replay_aof_log-log_of}

-- The fields for the log and the background jobs; the level is KV_DURABILITY_FLUSH.
abbrev pub fresh_aof : Aof
fresh_aof = record {
  aof_fp = none;
  durability_level = 1;
  bgsave_pid = 0;
  aof_rewrite_pid = 0;
  aof_rewrite_buf = none;
  aof_rewrite_buf_len = 0;
  aof_rewrite_buf_cap = 0;
}

-- The copy of the path is counted.
unfoldable pub with_path : Bytes → Table → Table
unfolding raise_peak
with_path path t =
    raise_peak
      (record t { aof_path = some path; allocated_bytes = t.allocated_bytes + (length path + 1) })

-- The state before the replay.
abbrev pub started : Table → Replication → Env → World
started t r env = record { table = t; aof = fresh_aof; replication = r; env = env }

-- fopen in mode "a+" after the replay: the position that ftell reports, or none for a failure.
unfoldable pub open_log : Option ℕ → Option Bytes → Run World → Run (Status × Option World)
open_log reopened log use_after_free = use_after_free
open_log reopened log (returned w) = elim reopened [
  | none ↦ returned (io, none)
  | some position ↦ returned (
    ok,
    some (record w {
      aof = record w.aof { aof_fp = some (record { content = or_empty log; position = position }) };
    }),
  )
]

-- `log` is what the file at the path holds, or none if there is no file. A store that could not be made is not
-- returned.
unfoldable pub init_with_log :
    ℕ
    → Bytes
    → Option Bytes
    → Option ℕ
    → ℕ
    → Replication
    → Table
    → Env
    → Run (Status × Option World)
unfolding with_path open_log tracked_malloc replay_aof_log
init_with_log max_memory_budget path log reopened now r t env =
    if ltb 0 max_memory_budget && ltb max_memory_budget (t.allocated_bytes + (length path + 1))
    then returned (budget_exceeded, none)
    else let (given, env₁) = tracked_malloc env in
      if given
      then open_log reopened log (replay_aof_log log now (started (with_path path t) r env₁))
      else returned (internal, none)

-- After the buckets and the locks.
unfoldable pub init_path :
    ℕ
    → Option Bytes
    → Option Bytes
    → Option ℕ
    → ℕ
    → Replication
    → Status × Option Table × Env
    → Run (Status × Option World)
unfolding init_with_log
init_path max_memory_budget path log reopened now r (status, none, env) = returned (status, none)
init_path max_memory_budget none log reopened now r (status, some t, env) =
    returned (ok, some (started t r env))
init_path max_memory_budget (some path) log reopened now r (status, some t, env) =
    init_with_log max_memory_budget path log reopened now r t env

unfoldable pub kv_init_full :
    ℕ
    → ℕ
    → ℕ
    → Option Bytes
    → Option Bytes
    → Option ℕ
    → ℕ
    → Replication
    → Env
    → Run (Status × Option World)
unfolding kv_init_with_budget init_path
kv_init_full bucket_count max_capacity max_memory_budget path log reopened now r env =
    init_path max_memory_budget path log reopened now r
      (kv_init_with_budget bucket_count max_capacity max_memory_budget env)

unfoldable pub kv_set_auto_resize : Bool → World → World
kv_set_auto_resize enabled w = record w { table = record w.table { auto_resize = enabled } }

unfoldable pub kv_set_max_capacity : ℕ → World → World
kv_set_max_capacity max_capacity w = record w {
  table = record w.table { max_capacity = max_capacity };
}

unfoldable pub kv_set_memory_budget : ℕ → World → World
kv_set_memory_budget budget_bytes w = record w {
  table = record w.table { max_memory_budget = budget_bytes };
}
