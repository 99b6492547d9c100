-- ===== src/Table/Locks.antt =====
-- The choice of the lock of a key: `kv_lock_index` of src/kv.c.
use mini_kv_db_server.Prelude.{ℕ, Option, none, some, ◌==◌, if◌then◌else◌}
use mini_kv_db_server.Prelude.Text.{Bytes}
use mini_kv_db_server.Key.{hash_key}
use mini_kv_db_server.Table.Types.{Table}

unfoldable pub kv_lock_index : Option Bytes → Table → ℕ
kv_lock_index none store = 0
kv_lock_index (some key) store = if store.num_locks == 0 then 0 else hash_key key store.num_locks
