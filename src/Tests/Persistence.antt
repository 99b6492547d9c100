-- ===== src/Tests/Persistence.antt =====
-- The theorems on the log, its rewrite, snapshots, replication, the protocol and the requests, at concrete values.
use mini_kv_db_server.Prelude.{
  ℕ, ◌+◌, ◌<◌, ◌≡◌, ◌≢◌, refl, ap, true, false, some, List, [], ◌∷◌, ◌++◌, arith, length, All,
}
use mini_kv_db_server.Prelude.Int.{pos}
use mini_kv_db_server.Prelude.Text.{bytes, str_eq}
use mini_kv_db_server.Key.{hash_key, validate_key, bounded_strlen, has_space, validate_value}
use mini_kv_db_server.Table.Types.{string, list, Entry}
use mini_kv_db_server.Table.Ops.{entry_is_expired}
use mini_kv_db_server.Table.Laws.{view, view_of}
use mini_kv_db_server.Table.Chain.{lookup}
use mini_kv_db_server.World.{World, replica}
use mini_kv_db_server.CString.{c_string, strchr}
use mini_kv_db_server.Kv.{kv_get}
use mini_kv_db_server.Kv.ReadAfterWrite.{is_stale}
use mini_kv_db_server.Replay.{and_then, replay_aof_log}
use mini_kv_db_server.Replay.Changes.{
  Change, set, lpush, expire_at, delete, apply_all, log_of, IsKey, IsText, IsLoggable,
}
use mini_kv_db_server.Replay.Changes.Log.{replay_aof_log-log_of}
use mini_kv_db_server.Rewrite.{rewrite_dump}
use mini_kv_db_server.Rewrite.Dump.{dump_changes}
use mini_kv_db_server.Rewrite.Merge.{replay_aof_log-rewrite_dump}
use mini_kv_db_server.Snapshot.{snapshot_of}
use mini_kv_db_server.Snapshot.Load.{kv_load_snapshot}
use mini_kv_db_server.Snapshot.Load.File.{saved}
use mini_kv_db_server.Snapshot.Load.Restore.{IsSaved, restore_all, kv_load_snapshot-snapshot_of}
use mini_kv_db_server.Sync.{SystemCalls}
use mini_kv_db_server.Sync.Stream.{receive, receive-append}
use mini_kv_db_server.Protocol.Verbs.{rpop, verb_of, find_verb}
use mini_kv_db_server.Protocol.Replies.{
  respond, reply, value_text, members_reply, undefined_behaviour,
}
use mini_kv_db_server.Protocol.{is_replica, split_command, protocol_execute_command}
use mini_kv_db_server.Protocol.Bounds.{Fits, may_fault, protocol_execute_command-Fits}
use mini_kv_db_server.Protocol.Members.{whole_reply, members_reply_lem}
use mini_kv_db_server.Protocol.ReadOnly.Replica.{Leaves, protocol_execute_command-Leaves}
use mini_kv_db_server.Protocol.Wire.{set_request, get_request, set_request-get_request}
use mini_kv_db_server.Startup.{kv_init_full}
use mini_kv_db_server.Startup.Outcome.{StartOutcome, kv_init_full-StartOutcome}
use mini_kv_db_server.Server.{Serving, client_handle_read}
use mini_kv_db_server.Server.Framing.{Queued, client_handle_read-Queued}
use mini_kv_db_server.ThreadPool.{fresh_pool}
use mini_kv_db_server.Tests.{
  quiet, with_two_replicas, name, ada, grace, capital, start, named, start-IsValid, named-IsValid,
  named_lem,
}

name-IsKey : IsKey name
unfolding validate_key bounded_strlen has_space
name-IsKey = (refl, (omega arith, tt))

ada-IsText : IsText ada
unfolding validate_value bounded_strlen
ada-IsText = (refl, ((omega arith, omega arith), tt), refl)

abbrev history : List Change
history = set name ada ∷ lpush name ada ∷ expire_at name (pos 9000) ∷ delete name ∷ []

history-IsLoggable : All IsLoggable history
history-IsLoggable = (
  (name-IsKey, ada-IsText),
  ((name-IsKey, ada-IsText), ((name-IsKey, omega arith), (name-IsKey, tt))),
)

replay_aof_log-log_of_example :
    replay_aof_log (some (log_of history)) 7 (start 0) ≡ apply_all history 7 (start 0)
replay_aof_log-log_of_example = replay_aof_log-log_of history 7 (start 0) history-IsLoggable

abbrev one_entry : List (List Entry)
one_entry =
    (record { key = name; value = string ada; expire_at_ms = pos 9000; last_accessed_time = 1 }
      ∷ [])
    ∷ []
    ∷ []

dumped-IsLoggable : All IsLoggable (dump_changes 7 one_entry)
unfolding entry_is_expired
dumped-IsLoggable = ((name-IsKey, ada-IsText), ((name-IsKey, omega arith), tt))

replay_aof_log-rewrite_dump_example :
    replay_aof_log (some (rewrite_dump 7 one_entry ++ log_of (delete name ∷ []))) 8 (start 0)
    ≡ and_then (apply_all (dump_changes 7 one_entry) 8 (start 0)) (apply_all (delete name ∷ []) 8)
replay_aof_log-rewrite_dump_example =
    replay_aof_log-rewrite_dump 7 8 one_entry (delete name ∷ []) (start 0) dumped-IsLoggable
      (name-IsKey, tt)

-- A rewrite by the child 9, while which a key was deleted.
abbrev rewriting : World
rewriting = record (start 0) {
  table = record (start 0).table { aof_path = some (bytes "a.log") };
  aof = record (start 0).aof {
    aof_rewrite_pid = 9;
    aof_rewrite_buf = some (bytes "DELETE" ++ (9 ∷ (name ++ 10 ∷ [])));
    aof_rewrite_buf_len = 7 + (length name + 1);
    aof_rewrite_buf_cap = 4096;
  };
}

-- A string that expires, and a list.
abbrev two_entries : List (List Entry)
two_entries =
    (record { key = name; value = string ada; expire_at_ms = pos 9000; last_accessed_time = 1 }
      ∷ record {
        key = capital;
        value = list (record { nodes = grace ∷ ada ∷ []; count = 2 });
        expire_at_ms = pos 0;
        last_accessed_time = 2;
      }
      ∷ [])
    ∷ []

two_entries-IsSaved : All IsSaved (saved 7 two_entries)
two_entries-IsSaved = (
  ((omega arith, (omega arith, tt)), (omega arith, (omega arith, tt)), (9000, refl, omega arith)),
  (
    (
      (omega arith, (omega arith, tt)),
      (
        ((omega arith, (omega arith, tt)), ((omega arith, (omega arith, (omega arith, tt))), tt)),
        refl,
        omega arith,
      ),
      (0, refl, omega arith),
    ),
    tt,
  ),
)

kv_load_snapshot-snapshot_of_example :
    kv_load_snapshot 8 (some (snapshot_of 7 two_entries)) (start 0)
    ≡ restore_all 8 (saved 7 two_entries) (start 0)
kv_load_snapshot-snapshot_of_example =
    kv_load_snapshot-snapshot_of 7 8 two_entries (start 0) two_entries-IsSaved

receive-append_example :
    receive (bytes "k\ta\n") (receive (bytes "SET\t") (some ([], start 0)))
    ≡ receive (bytes "SET\t" ++ bytes "k\ta\n") (some ([], start 0))
receive-append_example =
    receive-append (bytes "SET\t") (bytes "k\ta\n") [] (start 0) (omega arith) (omega arith)
      (omega arith)

abbrev calls : SystemCalls
calls = record {
  now = 7;
  later = 8;
  fork = some 9;
  exited_with_zero = true;
  snapshot = some (bytes "MINIKV01");
}

abbrev buffer : ℕ
buffer = 16384

protocol_execute_command-Fits_example :
    Fits buffer
      (may_fault (verb_of (split_command (c_string (bytes "GET k"))).0))
      (protocol_execute_command buffer calls 5 (bytes "GET k") (named 0))
protocol_execute_command-Fits_example =
    protocol_execute_command-Fits buffer calls 5 (bytes "GET k") (named 0) (omega arith)

abbrev replica_server : World
replica_server = record (named 0) { replication = record (named 0).replication { mode = replica } }

replica_lem : is_replica replica_server.replication.mode ≡ true
unfolding is_replica
replica_lem = refl

master_lem : is_replica (start 0).replication.mode ≡ false
unfolding is_replica
master_lem = refl

not_rpop : verb_of (split_command (c_string (bytes "GET k"))).0 ≢ rpop
unfolding verb_of find_verb str_eq split_command strchr c_string
not_rpop = λ e. ground (arith, e)

protocol_execute_command-Leaves_example :
    Leaves 7
      (named 0).table
      (protocol_execute_command buffer calls 5 (bytes "GET k") replica_server)
protocol_execute_command-Leaves_example =
    protocol_execute_command-Leaves buffer calls 5 (bytes "GET k") replica_server (named-IsValid 0)
      replica_lem not_rpop

empty_lem : is_stale (view (start 0).table name) 7 ≡ false
unfolding view_of lookup hash_key
empty_lem = refl

set_request-get_request_example :
    (protocol_execute_command buffer calls 5 (set_request name ada) (start 0)
      ≡ reply "OK" (named 0))
    × (protocol_execute_command buffer calls 6 (get_request name) (named 0)
        ≡ respond (value_text ada) (kv_get (some name) 7 (named 0)).1)
set_request-get_request_example =
    set_request-get_request buffer 5 6 calls calls name ada (start 0) (named 0) (start-IsValid 0)
      master_lem name-IsKey (omega arith, tt) (omega arith) (omega arith)
      (ap (λ s. (s, named 0)) named_lem) empty_lem

members_reply_lem_example :
    (length (whole_reply (ada ∷ grace ∷ [])) < buffer
      → members_reply buffer (some (ada ∷ grace ∷ []), named 0)
        ≡ respond (whole_reply (ada ∷ grace ∷ [])) (named 0))
    × (buffer < length (whole_reply (ada ∷ grace ∷ []))
        → members_reply buffer (some (ada ∷ grace ∷ []), named 0) ≡ undefined_behaviour)
members_reply_lem_example = members_reply_lem buffer (ada ∷ grace ∷ []) (named 0)

abbrev serving : Serving
serving = record {
  client = record {
    fd = 5;
    read_buf = bytes "PI";
    cmd_queue = ada ∷ [];
    task_in_flight = false;
    closed = false;
    ref_count = 1;
  };
  pool = fresh_pool 2 3;
  env = quiet;
}

client_handle_read-Queued_example :
    Queued
      (bytes "PING" ∷ [])
      (bytes "QU")
      serving
      (client_handle_read (bytes "NG\r" ∷ bytes "\nQU" ∷ []) true serving)
client_handle_read-Queued_example =
    client_handle_read-Queued (bytes "NG\r" ∷ bytes "\nQU" ∷ []) (bytes "PING" ∷ []) (bytes "QU")
      serving refl (omega arith) refl
      (((omega arith, (omega arith, (omega arith, (omega arith, tt)))), omega arith), tt)
      (omega arith, (omega arith, tt)) (omega arith)

kv_init_full-StartOutcome_example :
    StartOutcome 4 3 0 (bytes "a.log") history (some 0) 7 with_two_replicas quiet (
      kv_init_full 4 3 0
        (some (bytes "a.log"))
        (some (log_of history))
        (some 0)
        7
        with_two_replicas
        quiet)
kv_init_full-StartOutcome_example =
    kv_init_full-StartOutcome 4 3 0 (bytes "a.log") history (some 0) 7 with_two_replicas quiet
      history-IsLoggable
