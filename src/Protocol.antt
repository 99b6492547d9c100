-- ===== src/Protocol.antt =====
-- `protocol_execute_command` of src/protocol.c: a request line becomes calls of the store and a reply.
pub mod Verbs
pub mod Replies
pub mod Commands
pub mod Bounds
pub mod Members
pub mod ReadOnly
pub mod Wire
use mini_kv_db_server.Prelude.{
  ℕ, Bool, true, false, ◌&&◌, Option, none, some, List, [], ◌∷◌, ◌==◌, if◌then◌else◌, length,
}
use mini_kv_db_server.Prelude.Text.{Bytes}
use mini_kv_db_server.World.{ReplicaMode, no_mode, master, replica, World}
use mini_kv_db_server.CString.{c_string, strchr}
use mini_kv_db_server.Sync.{SystemCalls}
use mini_kv_db_server.Protocol.Verbs.{Verb, verb_of, is_write}
use mini_kv_db_server.Protocol.Replies.{Executed, reply}
use mini_kv_db_server.Protocol.Commands.{run_command}

-- The command and what follows the first space, if there is one.
unfoldable pub split_command : Bytes → Bytes × Option Bytes
split_command line = elim (strchr b' ' line) [
  | none ↦ (line, none)
  | some (cmd, args) ↦ (cmd, some args)
]

unfoldable pub is_replica : ReplicaMode → Bool
is_replica replica = true
is_replica _ = false

unfoldable pub execute_verb : ℕ → SystemCalls → ℕ → Verb → Option Bytes → World → Executed
unfolding reply is_write is_replica run_command
execute_verb resp_buf_size calls client_fd verb args w =
    if is_write verb && is_replica w.replication.mode
    then reply "-ERR Server is running in read-only replica mode" w
    else run_command resp_buf_size calls client_fd verb args w

-- `line` is the `len` bytes of the request; the code reads them as a C string.
unfoldable pub protocol_execute_command : ℕ → SystemCalls → ℕ → Bytes → World → Executed
unfolding split_command execute_verb reply verb_of
protocol_execute_command resp_buf_size calls client_fd [] w = reply "ERR empty_command" w
protocol_execute_command resp_buf_size calls client_fd (c ∷ line) w =
    let (cmd, args) = split_command (c_string (c ∷ line)) in
    if length cmd == 0
    then reply "ERR empty_command" w
    else execute_verb resp_buf_size calls client_fd (verb_of cmd) args w
