-- ===== src/Sync.antt =====
-- Replication of src/replication.c besides the broadcast: the set-up, the transfer of a snapshot to a
-- replica, and the stream of records that a replica reads. What the calls of fork, waitpid and fopen
-- give is an argument.
pub mod Stream
use mini_kv_db_server.Prelude.{
  ℕ, zero, suc, ◌+◌, ◌-◌, ◌*◌, Bool, true, false, ◌&&◌, Option, none, some, List, [], ◌∷◌, ◌++◌,
  ◌==◌, ltb, not, if◌then◌else◌, length, take, drop,
}
use mini_kv_db_server.Prelude.Int.{ℤ, pos, negsuc}
use mini_kv_db_server.Prelude.Text.{Bytes, bytes}
use mini_kv_db_server.Status.{Status, is_ok}
use mini_kv_db_server.Env.{library_call}
use mini_kv_db_server.World.{ReplicaMode, no_mode, master, replica, Replication, World}
use mini_kv_db_server.Aof.{is_master}
use mini_kv_db_server.Ttl.{print_int64}
use mini_kv_db_server.Snapshot.{kv_bgsave}

abbrev pub crlf : Bytes
crlf = b'\r' ∷ b'\n' ∷ []

-- The results of the system calls that one command may make.
pub record SystemCalls : Type 0 where
  pub now : ℕ
  pub later : ℕ
  pub fork : Option ℕ
  pub exited_with_zero : Bool
  pub snapshot : Option Bytes

-- A master has no address of another master.
unfoldable pub replication_init : Option Bytes → ℕ → Replication
replication_init master_host master_port = record {
  mode = elim master_host [
    | none ↦ master
    | some host ↦ if ltb 0 master_port then replica else master
  ];
  replicas_head = [];
  sent = [];
  closed = [];
}

unfoldable pub replication_add_replica : ℕ → World → World
unfolding is_master
replication_add_replica socket_fd w =
    if is_master w.replication.mode
    then (let (given, env) = library_call w.env in
        let r =
          (if given
            then record w.replication { replicas_head = socket_fd ∷ w.replication.replicas_head }
            else w.replication) in
        record w { replication = r; env = env })
    else w

-- A call of send, whose result is not looked at: a text arrives whole or not at all.
unfoldable pub send : ℕ → Bytes → World → World
send socket_fd text w =
    let (given, env) = library_call w.env in
    if given
    then record w {
      replication = record w.replication { sent = w.replication.sent ++ ((socket_fd, text) ∷ []) };
      env = env;
    }
    else record w { env = env }

-- The file in pieces of at most 4096 bytes; each round reads at least one byte.
unfoldable pub send_file : ℕ → ℕ → Bytes → World → World
unfolding send
send_file zero socket_fd content w = w
send_file (suc fuel) socket_fd [] w = w
send_file (suc fuel) socket_fd (b ∷ content) w =
    send_file fuel socket_fd (drop 4096 (b ∷ content)) (send socket_fd (take 4096 (b ∷ content)) w)

abbrev pub clear_bgsave : World → World
clear_bgsave w = record w { aof = record w.aof { bgsave_pid = 0 } }

-- After the child has ended.
unfoldable pub send_snapshot : SystemCalls → ℕ → World → Bool × World
unfolding send send_file replication_add_replica
send_snapshot calls socket_fd w =
    if calls.exited_with_zero
    then elim calls.snapshot [
      | none ↦ (false, send socket_fd (bytes "-ERR Could not open snapshot" ++ crlf) w)
      | some content ↦
          let header = bytes "+SNAPSHOT " ++ (print_int64 (pos (length content)) ++ crlf) in
          (
            true,
            replication_add_replica socket_fd
                (send_file (length content) socket_fd content (send socket_fd header w)),
          )
    ]
    else (false, send socket_fd (bytes "-ERR BGSAVE failed" ++ crlf) w)

-- Whether it returns 0.
unfoldable pub replication_handle_sync : SystemCalls → ℕ → World → Bool × World
unfolding is_master send send_snapshot kv_bgsave
replication_handle_sync calls socket_fd w =
    if is_master w.replication.mode
    then (let (status, w₁) = kv_bgsave calls.fork w in
        if is_ok status
        then send_snapshot calls socket_fd (clear_bgsave w₁)
        else (false, send socket_fd (bytes "-ERR Failed to start BGSAVE" ++ crlf) w₁))
    else (false, send socket_fd (bytes "-ERR Server is not a master" ++ crlf) w)
