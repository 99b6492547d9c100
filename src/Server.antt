-- ===== src/Server.antt =====
-- The requests of a client: `client_handle_read` of src/server.c. What the calls of recv give is a list of
-- chunks, none of which is empty or longer than the room that is left; a task in the pool is the client's socket.
pub mod Framing
use mini_kv_db_server.Prelude.{
  ℕ, zero, suc, ◌+◌, Bool, true, false, ◌&&◌, not, Option, none, some, List, [], ◌∷◌, ◌++◌, ◌==◌,
  leb, ltb, if◌then◌else◌, length,
}
use mini_kv_db_server.Prelude.Text.{Bytes}
use mini_kv_db_server.Status.{is_ok}
use mini_kv_db_server.Env.{Env, library_call}
use mini_kv_db_server.CString.{strchr}
use mini_kv_db_server.ThreadPool.{Pool, thread_pool_submit}

abbrev pub server_read_buf_size : ℕ
server_read_buf_size = 16384

abbrev pub server_max_line_len : ℕ
server_max_line_len = 8192

-- `server_client_t`: `read_buf` holds the bytes that are valid; the queue is in its order.
pub record Client : Type 0 where
  pub fd : ℕ
  pub read_buf : Bytes
  pub cmd_queue : List Bytes
  pub task_in_flight : Bool
  pub closed : Bool
  pub ref_count : ℕ

-- A client with the server's pool.
pub record Serving : Type 0 where
  pub client : Client
  pub pool : Pool ℕ
  pub env : Env

-- recv until it has nothing; `drained` says that it ends with EAGAIN, and not with an error or the end.
unfoldable pub receive_all : List Bytes → Bool → Bytes → Option Bytes
receive_all [] drained read_buf =
    if length read_buf == server_read_buf_size
    then none
    else if drained
    then some read_buf
    else none
receive_all (chunk ∷ chunks) drained read_buf =
    let more = receive_all chunks drained (read_buf ++ chunk) in
    if length read_buf == server_read_buf_size then none else more

-- One carriage return before the newline goes.
unfoldable pub strip_cr : Bytes → Bytes
strip_cr [] = []
strip_cr (c ∷ line) = elim line [
  | [] ↦ if c == b'\r' then [] else c ∷ []
  | d ∷ rest ↦ c ∷ strip_cr line
]

-- A task for the client, unless one is there or the client is closed.
unfoldable pub submit_client : Serving → Serving
unfolding thread_pool_submit
submit_client s =
    if not s.client.task_in_flight && not s.client.closed
    then (let (status, pool) = thread_pool_submit (some s.client.fd) s.pool in
        if is_ok status
        then record s {
          client = record s.client { task_in_flight = true; ref_count = s.client.ref_count + 1 };
          pool = pool;
        }
        else record s { pool = pool })
    else s

-- The command at the tail of the queue, and the buffer without its line.
unfoldable pub enqueue : Bytes → Bytes → Serving → Serving
unfolding submit_client
enqueue command rest s = submit_client (record s {
  client = record s.client { read_buf = rest; cmd_queue = s.client.cmd_queue ++ command ∷ [] };
})

-- The lines of the buffer; each round takes a newline away. The Boolean is false where -1 is returned.
unfoldable pub split_lines : ℕ → Serving → Bool × Serving
unfolding strip_cr enqueue library_call
split_lines zero s = (false, s)
split_lines (suc fuel) s = elim (strchr b'\n' s.client.read_buf) [
  | none ↦ (ltb (length s.client.read_buf) server_max_line_len, s)
  | some (line, rest) ↦
      if ltb server_max_line_len (length line)
      then (false, s)
      else let (given, env) = library_call s.env in
        let s₁ = record s { env = env } in
        if given then split_lines fuel (enqueue (strip_cr line) rest s₁) else (false, s₁)
]

unfoldable pub client_handle_read : List Bytes → Bool → Serving → Bool × Serving
unfolding receive_all split_lines
client_handle_read chunks drained s = elim (receive_all chunks drained s.client.read_buf) [
  | none ↦ (false, s)
  | some buf ↦
      split_lines (suc (length buf)) (record s { client = record s.client { read_buf = buf } })
]
