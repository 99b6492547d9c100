-- ===== src/Protocol/Commands.antt =====
-- reply is copied whole: the buffer has room for it.
use mini_kv_db_server.Prelude.{
  ℕ, Bool, true, false, not, Option, some, [], ◌++◌, ◌==◌, if◌then◌else◌,
}
use mini_kv_db_server.Prelude.Text.{Bytes, bytes}
use mini_kv_db_server.Status.{Status, ok, again, is_ok}
use mini_kv_db_server.World.{World}
use mini_kv_db_server.Kv.{kv_get, kv_exists, kv_delete}
use mini_kv_db_server.Lists.{kv_lpush, kv_rpop, kv_llen}
use mini_kv_db_server.Sets.{kv_sadd, kv_srem, kv_scard, kv_smembers}
use mini_kv_db_server.Ttl.{kv_expire, kv_pexpire, kv_ttl, kv_pttl, kv_persist}
use mini_kv_db_server.Rewrite.{kv_sync, kv_bgrewriteaof}
use mini_kv_db_server.Snapshot.{kv_bgsave}
use mini_kv_db_server.Sync.{SystemCalls, crlf, replication_handle_sync}
use mini_kv_db_server.Protocol.Verbs.{
  Verb, sync, ping, quit, save, get, exists, delete, lpush, rpop, llen, sadd, srem, scard, smembers,
  set, expire, pexpire, ttl, pttl, persist, bgsave, bgrewriteaof, unknown,
}
use mini_kv_db_server.Protocol.Replies.{
  Executed, checked_reply, counted_reply, delete_reply, formatted, get_reply, int_of, members_reply,
  no_arguments, number_text, pop_reply, reply, responded, run_expire, run_reply, run_set,
  time_reply, with_key, with_key_and_value,
}

unfoldable pub sync_reply : Bool × World → Executed
sync_reply (started, w) =
    responded (record { text = []; out_close = not started; out_detach = started }) w

unfoldable pub save_reply : Status × World → Executed
unfolding reply
save_reply (status, w) = if is_ok status then reply "OK" w else reply "ERR io_failure" w

unfoldable pub bgsave_reply : Status × World → Executed
unfolding reply
bgsave_reply (ok, w) = reply "+Background saving started" w
bgsave_reply (again, w) = reply "-ERR Background save already in progress" w
bgsave_reply (status, w) = reply "-ERR Background save failed to start" w

unfoldable pub bgrewriteaof_reply : Status × World → Executed
unfolding reply
bgrewriteaof_reply (ok, w) = reply "+Background append only file rewriting started" w
bgrewriteaof_reply (again, w) =
    if not (w.aof.aof_rewrite_pid == 0)
    then reply "-ERR Background append only file rewriting already in progress" w
    else reply "-ERR Background save in progress" w
bgrewriteaof_reply (status, w) = reply "-ERR Background rewrite failed to start" w

unfoldable pub execute_sync : SystemCalls → ℕ → World → Executed
unfolding sync_reply
execute_sync calls client_fd w = sync_reply (replication_handle_sync calls client_fd w)

unfoldable pub execute_ping : Option Bytes → World → Executed
unfolding reply no_arguments
execute_ping args w = if no_arguments args then reply "PONG" w else reply "ERR invalid_arguments" w

unfoldable pub execute_quit : Option Bytes → World → Executed
unfolding no_arguments reply
execute_quit args w =
    if no_arguments args
    then responded (record { text = bytes "BYE" ++ crlf; out_close = true; out_detach = false }) w
    else reply "ERR invalid_arguments" w

unfoldable pub execute_save : Option Bytes → World → Executed
unfolding no_arguments save_reply reply
execute_save args w =
    if no_arguments args then save_reply (kv_sync w) else reply "ERR invalid_arguments" w

unfoldable pub execute_get : ℕ → SystemCalls → Option Bytes → World → Executed
unfolding with_key get_reply
execute_get size calls args w =
    with_key args (λ key. get_reply size (kv_get (some key) calls.now w)) w

unfoldable pub execute_exists : SystemCalls → Option Bytes → World → Executed
unfolding with_key reply
execute_exists calls args w =
    with_key args
      (λ key.
        (let (found, w₁) = kv_exists (some key) calls.now w in
          if found then reply "EXISTS" w₁ else reply "NOT_FOUND" w₁))
      w

unfoldable pub execute_delete : Option Bytes → World → Executed
unfolding with_key delete_reply
execute_delete args w = with_key args (λ key. delete_reply (kv_delete (some key) w)) w

unfoldable pub execute_lpush : ℕ → SystemCalls → Option Bytes → World → Executed
unfolding with_key_and_value run_reply
execute_lpush size calls args w =
    with_key_and_value args
      (λ key value. run_reply size (kv_lpush (some key) (some value) calls.now w)) w

unfoldable pub execute_rpop : ℕ → SystemCalls → Option Bytes → World → Executed
unfolding with_key pop_reply
execute_rpop size calls args w =
    with_key args (λ key. pop_reply size (kv_rpop (some key) calls.now w)) w

unfoldable pub execute_llen : ℕ → SystemCalls → Option Bytes → World → Executed
unfolding with_key counted_reply
execute_llen size calls args w =
    with_key args (λ key. counted_reply size (kv_llen (some key) calls.now w)) w

unfoldable pub execute_sadd : ℕ → SystemCalls → Option Bytes → World → Executed
unfolding with_key_and_value run_reply
execute_sadd size calls args w =
    with_key_and_value args
      (λ key value. run_reply size (kv_sadd (some key) (some value) calls.now w)) w

unfoldable pub execute_srem : ℕ → SystemCalls → Option Bytes → World → Executed
unfolding with_key_and_value checked_reply
execute_srem size calls args w =
    with_key_and_value args
      (λ key value. checked_reply size (kv_srem (some key) (some value) calls.now w)) w

unfoldable pub execute_scard : ℕ → SystemCalls → Option Bytes → World → Executed
unfolding with_key counted_reply
execute_scard size calls args w =
    with_key args (λ key. counted_reply size (kv_scard (some key) calls.now w)) w

unfoldable pub execute_smembers : ℕ → SystemCalls → Option Bytes → World → Executed
unfolding with_key members_reply
execute_smembers size calls args w =
    with_key args (λ key. members_reply size (kv_smembers (some key) calls.now w)) w

unfoldable pub execute_set : Option Bytes → World → Executed
unfolding run_set
execute_set args w = run_set args w

unfoldable pub execute_expire : ℕ → SystemCalls → Option Bytes → World → Executed
unfolding run_expire
execute_expire size calls args w = run_expire size calls kv_expire args w

unfoldable pub execute_pexpire : ℕ → SystemCalls → Option Bytes → World → Executed
unfolding run_expire
execute_pexpire size calls args w = run_expire size calls kv_pexpire args w

unfoldable pub execute_ttl : ℕ → SystemCalls → Option Bytes → World → Executed
unfolding with_key time_reply
execute_ttl size calls args w =
    with_key args (λ key. time_reply size (kv_ttl (some key) calls.now calls.later w)) w

unfoldable pub execute_pttl : ℕ → SystemCalls → Option Bytes → World → Executed
unfolding with_key time_reply
execute_pttl size calls args w =
    with_key args (λ key. time_reply size (kv_pttl (some key) calls.now calls.later w)) w

unfoldable pub execute_persist : ℕ → SystemCalls → Option Bytes → World → Executed
unfolding with_key formatted
execute_persist size calls args w =
    with_key args
      (λ key.
        (let (result, w₁) = kv_persist (some key) calls.now w in
          formatted size (number_text (int_of result)) w₁))
      w

unfoldable pub execute_bgsave : SystemCalls → World → Executed
unfolding bgsave_reply
execute_bgsave calls w = bgsave_reply (kv_bgsave calls.fork w)

unfoldable pub execute_bgrewriteaof : SystemCalls → World → Executed
unfolding bgrewriteaof_reply
execute_bgrewriteaof calls w = bgrewriteaof_reply (kv_bgrewriteaof calls.fork w)

unfoldable pub run_command : ℕ → SystemCalls → ℕ → Verb → Option Bytes → World → Executed
unfolding reply execute_sync execute_ping execute_quit execute_save execute_get execute_exists
    execute_delete execute_lpush execute_rpop execute_llen execute_sadd execute_srem execute_scard
    execute_smembers execute_set execute_expire execute_pexpire execute_ttl execute_pttl
    execute_persist execute_bgsave execute_bgrewriteaof
run_command size calls client_fd sync args w = execute_sync calls client_fd w
run_command size calls client_fd ping args w = execute_ping args w
run_command size calls client_fd quit args w = execute_quit args w
run_command size calls client_fd save args w = execute_save args w
run_command size calls client_fd get args w = execute_get size calls args w
run_command size calls client_fd exists args w = execute_exists calls args w
run_command size calls client_fd delete args w = execute_delete args w
run_command size calls client_fd lpush args w = execute_lpush size calls args w
run_command size calls client_fd rpop args w = execute_rpop size calls args w
run_command size calls client_fd llen args w = execute_llen size calls args w
run_command size calls client_fd sadd args w = execute_sadd size calls args w
run_command size calls client_fd srem args w = execute_srem size calls args w
run_command size calls client_fd scard args w = execute_scard size calls args w
run_command size calls client_fd smembers args w = execute_smembers size calls args w
run_command size calls client_fd set args w = execute_set args w
run_command size calls client_fd expire args w = execute_expire size calls args w
run_command size calls client_fd pexpire args w = execute_pexpire size calls args w
run_command size calls client_fd ttl args w = execute_ttl size calls args w
run_command size calls client_fd pttl args w = execute_pttl size calls args w
run_command size calls client_fd persist args w = execute_persist size calls args w
run_command size calls client_fd bgsave args w = execute_bgsave calls w
run_command size calls client_fd bgrewriteaof args w = execute_bgrewriteaof calls w
run_command size calls client_fd unknown args w = reply "ERR unknown_command" w
