-- ===== src/Protocol/ReadOnly/Replica.antt =====
-- A server in replica mode: the commands that `protocol_execute_command` of src/protocol.c runs there.
use Prim.Native.String.{String}
use mini_kv_db_server.Prelude.{
  ℕ, ◌≡◌, ◌≢◌, refl, true, false, not, ◌&&◌, ◌||◌, Option, none, some, List, [], ◌∷◌, ◌++◌, arith,
  length, if_both, Option-cases, inl, inr, if◌then◌else◌, ◌==◌, ltb,
}
use mini_kv_db_server.Prelude.Int.{ℤ, pos, negsuc}
use mini_kv_db_server.Prelude.Text.{Bytes, bytes}
use mini_kv_db_server.Status.{Status, ok, again, wrong_type, invalid_param, is_ok, code}
use mini_kv_db_server.Env.{library_call}
use mini_kv_db_server.World.{World, ReplicaMode, no_mode, master, replica}
use mini_kv_db_server.Aof.{is_master}
use mini_kv_db_server.Table.Types.{Table}
use mini_kv_db_server.Table.Laws.{IsValid}
use mini_kv_db_server.CString.{c_string}
use mini_kv_db_server.Payload.{Reply, failed, number, negative}
use mini_kv_db_server.Kv.{kv_get, kv_exists}
use mini_kv_db_server.Lists.{kv_llen}
use mini_kv_db_server.Sets.{kv_scard, kv_smembers}
use mini_kv_db_server.Ttl.{kv_pttl, kv_ttl}
use mini_kv_db_server.Rewrite.{kv_sync, kv_bgrewriteaof, start_rewrite}
use mini_kv_db_server.Snapshot.{kv_bgsave}
use mini_kv_db_server.Sync.{SystemCalls, crlf, send, replication_handle_sync}
use mini_kv_db_server.Protocol.Verbs.{
  Verb, sync, ping, quit, save, get, exists, rpop, llen, scard, smembers, ttl, pttl, bgsave,
  bgrewriteaof, unknown, verb_of, is_write,
}
use mini_kv_db_server.Protocol.Replies.{
  Executed, responded, undefined_behaviour, respond, reply, formatted, number_text, value_text,
  count_text, one_argument, no_arguments, with_key, get_reply, counted_reply, members_reply,
  append_members, append_formatted, time_reply,
}
use mini_kv_db_server.Protocol.Commands.{
  sync_reply, save_reply, bgsave_reply, bgrewriteaof_reply, run_command,
}
use mini_kv_db_server.Protocol.{split_command, is_replica, execute_verb, protocol_execute_command}
use mini_kv_db_server.Protocol.ReadOnly.{
  Keeps, Keeps-refl, kv_get-Keeps, kv_exists-Keeps, kv_llen-Keeps, kv_scard-Keeps,
  kv_smembers-Keeps, kv_pttl-Keeps,
}

-- Where the behaviour is defined, the data is what it was.
abbrev pub Leaves : ℕ → Table → Executed → Type 0
Leaves now t (responded r w) = Keeps now t w.table
Leaves now t undefined_behaviour = Unit

module _ (size now : ℕ) (t : Table) where
  reply-Leaves : (msg : String) (w : World) → Keeps now t w.table → Leaves now t (reply msg w)
  unfolding reply respond
  reply-Leaves msg w h = h

  formatted-Leaves :
      (text : Bytes) (w : World) → Keeps now t w.table → Leaves now t (formatted size text w)
  unfolding formatted respond
  formatted-Leaves text w h = h

  get_reply-Leaves :
      (r : Option Bytes × World) → Keeps now t r.1.table → Leaves now t (get_reply size r)
  unfolding get_reply respond
  get_reply-Leaves (none, w) h = reply-Leaves "NOT_FOUND" w h
  get_reply-Leaves (some val, w) h =
      if_both (Leaves now t) (ltb (length (value_text val)) size) (respond (value_text val) w)
        (reply "ERR internal" w) (λ _. h) (λ _. reply-Leaves "ERR internal" w h)

  counted_reply-Leaves :
      (r : Reply × World) → Keeps now t r.1.table → Leaves now t (counted_reply size r)
  unfolding counted_reply
  counted_reply-Leaves (number n, w) h = formatted-Leaves (number_text (pos n)) w h
  counted_reply-Leaves (negative n, w) h =
      if_both (Leaves now t) (n == 10) _ _ (λ _. reply-Leaves "WRONGTYPE" w h)
        (λ _. formatted-Leaves (number_text (negsuc n)) w h)
  counted_reply-Leaves (failed wrong_type, w) h = reply-Leaves "WRONGTYPE" w h
  counted_reply-Leaves (failed status, w) h = formatted-Leaves (number_text (code status)) w h

  time_reply-Leaves :
      (r : Option ℤ × World) → Keeps now t r.1.table → Leaves now t (time_reply size r)
  unfolding time_reply
  time_reply-Leaves (none, w) h = tt
  time_reply-Leaves (some n, w) h = formatted-Leaves (number_text n) w h

  members_reply-Leaves :
      (r : Option (List Bytes) × World)
      → Keeps now t r.1.table
      → Leaves now t (members_reply size r)
  unfolding members_reply respond
  members_reply-Leaves (none, w) h = reply-Leaves "*0" w h
  members_reply-Leaves (some members, w) h =
      elim (Option-cases (
        append_members size members
          (append_formatted size (count_text (length members)) (some [])))) [
            | inl e ↦ rw (e, members_reply) tt
            | inr (text, e) ↦ rw (e, members_reply) h
          ]

  with_key-Leaves :
      (args : Option Bytes) (command : Bytes → Executed) (w : World)
      → Keeps now t w.table
      → ((key : Bytes) → Leaves now t (command key))
      → Leaves now t (with_key args command w)
  unfolding with_key
  with_key-Leaves args command w k h = elim (Option-cases (one_argument args)) [
    | inl e ↦ rw (e, with_key) (reply-Leaves "ERR invalid_arguments" w k)
    | inr (key, e) ↦ rw (e, with_key) (h key)
  ]

  no_arguments-Leaves :
      (args : Option Bytes) (ex : Executed) (w : World)
      → Keeps now t w.table
      → Leaves now t ex
      → Leaves now t (if no_arguments args then ex else reply "ERR invalid_arguments" w)
  no_arguments-Leaves args ex w k h =
      if_both (Leaves now t) (no_arguments args) ex (reply "ERR invalid_arguments" w) (λ _. h)
        (λ _. reply-Leaves "ERR invalid_arguments" w k)

  save_reply-Leaves : (r : Status × World) → Keeps now t r.1.table → Leaves now t (save_reply r)
  unfolding save_reply
  save_reply-Leaves (status, w) h =
      if_both (Leaves now t) (is_ok status) (reply "OK" w) (reply "ERR io_failure" w)
        (λ _. reply-Leaves "OK" w h) (λ _. reply-Leaves "ERR io_failure" w h)

  bgsave_reply-Leaves : (r : Status × World) → Keeps now t r.1.table → Leaves now t (bgsave_reply r)
  unfolding bgsave_reply
  bgsave_reply-Leaves (ok, w) h = reply-Leaves "+Background saving started" w h
  bgsave_reply-Leaves (again, w) h = reply-Leaves "-ERR Background save already in progress" w h
  bgsave_reply-Leaves (_, w) h = reply-Leaves "-ERR Background save failed to start" w h

  bgrewriteaof_reply-Leaves :
      (r : Status × World) → Keeps now t r.1.table → Leaves now t (bgrewriteaof_reply r)
  unfolding bgrewriteaof_reply
  bgrewriteaof_reply-Leaves (ok, w) h =
      reply-Leaves "+Background append only file rewriting started" w h
  bgrewriteaof_reply-Leaves (again, w) h =
      if_both (Leaves now t) (not (w.aof.aof_rewrite_pid == 0))
        (reply "-ERR Background append only file rewriting already in progress" w)
        (reply "-ERR Background save in progress" w)
        (λ _. reply-Leaves "-ERR Background append only file rewriting already in progress" w h)
        (λ _. reply-Leaves "-ERR Background save in progress" w h)
  bgrewriteaof_reply-Leaves (_, w) h = reply-Leaves "-ERR Background rewrite failed to start" w h

-- The calls that leave the table alone.
table-send : (fd : ℕ) (text : Bytes) (w : World) → (send fd text w).table ≡ w.table
unfolding send
table-send fd text w =
    if_both (λ (x : World). x.table ≡ w.table) (library_call w.env).0 _ _ (λ _. refl) (λ _. refl)

replica_only : (m : ReplicaMode) → is_replica m ≡ true → is_master m ≡ false
unfolding is_replica is_master
replica_only no_mode h = refl
replica_only master h = absurd (ground (arith, h))
replica_only replica h = refl

table-replication_handle_sync :
    (calls : SystemCalls) (fd : ℕ) (w : World)
    → is_replica w.replication.mode ≡ true
    → (replication_handle_sync calls fd w).1.table ≡ w.table
unfolding replication_handle_sync
table-replication_handle_sync calls fd w h =
    rw (replica_only w.replication.mode h)
      (table-send fd (bytes "-ERR Server is not a master" ++ crlf) w)

table-kv_sync : (w : World) → (kv_sync w).1.table ≡ w.table
unfolding kv_sync
table-kv_sync w =
    if_both (λ (x : Status × World). x.1.table ≡ w.table) w.env.io_fail _ _ (λ _. refl)
      (λ _. elim (Option-cases w.aof.aof_fp) [ inl e ↦ rw e refl | inr (fp, e) ↦ rw e refl ])

table-kv_bgsave : (fork : Option ℕ) (w : World) → (kv_bgsave fork w).1.table ≡ w.table
unfolding kv_bgsave
table-kv_bgsave none w =
    if_both (λ (x : Status × World). x.1.table ≡ w.table)
      (not (w.aof.bgsave_pid == 0) || not (w.aof.aof_rewrite_pid == 0)) _ _ (λ _. refl) (λ _. refl)
table-kv_bgsave (some pid) w =
    if_both (λ (x : Status × World). x.1.table ≡ w.table)
      (not (w.aof.bgsave_pid == 0) || not (w.aof.aof_rewrite_pid == 0)) _ _ (λ _. refl) (λ _. refl)

table-start_rewrite : (fork : Option ℕ) (w : World) → (start_rewrite fork w).1.table ≡ w.table
unfolding start_rewrite
table-start_rewrite none w = refl
table-start_rewrite (some pid) w = refl

table-kv_bgrewriteaof : (fork : Option ℕ) (w : World) → (kv_bgrewriteaof fork w).1.table ≡ w.table
unfolding kv_bgrewriteaof
table-kv_bgrewriteaof fork w =
    let busy = ltb 0 w.aof.bgsave_pid || ltb 0 w.aof.aof_rewrite_pid in
    elim w.table.aof_path
      as (λ p.
        (elim p as (λ _. Status × World) [
          | none ↦ (invalid_param, w)
          | some path ↦ if busy then (again, w) else start_rewrite fork w
        ]).1.table
        ≡ w.table) [
          | none ↦ refl
          | some path ↦
              if_both (λ (x : Status × World). x.1.table ≡ w.table) busy (again, w)
                (start_rewrite fork w) (λ _. refl) (λ _. table-start_rewrite fork w)
        ]

alone : (now : ℕ) (t : Table) (w : World) → IsValid t → w.table ≡ t → Keeps now t w.table
alone now t w v e = rw e (Keeps-refl now t v)

-- The commands that are not refused, other than RPOP.
run_command-Leaves :
    (size : ℕ) (calls : SystemCalls) (fd : ℕ) (verb : Verb) (args : Option Bytes) (w : World)
    → IsValid w.table
    → is_replica w.replication.mode ≡ true
    → is_write verb ≡ false
    → verb ≢ rpop
    → Leaves calls.now w.table (run_command size calls fd verb args w)
unfolding run_command is_write
run_command-Leaves size calls fd sync args w v m r p =
    unfold sync_reply in
    alone calls.now w.table (replication_handle_sync calls fd w).1 v
      (table-replication_handle_sync calls fd w m)
run_command-Leaves size calls fd ping args w v m r p =
    let k = Keeps-refl calls.now w.table v in
    no_arguments-Leaves size calls.now w.table args (reply "PONG" w) w k
      (reply-Leaves size calls.now w.table "PONG" w k)
run_command-Leaves size calls fd quit args w v m r p =
    let k = Keeps-refl calls.now w.table v in
    no_arguments-Leaves size calls.now w.table args _ w k k
run_command-Leaves size calls fd save args w v m r p =
    let k = Keeps-refl calls.now w.table v in
    no_arguments-Leaves size calls.now w.table args (save_reply (kv_sync w)) w k (
      save_reply-Leaves size calls.now w.table (kv_sync w)
        (alone calls.now w.table (kv_sync w).1 v (table-kv_sync w)))
run_command-Leaves size calls fd get args w v m r p =
    with_key-Leaves size calls.now w.table args _ w (Keeps-refl calls.now w.table v) (λ key.
      get_reply-Leaves size calls.now w.table (kv_get (some key) calls.now w)
        (kv_get-Keeps key calls.now w v))
run_command-Leaves size calls fd exists args w v m r p =
    with_key-Leaves size calls.now w.table args _ w (Keeps-refl calls.now w.table v) (λ key.
      (let x = kv_exists (some key) calls.now w in
        let k = kv_exists-Keeps key calls.now w v in
        if_both (Leaves calls.now w.table) x.0 (reply "EXISTS" x.1) (reply "NOT_FOUND" x.1)
          (λ _. reply-Leaves size calls.now w.table "EXISTS" x.1 k)
          (λ _. reply-Leaves size calls.now w.table "NOT_FOUND" x.1 k)))
run_command-Leaves size calls fd rpop args w v m r p = absurd (p refl)
run_command-Leaves size calls fd llen args w v m r p =
    with_key-Leaves size calls.now w.table args _ w (Keeps-refl calls.now w.table v) (λ key.
      counted_reply-Leaves size calls.now w.table (kv_llen (some key) calls.now w)
        (kv_llen-Keeps key calls.now w v))
run_command-Leaves size calls fd scard args w v m r p =
    with_key-Leaves size calls.now w.table args _ w (Keeps-refl calls.now w.table v) (λ key.
      counted_reply-Leaves size calls.now w.table (kv_scard (some key) calls.now w)
        (kv_scard-Keeps key calls.now w v))
run_command-Leaves size calls fd smembers args w v m r p =
    with_key-Leaves size calls.now w.table args _ w (Keeps-refl calls.now w.table v) (λ key.
      members_reply-Leaves size calls.now w.table (kv_smembers (some key) calls.now w)
        (kv_smembers-Keeps key calls.now w v))
run_command-Leaves size calls fd ttl args w v m r p =
    with_key-Leaves size calls.now w.table args _ w (Keeps-refl calls.now w.table v) (λ key.
      (let x = kv_ttl (some key) calls.now calls.later w in
        time_reply-Leaves size calls.now w.table x
          (unfold kv_ttl in kv_pttl-Keeps key calls.now w v calls.later)))
run_command-Leaves size calls fd pttl args w v m r p =
    with_key-Leaves size calls.now w.table args _ w (Keeps-refl calls.now w.table v) (λ key.
      (let x = kv_pttl (some key) calls.now calls.later w in
        time_reply-Leaves size calls.now w.table x (kv_pttl-Keeps key calls.now w v calls.later)))
run_command-Leaves size calls fd bgsave args w v m r p =
    bgsave_reply-Leaves size calls.now w.table (kv_bgsave calls.fork w)
      (alone calls.now w.table (kv_bgsave calls.fork w).1 v (table-kv_bgsave calls.fork w))
run_command-Leaves size calls fd bgrewriteaof args w v m r p =
    bgrewriteaof_reply-Leaves size calls.now w.table (kv_bgrewriteaof calls.fork w) (
      alone calls.now w.table (kv_bgrewriteaof calls.fork w).1 v
        (table-kv_bgrewriteaof calls.fork w))
run_command-Leaves size calls fd unknown args w v m r p =
    reply-Leaves size calls.now w.table "ERR unknown_command" w (Keeps-refl calls.now w.table v)
run_command-Leaves size calls fd _ args w v m r p = absurd (ground (arith, r))

-- On a server in replica mode with a valid table, a request other than RPOP, if its behaviour is
-- defined, leaves the table valid and every key with the value and the expiry that a reader saw
-- before.
pub protocol_execute_command-Leaves :
    (size : ℕ) (calls : SystemCalls) (fd : ℕ) (line : Bytes) (w : World)
    → IsValid w.table
    → is_replica w.replication.mode ≡ true
    → verb_of (split_command (c_string line)).0 ≢ rpop
    → Leaves calls.now w.table (protocol_execute_command size calls fd line w)
unfolding protocol_execute_command execute_verb
protocol_execute_command-Leaves size calls fd [] w v m p =
    reply-Leaves size calls.now w.table "ERR empty_command" w (Keeps-refl calls.now w.table v)
protocol_execute_command-Leaves size calls fd (c ∷ line) w v m p =
    let (cmd, args) = split_command (c_string (c ∷ line)) in
    let verb = verb_of cmd in
    let k = Keeps-refl calls.now w.table v in
    if_both (Leaves calls.now w.table) (length cmd == 0) _ _
      (λ _. reply-Leaves size calls.now w.table "ERR empty_command" w k)
      (λ _.
        if_both (Leaves calls.now w.table) (is_write verb && is_replica w.replication.mode) _ _
          (λ _.
            reply-Leaves size calls.now w.table "-ERR Server is running in read-only replica mode" w
              k)
          (λ n. run_command-Leaves size calls fd verb args w v m (ground (arith, n, m)) p))
