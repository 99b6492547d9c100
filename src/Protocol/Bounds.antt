-- ===== src/Protocol/Bounds.antt =====
-- The length of the replies of src/protocol.c.
use Prim.Native.String.{String}
use mathlib.Core.Path.{subst}
use mini_kv_db_server.Prelude.{
  ℕ, zero, suc, ◌+◌, ◌-◌, not, ◌≤◌, ◌≡◌, refl, Bool, true, false, ◌&&◌, Option, none, some, List,
  [], ◌∷◌, ◌++◌, arith, length, length-append, take, ltb, leb, ◌==◌, if_both, Option-cases, inl,
  inr, if◌then◌else◌,
}
use mini_kv_db_server.Prelude.Int.{ℤ, pos, negsuc}
use mini_kv_db_server.Prelude.Text.{Bytes, bytes}
use mini_kv_db_server.Status.{
  Status, ok, not_found, internal, invalid_param, key_too_long, val_too_long, empty_key,
  key_whitespace, capacity_full, budget_exceeded, again, wrong_type, code, is_ok,
}
use mini_kv_db_server.World.{World}
use mini_kv_db_server.Key.{max_key_len, max_value_len}
use mini_kv_db_server.Kv.{kv_get, kv_exists, kv_delete, kv_set}
use mini_kv_db_server.Lists.{kv_lpush, kv_rpop, kv_llen}
use mini_kv_db_server.Sets.{kv_sadd, kv_srem, kv_scard, kv_smembers}
use mini_kv_db_server.Ttl.{kv_expire, kv_pexpire, kv_ttl, kv_pttl, kv_persist}
use mini_kv_db_server.Rewrite.{kv_sync, kv_bgrewriteaof}
use mini_kv_db_server.Snapshot.{kv_bgsave}
use mini_kv_db_server.Payload.{Reply, failed, number, negative, Run, returned, use_after_free}
use mini_kv_db_server.CString.{c_string, strchr}
use mini_kv_db_server.Sync.{SystemCalls, crlf, replication_handle_sync}
use mini_kv_db_server.Protocol.Verbs.{
  Verb, sync, ping, quit, save, get, exists, delete, lpush, rpop, llen, sadd, srem, scard, smembers,
  set, expire, pexpire, ttl, pttl, persist, bgsave, bgrewriteaof, unknown, verb_of, is_write,
}
use mini_kv_db_server.Protocol.Replies.{
  Executed, responded, undefined_behaviour, respond, reply, formatted, with_key, with_key_and_value,
  get_reply, delete_reply, run_reply, checked_reply, counted_reply, pop_reply, members_reply,
  run_set, set_reply, run_expire, append_formatted, append_members, value_text, number_text,
  one_argument, key_and_value, no_arguments, member_text, int_of, count_text, positive_number,
  Expiry, expire_after, int_reply, time_reply,
}
use mini_kv_db_server.Protocol.Commands.{
  sync_reply, save_reply, bgsave_reply, bgrewriteaof_reply, run_command,
}
use mini_kv_db_server.Protocol.{split_command, is_replica, execute_verb, protocol_execute_command}

-- The commands whose behaviour may be undefined.
abbrev pub may_fault : Verb → Bool
may_fault lpush = true
may_fault sadd = true
may_fault smembers = true
may_fault expire = true
may_fault pexpire = true
may_fault ttl = true
may_fault pttl = true
may_fault _ = false

-- A reply fits the buffer; undefined behaviour is left to some commands.
abbrev pub Fits : ℕ → Bool → Executed → Type 0
Fits size faults (responded r w) = length r.text ≤ size
Fits size faults undefined_behaviour = faults ≡ true

pub take_short : (n : ℕ) (s : Bytes) → length (take n s) ≤ n
take_short zero s = omega arith
take_short (suc n) [] = omega arith
take_short (suc n) (c ∷ s) = omega (arith, take_short n s)

-- What is written stays inside the buffer.
abbrev Within : ℕ → Option Bytes → Type 0
Within size none = Unit
Within size (some buf) = length buf ≤ size

append_formatted-Within :
    (size : ℕ)
    → 1 ≤ size
    → (text : Bytes) (out : Option Bytes) → Within size (append_formatted size text out)
unfolding append_formatted
append_formatted-Within size one text none = tt
append_formatted-Within size one text (some buf) =
    let written = length buf + length text in
    let last = take (size - 1) (buf ++ text) ++ 0 ∷ [] in
    let tail : Within size (if written == size then some last else none) =
      if_both (Within size) (written == size) (some last) none
        (λ h.
          let n = take_short (size - 1) (buf ++ text) in
          omega (arith, n, one, length-append (take (size - 1) (buf ++ text)) (0 ∷ [])))
        (λ h. tt) in
    if_both (Within size) (ltb written size) (some (buf ++ text))
      (if written == size then some last else none) (λ h. ground (arith, h, length-append buf text))
      (λ h. tail)

append_members-Within :
    (size : ℕ)
    → 1 ≤ size
    → (members : List Bytes) (out : Option Bytes) → Within size out
    → Within size (append_members size members out)
unfolding append_members
append_members-Within size one [] out h = h
append_members-Within size one (m ∷ members) out h =
    append_members-Within size one members (append_formatted size (member_text m) out)
      (append_formatted-Within size one (member_text m) out)

module _ (size : ℕ) (room : 128 ≤ size) (faults : Bool) where
  reply-Fits :
      (msg : String) (w : World)
      → leb (length (bytes msg)) 126 ≡ true
      → Fits size faults (reply msg w)
  unfolding reply respond
  reply-Fits msg w h = ground (arith, h, room, length-append (bytes msg) crlf)

  formatted-Fits : (text : Bytes) (w : World) → Fits size faults (formatted size text w)
  unfolding formatted respond
  formatted-Fits text w =
      if_both (λ t. length t ≤ size) (ltb (length text) size) text [] (λ h. ground (arith, h))
        (λ h. omega arith)

  get_reply-Fits : (r : Option Bytes × World) → Fits size faults (get_reply size r)
  unfolding get_reply respond
  get_reply-Fits (none, w) = reply-Fits "NOT_FOUND" w refl
  get_reply-Fits (some val, w) =
      if_both (Fits size faults) (ltb (length (value_text val)) size) (respond (value_text val) w)
        (reply "ERR internal" w) (λ h. ground (arith, h)) (λ h. reply-Fits "ERR internal" w refl)

  delete_reply-Fits : (r : Status × World) → Fits size faults (delete_reply r)
  unfolding delete_reply
  delete_reply-Fits (ok, w) = reply-Fits "DELETED" w refl
  delete_reply-Fits (not_found, w) = reply-Fits "NOT_FOUND" w refl
  delete_reply-Fits (invalid_param, w) = reply-Fits "ERR invalid_arguments" w refl
  delete_reply-Fits (empty_key, w) = reply-Fits "ERR invalid_arguments" w refl
  delete_reply-Fits (key_whitespace, w) = reply-Fits "ERR invalid_arguments" w refl
  delete_reply-Fits (internal, w) = reply-Fits "ERR internal" w refl
  delete_reply-Fits (_, w) = reply-Fits "ERR internal" w refl

  checked_reply-Fits : (r : Reply × World) → Fits size faults (checked_reply size r)
  unfolding checked_reply code
  checked_reply-Fits (number n, w) = formatted-Fits (number_text (pos n)) w
  checked_reply-Fits (negative n, w) =
      if_both (Fits size faults) (n == 10) _ _ (λ _. reply-Fits "WRONGTYPE" w refl)
        (λ _. reply-Fits "ERR internal" w refl)
  checked_reply-Fits (failed wrong_type, w) = reply-Fits "WRONGTYPE" w refl
  checked_reply-Fits (failed ok, w) = formatted-Fits (number_text (pos 0)) w
  checked_reply-Fits (failed not_found, w) = formatted-Fits (number_text (pos 1)) w
  checked_reply-Fits (failed _, w) = reply-Fits "ERR internal" w refl

  counted_reply-Fits : (r : Reply × World) → Fits size faults (counted_reply size r)
  unfolding counted_reply
  counted_reply-Fits (number n, w) = formatted-Fits (number_text (pos n)) w
  counted_reply-Fits (negative n, w) =
      if_both (Fits size faults) (n == 10) _ _ (λ _. reply-Fits "WRONGTYPE" w refl)
        (λ _. formatted-Fits (number_text (negsuc n)) w)
  counted_reply-Fits (failed wrong_type, w) = reply-Fits "WRONGTYPE" w refl
  counted_reply-Fits (failed status, w) = formatted-Fits (number_text (code status)) w

  pop_reply-Fits : (r : Status × Option Bytes × World) → Fits size faults (pop_reply size r)
  unfolding pop_reply code
  pop_reply-Fits (wrong_type, popped, w) = reply-Fits "WRONGTYPE" w refl
  pop_reply-Fits (ok, none, w) = reply-Fits "$-1" w refl
  pop_reply-Fits (not_found, none, w) = reply-Fits "$-1" w refl
  pop_reply-Fits (_, none, w) = reply-Fits "ERR internal" w refl
  pop_reply-Fits (ok, some value, w) = formatted-Fits (value_text value) w
  pop_reply-Fits (not_found, some value, w) = formatted-Fits (value_text value) w
  pop_reply-Fits (_, some value, w) = reply-Fits "ERR internal" w refl

  set_reply-Fits : (r : Status × World) → Fits size faults (set_reply r)
  unfolding set_reply
  set_reply-Fits (ok, w) = reply-Fits "OK" w refl
  set_reply-Fits (capacity_full, w) = reply-Fits "ERR capacity_full" w refl
  set_reply-Fits (budget_exceeded, w) = reply-Fits "ERR budget_exceeded" w refl
  set_reply-Fits (key_too_long, w) = reply-Fits "ERR key_too_long" w refl
  set_reply-Fits (val_too_long, w) = reply-Fits "ERR value_too_long" w refl
  set_reply-Fits (key_whitespace, w) = reply-Fits "ERR invalid_arguments" w refl
  set_reply-Fits (empty_key, w) = reply-Fits "ERR invalid_arguments" w refl
  set_reply-Fits (_, w) = reply-Fits "ERR internal" w refl

  with_key-Fits :
      (args : Option Bytes) (command : Bytes → Executed) (w : World)
      → ((key : Bytes) → Fits size faults (command key))
      → Fits size faults (with_key args command w)
  unfolding with_key
  with_key-Fits args command w h = elim (Option-cases (one_argument args)) [
    | inl e ↦ rw (e, with_key) (reply-Fits "ERR invalid_arguments" w refl)
    | inr (key, e) ↦ rw (e, with_key) (h key)
  ]

  with_key_and_value-Fits :
      (args : Option Bytes) (command : Bytes → Bytes → Executed) (w : World)
      → ((key value : Bytes) → Fits size faults (command key value))
      → Fits size faults (with_key_and_value args command w)
  unfolding with_key_and_value
  with_key_and_value-Fits args command w h = elim (Option-cases (key_and_value args)) [
    | inl e ↦ rw (e, with_key_and_value) (reply-Fits "ERR invalid_arguments" w refl)
    | inr (kv, e) ↦ rw (e, with_key_and_value) (h kv.0 kv.1)
  ]

  no_arguments-Fits :
      (args : Option Bytes) (ex : Executed) (w : World)
      → Fits size faults ex
      → Fits size faults (if no_arguments args then ex else reply "ERR invalid_arguments" w)
  no_arguments-Fits args ex w h =
      if_both (Fits size faults) (no_arguments args) ex (reply "ERR invalid_arguments" w) (λ _. h)
        (λ _. reply-Fits "ERR invalid_arguments" w refl)

  run_set-Fits : (args : Option Bytes) (w : World) → Fits size faults (run_set args w)
  unfolding run_set
  run_set-Fits none w = reply-Fits "ERR invalid_arguments" w refl
  run_set-Fits (some args) w = elim (Option-cases (strchr b' ' args)) [
    | inl e ↦ rw (e, run_set) (reply-Fits "ERR invalid_arguments" w refl)
    | inr (parts, e) ↦
        rw (e, run_set)
          (if_both (Fits size faults) (length parts.0 == 0) _ _
            (λ _. reply-Fits "ERR invalid_arguments" w refl)
            (λ _.
              if_both (Fits size faults) (ltb max_key_len (length parts.0)) _ _
                (λ _. reply-Fits "ERR key_too_long" w refl)
                (λ _.
                  if_both (Fits size faults) (ltb max_value_len (length parts.1)) _ _
                    (λ _. reply-Fits "ERR value_too_long" w refl)
                    (λ _. set_reply-Fits (kv_set (some parts.0) (some parts.1) w)))))
  ]

  save_reply-Fits : (r : Status × World) → Fits size faults (save_reply r)
  unfolding save_reply
  save_reply-Fits (status, w) =
      if_both (Fits size faults) (is_ok status) _ _ (λ _. reply-Fits "OK" w refl)
        (λ _. reply-Fits "ERR io_failure" w refl)

  sync_reply-Fits : (r : Bool × World) → Fits size faults (sync_reply r)
  unfolding sync_reply
  sync_reply-Fits r = omega arith

  bgsave_reply-Fits : (r : Status × World) → Fits size faults (bgsave_reply r)
  unfolding bgsave_reply
  bgsave_reply-Fits (ok, w) = reply-Fits "+Background saving started" w refl
  bgsave_reply-Fits (again, w) = reply-Fits "-ERR Background save already in progress" w refl
  bgsave_reply-Fits (_, w) = reply-Fits "-ERR Background save failed to start" w refl

  bgrewriteaof_reply-Fits : (r : Status × World) → Fits size faults (bgrewriteaof_reply r)
  unfolding bgrewriteaof_reply
  bgrewriteaof_reply-Fits (ok, w) =
      reply-Fits "+Background append only file rewriting started" w refl
  bgrewriteaof_reply-Fits (again, w) =
      if_both (Fits size faults) (not (w.aof.aof_rewrite_pid == 0))
        (reply "-ERR Background append only file rewriting already in progress" w)
        (reply "-ERR Background save in progress" w)
        (λ _. reply-Fits "-ERR Background append only file rewriting already in progress" w refl)
        (λ _. reply-Fits "-ERR Background save in progress" w refl)
  bgrewriteaof_reply-Fits (_, w) = reply-Fits "-ERR Background rewrite failed to start" w refl

-- The commands whose behaviour may be undefined.
module _ (size : ℕ) (room : 128 ≤ size) where
  run_reply-Fits : (r : Run (Reply × World)) → Fits size true (run_reply size r)
  unfolding run_reply
  run_reply-Fits (returned r) = checked_reply-Fits size room true r
  run_reply-Fits use_after_free = refl

  members_reply-Fits : (r : Option (List Bytes) × World) → Fits size true (members_reply size r)
  unfolding members_reply respond
  members_reply-Fits (none, w) = reply-Fits size room true "*0" w refl
  members_reply-Fits (some members, w) =
      let one : 1 ≤ size = omega (arith, room) in
      let out =
        append_members size members
          (append_formatted size (count_text (length members)) (some [])) in
      let fits =
        append_members-Within size one members
          (append_formatted size (count_text (length members)) (some []))
          (append_formatted-Within size one (count_text (length members)) (some [])) in
      elim (Option-cases out) [
        | inl e ↦ rw (e, members_reply) refl
        | inr (text, e) ↦ rw (e, members_reply) (subst (Within size) e fits)
      ]

  int_reply-Fits : (r : Option (Reply × World)) → Fits size true (int_reply size r)
  unfolding int_reply
  int_reply-Fits none = refl
  int_reply-Fits (some (result, w)) = formatted-Fits size room true (number_text (int_of result)) w

  time_reply-Fits : (r : Option ℤ × World) → Fits size true (time_reply size r)
  unfolding time_reply
  time_reply-Fits (none, w) = refl
  time_reply-Fits (some n, w) = formatted-Fits size room true (number_text n) w

  expire_after-Fits :
      (calls : SystemCalls) (command : Expiry) (key : Bytes) (n : Option ℕ) (w : World)
      → Fits size true (expire_after size calls command key n w)
  unfolding expire_after
  expire_after-Fits calls command key none w =
      reply-Fits size room true "ERR invalid_arguments" w refl
  expire_after-Fits calls command key (some n) w =
      int_reply-Fits (command (some key) (pos n) calls.now calls.later w)

  run_expire-Fits :
      (calls : SystemCalls) (command : Expiry) (args : Option Bytes) (w : World)
      → Fits size true (run_expire size calls command args w)
  unfolding run_expire
  run_expire-Fits calls command args w =
      with_key_and_value-Fits size room true args _ w (λ key time_str.
        with_key-Fits size room true (some time_str) _ w
          (λ s. expire_after-Fits calls command key (positive_number s) w))

-- The replies of the commands.
run_command-Fits :
    (size : ℕ) (calls : SystemCalls) (client_fd : ℕ) (verb : Verb) (args : Option Bytes) (w : World)
    → 128 ≤ size
    → Fits size (may_fault verb) (run_command size calls client_fd verb args w)
unfolding run_command
run_command-Fits size calls fd sync args w room =
    sync_reply-Fits size room false (replication_handle_sync calls fd w)
run_command-Fits size calls fd ping args w room =
    no_arguments-Fits size room false args (reply "PONG" w) w
      (reply-Fits size room false "PONG" w refl)
run_command-Fits size calls fd quit args w room =
    no_arguments-Fits size room false args _ w (omega (arith, room))
run_command-Fits size calls fd save args w room =
    no_arguments-Fits size room false args (save_reply (kv_sync w)) w
      (save_reply-Fits size room false (kv_sync w))
run_command-Fits size calls fd get args w room =
    with_key-Fits size room false args _ w
      (λ key. get_reply-Fits size room false (kv_get (some key) calls.now w))
run_command-Fits size calls fd exists args w room = with_key-Fits size room false args _ w (λ key.
    (let r = kv_exists (some key) calls.now w in
      if_both (Fits size false) r.0 (reply "EXISTS" r.1) (reply "NOT_FOUND" r.1)
        (λ _. reply-Fits size room false "EXISTS" r.1 refl)
        (λ _. reply-Fits size room false "NOT_FOUND" r.1 refl)))
run_command-Fits size calls fd delete args w room =
    with_key-Fits size room false args _ w
      (λ key. delete_reply-Fits size room false (kv_delete (some key) w))
run_command-Fits size calls fd lpush args w room =
    with_key_and_value-Fits size room true args _ w
      (λ key value. run_reply-Fits size room (kv_lpush (some key) (some value) calls.now w))
run_command-Fits size calls fd rpop args w room =
    with_key-Fits size room false args _ w
      (λ key. pop_reply-Fits size room false (kv_rpop (some key) calls.now w))
run_command-Fits size calls fd llen args w room =
    with_key-Fits size room false args _ w
      (λ key. counted_reply-Fits size room false (kv_llen (some key) calls.now w))
run_command-Fits size calls fd sadd args w room =
    with_key_and_value-Fits size room true args _ w
      (λ key value. run_reply-Fits size room (kv_sadd (some key) (some value) calls.now w))
run_command-Fits size calls fd srem args w room =
    with_key_and_value-Fits size room false args _ w (λ key value.
      checked_reply-Fits size room false (kv_srem (some key) (some value) calls.now w))
run_command-Fits size calls fd scard args w room =
    with_key-Fits size room false args _ w
      (λ key. counted_reply-Fits size room false (kv_scard (some key) calls.now w))
run_command-Fits size calls fd smembers args w room =
    with_key-Fits size room true args _ w
      (λ key. members_reply-Fits size room (kv_smembers (some key) calls.now w))
run_command-Fits size calls fd set args w room = run_set-Fits size room false args w
run_command-Fits size calls fd expire args w room = run_expire-Fits size room calls kv_expire args w
run_command-Fits size calls fd pexpire args w room =
    run_expire-Fits size room calls kv_pexpire args w
run_command-Fits size calls fd ttl args w room =
    with_key-Fits size room true args _ w
      (λ key. time_reply-Fits size room (kv_ttl (some key) calls.now calls.later w))
run_command-Fits size calls fd pttl args w room =
    with_key-Fits size room true args _ w
      (λ key. time_reply-Fits size room (kv_pttl (some key) calls.now calls.later w))
run_command-Fits size calls fd persist args w room = with_key-Fits size room false args _ w (λ key.
    (let r = kv_persist (some key) calls.now w in
      formatted-Fits size room false (number_text (int_of r.0)) r.1))
run_command-Fits size calls fd bgsave args w room =
    bgsave_reply-Fits size room false (kv_bgsave calls.fork w)
run_command-Fits size calls fd bgrewriteaof args w room =
    bgrewriteaof_reply-Fits size room false (kv_bgrewriteaof calls.fork w)
run_command-Fits size calls fd unknown args w room =
    reply-Fits size room false "ERR unknown_command" w refl

-- With room for 128 bytes at least, every request gets a reply that fits the buffer; undefined
-- behaviour is possible only for LPUSH, SADD, SMEMBERS, EXPIRE, PEXPIRE, TTL and PTTL.
pub protocol_execute_command-Fits :
    (size : ℕ) (calls : SystemCalls) (client_fd : ℕ) (line : Bytes) (w : World)
    → 128 ≤ size
    → Fits size
        (may_fault (verb_of (split_command (c_string line)).0))
        (protocol_execute_command size calls client_fd line w)
unfolding protocol_execute_command execute_verb
protocol_execute_command-Fits size calls fd [] w room =
    reply-Fits size room (may_fault (verb_of (split_command (c_string [])).0)) "ERR empty_command" w
      refl
protocol_execute_command-Fits size calls fd (c ∷ line) w room =
    let (cmd, args) = split_command (c_string (c ∷ line)) in
    let verb = verb_of cmd in
    if_both (Fits size (may_fault verb)) (length cmd == 0) _ _
      (λ _. reply-Fits size room (may_fault verb) "ERR empty_command" w refl)
      (λ _.
        if_both (Fits size (may_fault verb)) (is_write verb && is_replica w.replication.mode) _ _
          (λ _.
            reply-Fits size room (may_fault verb) "-ERR Server is running in read-only replica mode"
              w refl)
          (λ _. run_command-Fits size calls fd verb args w room))
