-- ===== src/Protocol/Wire.antt =====
-- Requests as a client writes them, and what `protocol_execute_command` of src/protocol.c replies.
use mini_kv_db_server.Prelude.{
  ℕ, ◌+◌, ◌≤◌, ◌<◌, ◌≡◌, ◌≢◌, refl, ap, ◌∙◌, false, Option, none, some, [], ◌∷◌, ◌++◌, arith,
  length, length-append, All, ◌==◌, if◌then◌else◌,
}
use mini_kv_db_server.Prelude.Text.{Bytes, bytes, str_eq}
use mini_kv_db_server.Status.{ok}
use mini_kv_db_server.Key.{max_value_len, isspace}
use mini_kv_db_server.World.{World}
use mini_kv_db_server.Table.Laws.{IsValid, view}
use mini_kv_db_server.CString.{c_string, strchr}
use mini_kv_db_server.CString.Laws.{c_string-All, strchr-append, strchr-none, has_space-All}
use mini_kv_db_server.Kv.{kv_set, kv_get}
use mini_kv_db_server.Kv.ReadAfterWrite.{is_stale, kv_set-kv_get}
use mini_kv_db_server.Replay.Changes.{IsKey}
use mini_kv_db_server.Replay.Changes.RoundTrip.{key_facts}
use mini_kv_db_server.Sync.{SystemCalls, crlf}
use mini_kv_db_server.Protocol.Verbs.{verb_of, find_verb, is_write, set, get}
use mini_kv_db_server.Protocol.Replies.{
  Executed, respond, reply, with_key, get_reply, one_argument, run_set, set_reply, value_text,
}
use mini_kv_db_server.Protocol.Commands.{run_command}
use mini_kv_db_server.Protocol.{split_command, is_replica, execute_verb, protocol_execute_command}

abbrev pub set_request : Bytes → Bytes → Bytes
set_request key value = bytes "SET " ++ (key ++ (b' ' ∷ value))

abbrev pub get_request : Bytes → Bytes
get_request key = bytes "GET " ++ key

no_space : (key : Bytes) → IsKey key → All (λ c. c ≢ b' ') key
no_space key h = has_space-All key b' ' (key_facts key h).2 (unfold isspace in refl)

All-append : (P : ℕ → Type 0) (a b : Bytes) → All P a → All P b → All P (a ++ b)
All-append P [] b h k = k
All-append P (c ∷ a) b h k = (h.0, All-append P a b h.1 k)

set_head : (args : Bytes) → split_command (bytes "SET " ++ args) ≡ (bytes "SET", some args)
unfolding split_command strchr
set_head args = refl

get_head : (args : Bytes) → split_command (bytes "GET " ++ args) ≡ (bytes "GET", some args)
unfolding split_command strchr
get_head args = refl

set_verb : verb_of (bytes "SET") ≡ set
unfolding verb_of find_verb str_eq
set_verb = refl

get_verb : verb_of (bytes "GET") ≡ get
unfolding verb_of find_verb str_eq
get_verb = refl

set_text :
    (args : Bytes) → All (λ c. c ≢ 0) args → c_string (bytes "SET " ++ args) ≡ bytes "SET " ++ args
unfolding c_string
set_text args h = ap (λ s. bytes "SET " ++ s) (c_string-All args h)

get_text :
    (args : Bytes) → All (λ c. c ≢ 0) args → c_string (bytes "GET " ++ args) ≡ bytes "GET " ++ args
unfolding c_string
get_text args h = ap (λ s. bytes "GET " ++ s) (c_string-All args h)

-- What is done with the command and the arguments.
abbrev dispatch : ℕ → SystemCalls → ℕ → World → Bytes × Option Bytes → Executed
dispatch size calls fd w parts =
    if length parts.0 == 0
    then reply "ERR empty_command" w
    else execute_verb size calls fd (verb_of parts.0) parts.1 w

set_executed :
    (size fd : ℕ) (calls : SystemCalls) (args : Bytes) (w : World)
    → All (λ c. c ≢ 0) args
    → is_replica w.replication.mode ≡ false
    → protocol_execute_command size calls fd (bytes "SET " ++ args) w ≡ run_set (some args) w
unfolding protocol_execute_command
set_executed size fd calls args w h m =
    ap (λ s. dispatch size calls fd w (split_command s)) (set_text args h)
    ∙ ap (dispatch size calls fd w) (set_head args)
    ∙ ap (λ v. execute_verb size calls fd v (some args) w) set_verb
    ∙ (unfold execute_verb is_write run_command in rw m refl)

get_executed :
    (size fd : ℕ) (calls : SystemCalls) (args : Bytes) (w : World)
    → All (λ c. c ≢ 0) args
    → protocol_execute_command size calls fd (bytes "GET " ++ args) w
      ≡ run_command size calls fd get (some args) w
unfolding protocol_execute_command
get_executed size fd calls args w h =
    ap (λ s. dispatch size calls fd w (split_command s)) (get_text args h)
    ∙ ap (dispatch size calls fd w) (get_head args)
    ∙ ap (λ v. execute_verb size calls fd v (some args) w) get_verb
    ∙ (unfold execute_verb is_write in refl)

-- The arguments of SET are taken apart as they were put together.
run_set_lem :
    (key value : Bytes) (w : World)
    → IsKey key
    → length value ≤ max_value_len
    → run_set (some (key ++ b' ' ∷ value)) w ≡ set_reply (kv_set (some key) (some value) w)
unfolding run_set
run_set_lem key value w k n =
    let facts = key_facts key k in
    rw (strchr-append b' ' key value (no_space key k), run_set)
      (ground (arith, facts.0, facts.1, n))

one_argument_lem : (key : Bytes) → IsKey key → one_argument (some key) ≡ some key
unfolding one_argument
one_argument_lem [] k = absurd (omega (arith, (key_facts [] k).0))
one_argument_lem (c ∷ key) k =
    rw (strchr-none b' ' (c ∷ key) (no_space (c ∷ key) k), one_argument) refl

run_get_lem :
    (size fd : ℕ) (calls : SystemCalls) (key : Bytes) (w : World)
    → IsKey key
    → run_command size calls fd get (some key) w ≡ get_reply size (kv_get (some key) calls.now w)
unfolding run_command with_key
run_get_lem size fd calls key w k = rw (one_argument_lem key k, with_key) refl

get_value :
    (size : ℕ) (value : Bytes) (r : Option Bytes × World)
    → r.0 ≡ some value
    → length value + 8 < size
    → get_reply size r ≡ respond (value_text value) r.1
unfolding get_reply
get_value size value (none, w) h n = absurd (ground (arith, h))
get_value size value (some v, w) h n =
    let same : v ≡ value = ground (arith, h) in
    rw same (ground (arith, n, length-append value crlf))

-- Where kv_set succeeds on a valid table of a server that is not a replica, the request SET with a
-- key that passes its check and a value of at most 4096 bytes without a NUL is replied to with OK,
-- and then the request GET is replied to with the value, if the entry that the key had before is
-- not due.
pub set_request-get_request :
    (size fd fd' : ℕ) (calls calls' : SystemCalls) (key value : Bytes) (w w' : World)
    → IsValid w.table
    → is_replica w.replication.mode ≡ false
    → IsKey key
    → All (λ c. c ≢ 0) value
    → length value ≤ max_value_len
    → max_value_len + 8 < size
    → kv_set (some key) (some value) w ≡ (ok, w')
    → is_stale (view w.table key) calls'.now ≡ false
    → (protocol_execute_command size calls fd (set_request key value) w ≡ reply "OK" w')
      × (protocol_execute_command size calls' fd' (get_request key) w'
          ≡ respond (value_text value) (kv_get (some key) calls'.now w').1)
set_request-get_request size fd fd' calls calls' key value w w' v m k z n room s stale =
    let read = kv_set-kv_get key value calls'.now w w' v s stale in
    let enough : length value + 8 < size = omega (arith, n, room) in
    (
      set_executed size fd calls (key ++ b' ' ∷ value) w
            (All-append (λ c. c ≢ 0) key (b' ' ∷ value) k.1 (omega arith, z)) m
          ∙ run_set_lem key value w k n
          ∙ ap set_reply s
          ∙ (unfold set_reply in refl),
      get_executed size fd' calls' key w' k.1
          ∙ run_get_lem size fd' calls' key w' k
          ∙ get_value size value (kv_get (some key) calls'.now w') read enough,
    )
