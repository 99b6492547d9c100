-- ===== src/Protocol/Replies.antt =====
-- The replies of src/protocol.c and the checks of the arguments, which the commands share. A constant
-- reply is copied whole: the buffer has room for it.
use Prim.Native.String.{String}
use mini_kv_db_server.Prelude.{
  ℕ, zero, suc, ◌+◌, ◌-◌, Bool, true, false, ◌||◌, Option, none, some, List, [], ◌∷◌, ◌++◌, ◌==◌,
  ltb, if◌then◌else◌, length, take,
}
use mini_kv_db_server.Prelude.Int.{ℤ, pos, negsuc}
use mini_kv_db_server.Prelude.Text.{Bytes, bytes}
use mini_kv_db_server.Status.{
  Status, ok, not_found, invalid_param, key_too_long, val_too_long, empty_key, key_whitespace,
  capacity_full, budget_exceeded, wrong_type, code,
}
use mini_kv_db_server.Key.{max_key_len, max_value_len}
use mini_kv_db_server.World.{World}
use mini_kv_db_server.CString.{strchr, strtoll}
use mini_kv_db_server.Payload.{Reply, failed, number, negative, Run, returned, use_after_free}
use mini_kv_db_server.Kv.{kv_set}
use mini_kv_db_server.Ttl.{print_int64}
use mini_kv_db_server.Sync.{SystemCalls, crlf}

-- The first `out_len` bytes of `resp_buf`, `out_close` and `out_detach`.
pub record Response : Type 0 where
  pub text : Bytes
  pub out_close : Bool
  pub out_detach : Bool

-- The second is a call that follows a pointer to freed memory, counts more bytes than `resp_buf` has, or
-- overflows a signed number.
pub data Executed : Type 0 where
  responded : Response → World → Executed
  undefined_behaviour : Executed

unfoldable pub respond : Bytes → World → Executed
respond text w = responded (record { text = text; out_close = false; out_detach = false }) w

unfoldable pub reply : String → World → Executed
unfolding respond
reply msg w = respond (bytes msg ++ crlf) w

-- snprintf into `resp_buf`: what does not fit leaves `out_len` at 0.
unfoldable pub formatted : ℕ → Bytes → World → Executed
unfolding respond
formatted resp_buf_size text w = respond (if ltb (length text) resp_buf_size then text else []) w

abbrev pub number_text : ℤ → Bytes
number_text n = b':' ∷ (print_int64 n ++ crlf)

abbrev pub value_text : Bytes → Bytes
value_text value = bytes "VALUE " ++ (value ++ crlf)

abbrev pub is_negative : ℤ → Bool
is_negative (pos n) = false
is_negative (negsuc n) = true

abbrev pub int_of : Reply → ℤ
int_of (failed status) = code status
int_of (number n) = pos n
int_of (negative n) = negsuc n

-- args != NULL && *args != '\0' && strchr(args, ' ') == NULL
unfoldable pub one_argument : Option Bytes → Option Bytes
one_argument none = none
one_argument (some []) = none
one_argument (some (c ∷ args)) = elim (strchr b' ' (c ∷ args)) [
  | none ↦ some (c ∷ args)
  | some parts ↦ none
]

-- A key and a value, both not empty; the value may have spaces.
unfoldable pub key_and_value : Option Bytes → Option (Bytes × Bytes)
key_and_value none = none
key_and_value (some args) = elim (strchr b' ' args) [
  | none ↦ none
  | some (key, value) ↦ if length key == 0 || length value == 0 then none else some (key, value)
]

unfoldable pub no_arguments : Option Bytes → Bool
no_arguments none = true
no_arguments (some args) = length args == 0

unfoldable pub with_key : Option Bytes → (Bytes → Executed) → World → Executed
unfolding one_argument reply
with_key args command w = elim (one_argument args) [
  | none ↦ reply "ERR invalid_arguments" w
  | some key ↦ command key
]

unfoldable pub with_key_and_value : Option Bytes → (Bytes → Bytes → Executed) → World → Executed
unfolding key_and_value reply
with_key_and_value args command w = elim (key_and_value args) [
  | none ↦ reply "ERR invalid_arguments" w
  | some (key, value) ↦ command key value
]

-- The reply of the commands that return an `int`, where a negative number other than the code for a wrong
-- type is an internal error.
unfoldable pub checked_reply : ℕ → Reply × World → Executed
unfolding formatted reply
checked_reply size (number n, w) = formatted size (number_text (pos n)) w
checked_reply size (negative n, w) = if n == 10 then reply "WRONGTYPE" w else reply "ERR internal" w
checked_reply size (failed wrong_type, w) = reply "WRONGTYPE" w
checked_reply size (failed status, w) =
    if is_negative (code status)
    then reply "ERR internal" w
    else formatted size (number_text (code status)) w

-- The same without the second test.
unfoldable pub counted_reply : ℕ → Reply × World → Executed
unfolding formatted reply
counted_reply size (number n, w) = formatted size (number_text (pos n)) w
counted_reply size (negative n, w) =
    if n == 10 then reply "WRONGTYPE" w else formatted size (number_text (negsuc n)) w
counted_reply size (failed wrong_type, w) = reply "WRONGTYPE" w
counted_reply size (failed status, w) = formatted size (number_text (code status)) w

unfoldable pub run_reply : ℕ → Run (Reply × World) → Executed
unfolding checked_reply
run_reply size (returned r) = checked_reply size r
run_reply size use_after_free = undefined_behaviour

unfoldable pub get_reply : ℕ → Option Bytes × World → Executed
unfolding reply respond
get_reply size (none, w) = reply "NOT_FOUND" w
get_reply size (some val, w) =
    if ltb (length (value_text val)) size
    then respond (value_text val) w
    else reply "ERR internal" w

unfoldable pub delete_reply : Status × World → Executed
unfolding reply
delete_reply (ok, w) = reply "DELETED" w
delete_reply (not_found, w) = reply "NOT_FOUND" w
delete_reply (invalid_param, w) = reply "ERR invalid_arguments" w
delete_reply (empty_key, w) = reply "ERR invalid_arguments" w
delete_reply (key_whitespace, w) = reply "ERR invalid_arguments" w
delete_reply (status, w) = reply "ERR internal" w

unfoldable pub pop_reply : ℕ → Status × Option Bytes × World → Executed
unfolding reply formatted
pop_reply size (wrong_type, popped, w) = reply "WRONGTYPE" w
pop_reply size (status, none, w) =
    if is_negative (code status) then reply "ERR internal" w else reply "$-1" w
pop_reply size (status, some value, w) =
    if is_negative (code status)
    then reply "ERR internal" w
    else formatted size (value_text value) w

unfoldable pub set_reply : Status × World → Executed
unfolding reply
set_reply (ok, w) = reply "OK" w
set_reply (capacity_full, w) = reply "ERR capacity_full" w
set_reply (budget_exceeded, w) = reply "ERR budget_exceeded" w
set_reply (key_too_long, w) = reply "ERR key_too_long" w
set_reply (val_too_long, w) = reply "ERR value_too_long" w
set_reply (key_whitespace, w) = reply "ERR invalid_arguments" w
set_reply (empty_key, w) = reply "ERR invalid_arguments" w
set_reply (status, w) = reply "ERR internal" w

-- The value may be empty here.
unfoldable pub run_set : Option Bytes → World → Executed
unfolding reply set_reply
run_set none w = reply "ERR invalid_arguments" w
run_set (some args) w = elim (strchr b' ' args) [
  | none ↦ reply "ERR invalid_arguments" w
  | some (key, val) ↦
      if length key == 0
      then reply "ERR invalid_arguments" w
      else if ltb max_key_len (length key)
      then reply "ERR key_too_long" w
      else if ltb max_value_len (length val)
      then reply "ERR value_too_long" w
      else set_reply (kv_set (some key) (some val) w)
]

-- What strtoll gives, if it is a positive number and the whole text.
unfoldable pub positive : ℤ × Bytes → Option ℕ
positive (pos zero, end) = none
positive (pos (suc n), []) = some (suc n)
positive (pos (suc n), c ∷ end) = none
positive (negsuc n, end) = none

unfoldable pub positive_number : Bytes → Option ℕ
unfolding positive
positive_number s = positive (strtoll s)

abbrev pub Expiry : Type 0
Expiry = Option Bytes → ℤ → ℕ → ℕ → World → Option (Reply × World)

unfoldable pub int_reply : ℕ → Option (Reply × World) → Executed
unfolding formatted
int_reply size none = undefined_behaviour
int_reply size (some (result, w)) = formatted size (number_text (int_of result)) w

-- With the number checked.
unfoldable pub expire_after : ℕ → SystemCalls → Expiry → Bytes → Option ℕ → World → Executed
unfolding reply int_reply
expire_after size calls command key none w = reply "ERR invalid_arguments" w
expire_after size calls command key (some n) w =
    int_reply size (command (some key) (pos n) calls.now calls.later w)

-- EXPIRE and PEXPIRE. The number has no space in it.
unfoldable pub run_expire : ℕ → SystemCalls → Expiry → Option Bytes → World → Executed
unfolding with_key_and_value with_key positive_number expire_after
run_expire size calls command args w =
    with_key_and_value args
      (λ key time_str.
        with_key (some time_str) (λ s. expire_after size calls command key (positive_number s) w) w)
      w

-- TTL and PTTL.
unfoldable pub time_reply : ℕ → Option ℤ × World → Executed
unfolding formatted
time_reply size (none, w) = undefined_behaviour
time_reply size (some n, w) = formatted size (number_text n) w

-- snprintf at the end of what is written, or none once `written` is past the end of the buffer. The last
-- byte of the buffer is for the NUL.
unfoldable pub append_formatted : ℕ → Bytes → Option Bytes → Option Bytes
append_formatted size text none = none
append_formatted size text (some buf) =
    let written = length buf + length text in
    if ltb written size
    then some (buf ++ text)
    else if written == size
    then some (take (size - 1) (buf ++ text) ++ 0 ∷ [])
    else none

abbrev pub member_text : Bytes → Bytes
member_text m = b'$' ∷ (print_int64 (pos (length m)) ++ (crlf ++ (m ++ crlf)))

unfoldable pub append_members : ℕ → List Bytes → Option Bytes → Option Bytes
unfolding append_formatted
append_members size [] out = out
append_members size (m ∷ members) out =
    append_members size members (append_formatted size (member_text m) out)

abbrev pub count_text : ℕ → Bytes
count_text n = b'*' ∷ (print_int64 (pos n) ++ crlf)

unfoldable pub members_reply : ℕ → Option (List Bytes) × World → Executed
unfolding append_members append_formatted respond reply
members_reply size (none, w) = reply "*0" w
members_reply size (some members, w) =
    elim (append_members size members
      (append_formatted size (count_text (length members)) (some []))) [
        | none ↦ undefined_behaviour
        | some text ↦ respond text w
      ]
