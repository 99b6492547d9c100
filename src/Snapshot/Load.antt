-- ===== src/Snapshot/Load.antt =====
-- `kv_load_snapshot` of src/snapshot.c. Each entry is handed to the commands as it is read; the checksum is
-- compared at the end.
pub mod RoundTrip
pub mod Outcome
pub mod File
pub mod Restore
use mini_kv_db_server.Prelude.{
  ℕ, zero, suc, ◌+◌, ◌-◌, ◌*◌, ◌^◌, Bool, true, false, ◌&&◌, ◌||◌, not, Option, none, some, List,
  [], ◌∷◌, ◌++◌, ◌==◌, leb, ltb, if◌then◌else◌, length, take, drop,
}
use mini_kv_db_server.Prelude.Int.{ℤ, pos, negsuc}
use mini_kv_db_server.Prelude.Text.{Bytes, str_eq}
use mini_kv_db_server.Status.{Status, ok, io, is_ok}
use mini_kv_db_server.Key.{max_key_len, max_value_len}
use mini_kv_db_server.Env.{library_call}
use mini_kv_db_server.World.{World}
use mini_kv_db_server.CString.{c_string}
use mini_kv_db_server.Kv.{kv_set}
use mini_kv_db_server.Payload.{Reply, Run, returned, use_after_free}
use mini_kv_db_server.Lists.{kv_lpush}
use mini_kv_db_server.Sets.{kv_sadd}
use mini_kv_db_server.Ttl.{kv_set_expire_at_ms_internal}
use mini_kv_db_server.Replay.{ignore_reply}
use mini_kv_db_server.Snapshot.{snapshot_magic, adler32, end_marker, is_current}

-- What is left of the file, and the running checksum.
abbrev pub Input : Type 0
Input = Bytes × ℕ

unfoldable pub read_bytes : ℕ → Input → Option (Bytes × Input)
unfolding adler32
read_bytes len (s, checksum) =
    if ltb (length s) len
    then none
    else some (take len s, (drop len s, adler32 checksum (take len s)))

-- The bytes are joined by `|`, which is a sum here, since no two of them have a bit in common.
unfoldable pub from_little_endian : Bytes → ℕ
from_little_endian [] = 0
from_little_endian (b ∷ buf) = b + 256 * from_little_endian buf

unfoldable pub read_number : ℕ → Input → Option (ℕ × Input)
unfolding read_bytes from_little_endian
read_number len input = elim (read_bytes len input) [
  | none ↦ none
  | some (buf, rest) ↦ some (from_little_endian buf, rest)
]

abbrev pub read_uint64 : Input → Option (ℕ × Input)
read_uint64 = read_number 8

abbrev pub read_uint32 : Input → Option (ℕ × Input)
read_uint32 = read_number 4

-- malloc for the text, and its bytes, which are then a C string.
unfoldable pub read_body : ℕ → Input → World → Option (Bytes × Input) × World
unfolding read_bytes
read_body len input w =
    let (given, env) = library_call w.env in
    let w₁ = record w { env = env } in
    if given
    then (
      elim (read_bytes len input) [ none ↦ none | some (buf, rest) ↦ some (c_string buf, rest) ],
      w₁,
    )
    else (none, w₁)

-- A length, with its test, and the text.
unfoldable pub read_text : ℕ → Input → World → Option (Bytes × Input) × World
unfolding read_number read_body
read_text max input w = elim (read_uint32 input) [
  | none ↦ (none, w)
  | some (len, rest) ↦ if ltb max len then (none, w) else read_body len rest w
]

-- The cast to `int64_t`.
unfoldable pub to_int64 : ℕ → ℤ
to_int64 n = if ltb n (2 ^ 63) then pos n else negsuc (2 ^ 64 - 1 - n)

abbrev pub set_expiry : Bytes → ℕ → World → World
set_expiry key expire_at_ms w = record w {
  table = kv_set_expire_at_ms_internal key (to_int64 expire_at_ms) w.table;
}

-- kv_set, and the expiry if it succeeds and there is one.
unfoldable pub restore_string : Bytes → ℕ → Bool → Bytes → World → World
unfolding to_int64
restore_string key expire_at_ms valid val w =
    if valid
    then (let (status, w₁) = kv_set (some key) (some val) w in
        if is_ok status && not (expire_at_ms == 0) then set_expiry key expire_at_ms w₁ else w₁)
    else w

-- kv_lpush for a list, kv_sadd for a set; the reply is not looked at.
unfoldable pub restore_element : ℕ → Bytes → Bool → Bytes → ℕ → World → Run World
unfolding ignore_reply
restore_element type key valid val now_ms w =
    if valid
    then if type == 1
      then ignore_reply (kv_lpush (some key) (some val) now_ms w)
      else ignore_reply (kv_sadd (some key) (some val) now_ms w)
    else returned w

-- Nothing of the file is left after an error.
abbrev pub Loaded : Type 0
Loaded = Run (Option Input × World)

abbrev pub load_failed : World → Loaded
load_failed w = returned (none, w)

unfoldable pub bind_loaded : Loaded → (Input → World → Loaded) → Loaded
bind_loaded (returned (none, w)) next = returned (none, w)
bind_loaded (returned (some input, w)) next = next input w
bind_loaded use_after_free next = use_after_free

unfoldable pub after_element : Run World → Input → Loaded
after_element (returned w) input = returned (some input, w)
after_element use_after_free input = use_after_free

unfoldable pub load_element : (Bytes → World → Run World) → Option (Bytes × Input) × World → Loaded
unfolding after_element
load_element restore (none, w) = load_failed w
load_element restore (some (val, input), w) = after_element (restore val w) input

unfoldable pub load_elements : ℕ → (Bytes → World → Run World) → Input → World → Loaded
unfolding read_text load_element bind_loaded
load_elements zero restore input w = returned (some input, w)
load_elements (suc count) restore input w =
    bind_loaded (load_element restore (read_text max_value_len input w))
      (load_elements count restore)

unfoldable pub load_string : (Bytes → World → World) → Option (Bytes × Input) × World → Loaded
load_string restore (none, w) = load_failed w
load_string restore (some (val, input), w) = returned (some input, restore val w)

-- The expiry of a list or a set.
unfoldable pub finish_elements : Bytes → ℕ → Bool → ℕ → Input → World → Loaded
unfolding to_int64
finish_elements key expire_at_ms valid count input w = returned (
  some input,
  if valid && (ltb 0 count && not (expire_at_ms == 0)) then set_expiry key expire_at_ms w else w,
)

-- After the key and the type; a type that is not known is passed over.
unfoldable pub load_value : ℕ → ℕ → Bytes → ℕ → Input → World → Loaded
unfolding is_current to_int64 read_number read_text load_string restore_string load_elements
    restore_element finish_elements bind_loaded
load_value now_ms expire_at_ms key type input w =
    let valid = is_current (to_int64 expire_at_ms) now_ms in
    if type == 0
    then load_string (restore_string key expire_at_ms valid) (read_text max_value_len input w)
    else if type == 1 || type == 2
    then elim (read_uint32 input) [
      | none ↦ load_failed w
      | some (count, rest) ↦
          bind_loaded
            (load_elements count (λ val. restore_element type key valid val now_ms) rest w)
            (finish_elements key expire_at_ms valid count)
    ]
    else returned (some input, w)

-- One byte for the type.
unfoldable pub load_typed : ℕ → ℕ → Option (Bytes × Input) × World → Loaded
unfolding read_number load_value
load_typed now_ms expire_at_ms (none, w) = load_failed w
load_typed now_ms expire_at_ms (some (key, input), w) = elim (read_number 1 input) [
  | none ↦ load_failed w
  | some (type, rest) ↦ load_value now_ms expire_at_ms key type rest w
]

unfoldable pub check_end : Input → World → Run (Status × World)
unfolding read_bytes from_little_endian
check_end (s, checksum) w = elim (read_bytes 4 (s, 0)) [
  | none ↦ returned (io, w)
  | some (buf, rest) ↦ returned (if checksum == from_little_endian buf then ok else io, w)
]

unfoldable pub continue_with :
    Loaded → (Input → World → Run (Status × World)) → Run (Status × World)
continue_with (returned (none, w)) next = returned (io, w)
continue_with (returned (some input, w)) next = next input w
continue_with use_after_free next = use_after_free

-- The loop over the entries; each round reads eight bytes at least.
unfoldable pub load_entries : ℕ → ℕ → Input → World → Run (Status × World)
unfolding read_number check_end read_text load_typed continue_with
load_entries zero now_ms input w = returned (io, w)
load_entries (suc fuel) now_ms input w = elim (read_uint64 input) [
  | none ↦ returned (io, w)
  | some (expire_at_ms, rest) ↦
      if expire_at_ms == end_marker
      then check_end rest w
      else continue_with (load_typed now_ms expire_at_ms (read_text max_key_len rest w))
          (load_entries fuel now_ms)
]

-- The file's bytes, or none if it cannot be opened; the fuel is more than the rounds that they allow.
unfoldable pub kv_load_snapshot : ℕ → Option Bytes → World → Run (Status × World)
unfolding read_bytes load_entries
kv_load_snapshot now_ms none w = returned (io, w)
kv_load_snapshot now_ms (some content) w = elim (read_bytes 8 (content, 1)) [
  | none ↦ returned (io, w)
  | some (magic, rest) ↦
      if str_eq magic snapshot_magic
      then load_entries (suc (length content)) now_ms rest w
      else returned (io, w)
]
