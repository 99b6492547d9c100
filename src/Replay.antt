-- ===== src/Replay.antt =====
-- The replay of a log: `replay_aof_log` of src/aof.c, and `kv_init_full` of src/kv.c, which calls it.
-- The clock is read as `now` by every command that is replayed.
pub mod Lines
pub mod Changes
use mini_kv_db_server.Prelude.{
  ℕ, zero, suc, ◌+◌, ◌*◌, Bool, true, false, ◌&&◌, ◌||◌, Option, none, some, List, [], ◌∷◌, ◌++◌,
  ◌==◌, leb, ltb, if◌then◌else◌, length,
}
use mini_kv_db_server.Prelude.Text.{Bytes, bytes}
use mini_kv_db_server.Status.{Status}
use mini_kv_db_server.Key.{Validated, valid, invalid, validate_key, validate_value}
use mini_kv_db_server.World.{World}
use mini_kv_db_server.Aof.{tab, newline}
use mini_kv_db_server.CString.{c_string, strchr, strip_prefix, strtoll}
use mini_kv_db_server.Kv.{kv_set_internal, kv_delete_internal}
use mini_kv_db_server.Payload.{Reply, Run, returned, use_after_free}
use mini_kv_db_server.Lists.{kv_lpush, kv_rpop}
use mini_kv_db_server.Sets.{kv_sadd, kv_srem}
use mini_kv_db_server.Ttl.{kv_set_expire_at_ms_internal}

-- The world after a call whose reply is not looked at.
unfoldable pub ignore_reply : Run (Reply × World) → Run World
ignore_reply (returned (reply, w)) = returned w
ignore_reply use_after_free = use_after_free

unfoldable pub and_then : Run World → (World → Run World) → Run World
and_then (returned w) next = next w
and_then use_after_free next = use_after_free

abbrev pub is_line_ending : ℕ → Bool
is_line_ending c = c == b'\n' || c == b'\r'

unfoldable pub strip_line_endings : Bytes → Bytes
strip_line_endings [] = []
strip_line_endings (c ∷ line) = elim (strip_line_endings line) [
  | [] ↦ if is_line_ending c then [] else c ∷ []
  | d ∷ rest ↦ c ∷ d ∷ rest
]

-- fgets into `room` + 1 bytes: the line with its newline, or as much of it as fits, and the rest.
unfoldable pub fgets : ℕ → Bytes → Bytes × Bytes
fgets zero s = ([], s)
fgets (suc room) [] = ([], [])
fgets (suc room) (c ∷ s) =
    let more = fgets room s in if c == b'\n' then (c ∷ [], s) else (c ∷ more.0, more.1)

-- The verb with a tab or a space: the delimiter, and the text behind it.
unfoldable pub after_verb : Bytes → Bytes → Option (ℕ × Bytes)
after_verb verb line = elim (strip_prefix (verb ++ b'\t' ∷ []) line) [
  | some rest ↦ some (b'\t', rest)
  | none ↦ elim (strip_prefix (verb ++ b' ' ∷ []) line) [
    | some rest ↦ some (b' ', rest)
    | none ↦ none
  ]
]

abbrev pub is_valid : Validated → Bool
is_valid (valid n) = true
is_valid (invalid e) = false

-- A key and a value, both checked, go to a command; a line without the second delimiter is skipped.
unfoldable pub replay_pair : (Bytes → Bytes → World → Run World) → ℕ × Bytes → World → Run World
replay_pair command (delim, rest) w = elim (strchr delim rest) [
  | none ↦ returned w
  | some (key, val) ↦
      if is_valid (validate_key (some key)) && is_valid (validate_value (some val))
      then command key val w
      else returned w
]

-- The text up to the delimiter, or all of it.
unfoldable pub first_field : ℕ × Bytes → Bytes
first_field (delim, rest) = elim (strchr delim rest) [ none ↦ rest | some (front, back) ↦ front ]

unfoldable pub replay_key : (Bytes → World → World) → ℕ × Bytes → World → Run World
unfolding first_field
replay_key command args w =
    let key = first_field args in
    if is_valid (validate_key (some key)) then returned (command key w) else returned w

-- strtoll's end is not looked at, nor is the value of the time.
unfoldable pub replay_expiry : ℕ × Bytes → World → Run World
replay_expiry (delim, rest) w = elim (strchr delim rest) [
  | none ↦ returned w
  | some (key, ts_str) ↦
      if is_valid (validate_key (some key))
      then returned
          (record w { table = kv_set_expire_at_ms_internal key (strtoll ts_str).0 w.table })
      else returned w
]

-- The bodies of the branches, one for each verb.
unfoldable pub replay_set : ℕ × Bytes → World → Run World
unfolding replay_pair
replay_set = replay_pair (λ key val w. returned (kv_set_internal (some key) (some val) w).1)

unfoldable pub replay_delete : ℕ × Bytes → World → Run World
unfolding replay_key
replay_delete = replay_key (λ key w. (kv_delete_internal (some key) w).1)

unfoldable pub replay_lpush : ℕ → ℕ × Bytes → World → Run World
unfolding replay_pair ignore_reply
replay_lpush now = replay_pair (λ key val w. ignore_reply (kv_lpush (some key) (some val) now w))

unfoldable pub replay_rpop : ℕ → ℕ × Bytes → World → Run World
unfolding replay_key
replay_rpop now = replay_key (λ key w. (kv_rpop (some key) now w).2)

unfoldable pub replay_sadd : ℕ → ℕ × Bytes → World → Run World
unfolding replay_pair ignore_reply
replay_sadd now = replay_pair (λ key val w. ignore_reply (kv_sadd (some key) (some val) now w))

unfoldable pub replay_srem : ℕ → ℕ × Bytes → World → Run World
unfolding replay_pair
replay_srem now = replay_pair (λ key val w. returned (kv_srem (some key) (some val) now w).1)

-- The cascade of tests on a line that is not empty; a line with no known verb is skipped.
unfoldable pub replay_line : Bytes → ℕ → World → Run World
unfolding after_verb replay_set replay_delete replay_lpush replay_rpop replay_sadd replay_srem
    replay_expiry
replay_line line now w = elim (after_verb (bytes "SET") line) [
  | some args ↦ replay_set args w
  | none ↦ elim (after_verb (bytes "DELETE") line) [
    | some args ↦ replay_delete args w
    | none ↦ elim (after_verb (bytes "LPUSH") line) [
      | some args ↦ replay_lpush now args w
      | none ↦ elim (after_verb (bytes "RPOP") line) [
        | some args ↦ replay_rpop now args w
        | none ↦ elim (after_verb (bytes "SADD") line) [
          | some args ↦ replay_sadd now args w
          | none ↦ elim (after_verb (bytes "SREM") line) [
            | some args ↦ replay_srem now args w
            | none ↦ elim (after_verb (bytes "PEXPIREAT") line) [
              | some args ↦ replay_expiry args w
              | none ↦ returned w
            ]
          ]
        ]
      ]
    ]
  ]
]

abbrev pub line_room : ℕ
line_room = 8191

-- An empty line is skipped; what comes next is the rest of the file.
unfoldable pub replay_text : (World → Run World) → Bytes → ℕ → World → Run World
replay_text next [] now w = next w
replay_text next (c ∷ line) now w = and_then (replay_line (c ∷ line) now w) next

-- The loop over the lines of a file; each round reads at least one byte of it.
unfoldable pub replay_lines : ℕ → Bytes → ℕ → World → Run World
replay_lines zero content now w = returned w
replay_lines (suc fuel) [] now w = returned w
replay_lines (suc fuel) (c ∷ content) now w =
    let line = fgets line_room (c ∷ content) in
    replay_text (replay_lines fuel line.1 now) (strip_line_endings (c_string line.0)) now w

-- The file's bytes, or none if it cannot be opened.
unfoldable pub replay_aof_log : Option Bytes → ℕ → World → Run World
replay_aof_log none now w = returned w
replay_aof_log (some content) now w = replay_lines (length content) content now w
