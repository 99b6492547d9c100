-- ===== src/Replay/Changes.antt =====
-- The records of the log and the changes that they stand for, and that `replay_aof_log` of src/aof.c
-- reads back what `write_aof_record` wrote.
pub mod RoundTrip
pub mod Log
use mini_kv_db_server.Prelude.{
  ℕ, zero, suc, ◌+◌, ◌≡◌, ◌≢◌, refl, ap, sym, ◌∙◌, Bool, true, false, ◌&&◌, Option, none, some,
  List, [], ◌∷◌, ◌++◌, arith, length, All, if◌then◌else◌,
}
use mini_kv_db_server.Prelude.Int.{ℤ, pos, negsuc}
use mini_kv_db_server.Prelude.Text.{Bytes, bytes}
use mini_kv_db_server.Key.{validate_key, validate_value}
use mini_kv_db_server.World.{World}
use mini_kv_db_server.Aof.{record₁, record₂, join}
use mini_kv_db_server.CString.Laws.{IsInt64}
use mini_kv_db_server.Kv.{kv_set_internal, kv_delete_internal}
use mini_kv_db_server.Payload.{Run, returned}
use mini_kv_db_server.Lists.{kv_lpush, kv_rpop}
use mini_kv_db_server.Sets.{kv_sadd, kv_srem}
use mini_kv_db_server.Ttl.{kv_set_expire_at_ms_internal, expiry_parts, print_int64}
use mini_kv_db_server.Replay.{ignore_reply, and_then, is_valid}
use mini_kv_db_server.Replay.Lines.{IsLine, ends_well}

-- What a record of the log says.
pub data Change : Type 0 where
  set lpush sadd srem : Bytes → Bytes → Change
  delete rpop : Bytes → Change
  expire_at : Bytes → ℤ → Change

-- The parts that the commands hand to `write_aof_record`.
abbrev pub parts_of : Change → List Bytes
parts_of (set key value) = record₂ (bytes "SET") key value
parts_of (lpush key value) = record₂ (bytes "LPUSH") key value
parts_of (sadd key value) = record₂ (bytes "SADD") key value
parts_of (srem key value) = record₂ (bytes "SREM") key value
parts_of (delete key) = record₁ (bytes "DELETE") key
parts_of (rpop key) = record₁ (bytes "RPOP") key
parts_of (expire_at key at) = expiry_parts key at

-- The command that a record stands for.
abbrev pub apply : Change → ℕ → World → Run World
apply (set key value) now w = returned (kv_set_internal (some key) (some value) w).1
apply (lpush key value) now w = ignore_reply (kv_lpush (some key) (some value) now w)
apply (sadd key value) now w = ignore_reply (kv_sadd (some key) (some value) now w)
apply (srem key value) now w = returned (kv_srem (some key) (some value) now w).1
apply (delete key) now w = returned (kv_delete_internal (some key) w).1
apply (rpop key) now w = returned (kv_rpop (some key) now w).2
apply (expire_at key at) now w =
    returned (record w { table = kv_set_expire_at_ms_internal key at w.table })

-- One change after the other, until one follows a pointer to freed memory.
unfoldable pub apply_all : List Change → ℕ → World → Run World
apply_all [] now w = returned w
apply_all (c ∷ changes) now w = and_then (apply c now w) (apply_all changes now)

-- The log that the records of some changes form.
unfoldable pub log_of : List Change → Bytes
log_of [] = []
log_of (c ∷ changes) = join (parts_of c) ++ log_of changes

-- A key that passes its check; as a C string it has no NUL.
abbrev pub IsKey : Bytes → Type 0
IsKey key = (is_valid (validate_key (some key)) ≡ true) × All (λ c. c ≢ 0) key

-- A value that passes its check, has no NUL and no newline, and does not end in a carriage return.
abbrev pub IsText : Bytes → Type 0
IsText value =
    (is_valid (validate_value (some value)) ≡ true) × IsLine value × (ends_well value ≡ true)

-- What a record can carry.
abbrev pub IsLoggable : Change → Type 0
IsLoggable (set key value) = IsKey key × IsText value
IsLoggable (lpush key value) = IsKey key × IsText value
IsLoggable (sadd key value) = IsKey key × IsText value
IsLoggable (srem key value) = IsKey key × IsText value
IsLoggable (delete key) = IsKey key
IsLoggable (rpop key) = IsKey key
IsLoggable (expire_at key at) = IsKey key × IsInt64 at
