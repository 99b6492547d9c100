-- ===== src/Snapshot.antt =====
-- The snapshot file of src/snapshot.c: its checksum, its numbers and its entries, the save and the
-- background save. The contents of a file are its bytes; the calls that write in the middle of the file,
-- whose results the code does not look at, are taken to succeed.
pub mod Load
pub mod Numbers
use mini_kv_db_server.Prelude.{
  ℕ, zero, suc, ◌+◌, ◌-◌, ◌*◌, ◌/◌, ◌%◌, ◌^◌, Bool, true, false, ◌||◌, not, Option, none, some,
  List, [], ◌∷◌, ◌++◌, ◌==◌, ltb, if◌then◌else◌, length,
}
use mini_kv_db_server.Prelude.Int.{ℤ, pos, negsuc}
use mini_kv_db_server.Prelude.Text.{Bytes, bytes}
use mini_kv_db_server.Status.{Status, ok, io, again}
use mini_kv_db_server.Env.{Env, library_call}
use mini_kv_db_server.World.{World}
use mini_kv_db_server.Table.Types.{Value, string, list, set_of, Entry}
use mini_kv_db_server.Sets.{members_of}

abbrev pub snapshot_magic : Bytes
snapshot_magic = bytes "MINIKV01"

-- The two sums over the bytes.
unfoldable pub adler_sums : ℕ → ℕ → Bytes → ℕ × ℕ
adler_sums s1 s2 [] = (s1, s2)
adler_sums s1 s2 (b ∷ buf) = adler_sums ((s1 + b) % 65521) ((s2 + (s1 + b) % 65521) % 65521) buf

unfoldable pub adler32 : ℕ → Bytes → ℕ
unfolding adler_sums
adler32 adler buf =
    let (s1, s2) = adler_sums (adler % 65536) (adler / 65536 % 65536) buf in s2 % 65536 * 65536 + s1

-- The lowest `count` bytes of a number, the least significant first.
unfoldable pub little_endian : ℕ → ℕ → Bytes
little_endian zero val = []
little_endian (suc count) val = (val % 256) ∷ little_endian count (val / 256)

-- An open file and the running checksum.
abbrev pub Output : Type 0
Output = Bytes × ℕ

unfoldable pub write_bytes : Bytes → Output → Output
unfolding adler32
write_bytes buf (content, checksum) = (content ++ buf, adler32 checksum buf)

unfoldable pub write_uint64 : ℕ → Output → Output
unfolding little_endian write_bytes
write_uint64 val = write_bytes (little_endian 8 val)

unfoldable pub write_uint32 : ℕ → Output → Output
unfolding little_endian write_bytes
write_uint32 val = write_bytes (little_endian 4 val)

-- The cast to `uint64_t`.
unfoldable pub to_uint64 : ℤ → ℕ
to_uint64 (pos n) = n % 2 ^ 64
to_uint64 (negsuc n) = 2 ^ 64 - 1 - n

-- A length, with the cast to `uint32_t`, and the text.
unfoldable pub write_text : Bytes → Output → Output
unfolding write_uint32 write_bytes
write_text text out = write_bytes text (write_uint32 (length text % 2 ^ 32) out)

-- The nodes of a list from the tail to the head.
unfoldable pub write_list : List Bytes → Output → Output
unfolding write_text
write_list [] out = out
write_list (value ∷ nodes) out = write_text value (write_list nodes out)

unfoldable pub write_set : List Bytes → Output → Output
unfolding write_text
write_set [] out = out
write_set (value ∷ members) out = write_set members (write_text value out)

-- The `kv_type_t` of a payload.
unfoldable pub type_byte : Value → ℕ
type_byte (string v) = 0
type_byte (list l) = 1
type_byte (set_of s) = 2

unfoldable pub write_value : Value → Output → Output
unfolding write_text write_list write_set write_uint32
write_value (string v) out = write_text v out
write_value (list l) out = write_list l.nodes (write_uint32 (l.count % 2 ^ 32) out)
write_value (set_of s) out = write_set (members_of s.buckets) (write_uint32 (s.count % 2 ^ 32) out)

-- expire_at_ms == 0 || expire_at_ms > now_ms
unfoldable pub is_current : ℤ → ℕ → Bool
is_current (pos t) now_ms = t == 0 || ltb now_ms t
is_current (negsuc t) now_ms = false

unfoldable pub write_entry : ℕ → Entry → Output → Output
unfolding is_current write_uint64 write_text write_bytes type_byte write_value to_uint64
write_entry now_ms e out =
    if is_current e.expire_at_ms now_ms
    then write_value e.value (
        write_bytes (type_byte e.value ∷ [])
          (write_text e.key (write_uint64 (to_uint64 e.expire_at_ms) out)))
    else out

unfoldable pub write_chain : ℕ → List Entry → Output → Output
unfolding write_entry
write_chain now_ms [] out = out
write_chain now_ms (e ∷ chain) out = write_chain now_ms chain (write_entry now_ms e out)

unfoldable pub write_buckets : ℕ → List (List Entry) → Output → Output
unfolding write_chain
write_buckets now_ms [] out = out
write_buckets now_ms (chain ∷ buckets) out =
    write_buckets now_ms buckets (write_chain now_ms chain out)

abbrev pub end_marker : ℕ
end_marker = 2 ^ 64 - 1

-- The whole file: the checksum at its end is that of all before it.
unfoldable pub snapshot_of : ℕ → List (List Entry) → Bytes
unfolding write_bytes write_buckets write_uint64 little_endian
snapshot_of now_ms buckets =
    let (content, checksum) =
      write_uint64 end_marker (write_buckets now_ms buckets (write_bytes snapshot_magic ([], 1))) in
    content ++ little_endian 4 checksum

-- fopen, the write of the magic, the write of the checksum, rename: the file that is in place after a
-- success.
unfoldable pub kv_save_internal_unlocked : ℕ → List (List Entry) → Env → Status × Option Bytes × Env
unfolding snapshot_of library_call
kv_save_internal_unlocked now_ms buckets env =
    let (opened, env₁) = library_call env in
    if not opened
    then (io, none, env₁)
    else let (started, env₂) = library_call env₁ in
      if not started
      then (io, none, env₂)
      else let (ended, env₃) = library_call env₂ in
        if not ended
        then (io, none, env₃)
        else let (renamed, env₄) = library_call env₃ in
          if renamed then (ok, some (snapshot_of now_ms buckets), env₄) else (io, none, env₄)

unfoldable pub kv_save : ℕ → World → Status × Option Bytes × World
unfolding kv_save_internal_unlocked
kv_save now_ms w =
    let (status, file, env) = kv_save_internal_unlocked now_ms w.table.buckets w.env in
    (status, file, record w { env = env })

-- The parent's side; `fork` is the child's pid, or none for a failure.
unfoldable pub kv_bgsave : Option ℕ → World → Status × World
kv_bgsave fork w =
    if not (w.aof.bgsave_pid == 0) || not (w.aof.aof_rewrite_pid == 0)
    then (again, w)
    else elim fork [
      | none ↦ (io, w)
      | some pid ↦ (ok, record w { aof = record w.aof { bgsave_pid = pid } })
    ]
