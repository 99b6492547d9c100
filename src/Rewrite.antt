-- ===== src/Rewrite.antt =====
-- The rewrite of the log and its flushing: `kv_set_durability`, `kv_sync`, `kv_bgrewriteaof`,
-- `kv_merge_aof_rewrite` and `kv_discard_aof_rewrite` of src/aof.c. The file that the child of the fork
-- writes is `rewrite_dump`. What the calls of fork, fopen, rename and ftell give is an argument.
pub mod Dump
pub mod Merge
use mini_kv_db_server.Prelude.{
  ℕ, zero, suc, Bool, true, false, ◌&&◌, ◌||◌, not, Option, none, some, List, [], ◌∷◌, ◌++◌, ◌==◌,
  ltb, if◌then◌else◌, take,
}
use mini_kv_db_server.Prelude.Int.{ℤ, pos, negsuc}
use mini_kv_db_server.Prelude.Text.{Bytes, bytes}
use mini_kv_db_server.Status.{Status, ok, io, again, invalid_param}
use mini_kv_db_server.Env.{library_call}
use mini_kv_db_server.World.{Stream, Aof, World}
use mini_kv_db_server.Aof.{join, record₂, flush}
use mini_kv_db_server.Table.Types.{KvList, KvSet, Value, string, list, set_of, Entry}
use mini_kv_db_server.Table.Ops.{entry_is_expired}
use mini_kv_db_server.Sets.{members_of}
use mini_kv_db_server.Ttl.{expiry_parts}

unfoldable pub kv_set_durability : ℕ → World → World
kv_set_durability level w = record w { aof = record w.aof { durability_level = level } }

-- fflush and then fsync; fileno gives a descriptor.
unfoldable pub kv_sync : World → Status × World
unfolding flush
kv_sync w = if w.env.io_fail then (io, w) else elim w.aof.aof_fp [
  | none ↦ (ok, w)
  | some fp ↦
      let (flushed, env) = flush 2 w.env in (if flushed then ok else io, record w { env = env })
]

-- One record for each value, from the tail to the head.
unfoldable pub dump_list : Bytes → List Bytes → Bytes
dump_list key [] = []
dump_list key (value ∷ nodes) = dump_list key nodes ++ join (record₂ (bytes "LPUSH") key value)

unfoldable pub dump_set : Bytes → List Bytes → Bytes
dump_set key [] = []
dump_set key (value ∷ members) = join (record₂ (bytes "SADD") key value) ++ dump_set key members

unfoldable pub dump_value : Bytes → Value → Bytes
unfolding dump_list dump_set
dump_value key (string value) = join (record₂ (bytes "SET") key value)
dump_value key (list l) = dump_list key l.nodes
dump_value key (set_of s) = dump_set key (members_of s.buckets)

-- expire_at_ms > 0
unfoldable pub dump_expiry : Bytes → ℤ → Bytes
dump_expiry key (pos zero) = []
dump_expiry key (pos (suc t)) = join (expiry_parts key (pos (suc t)))
dump_expiry key (negsuc t) = []

unfoldable pub dump_entry : ℕ → Entry → Bytes
unfolding dump_value dump_expiry
dump_entry now_ms e =
    if entry_is_expired e now_ms
    then []
    else dump_value e.key e.value ++ dump_expiry e.key e.expire_at_ms

unfoldable pub dump_chain : ℕ → List Entry → Bytes
unfolding dump_entry
dump_chain now_ms [] = []
dump_chain now_ms (e ∷ chain) = dump_entry now_ms e ++ dump_chain now_ms chain

-- What the child writes for the buckets.
unfoldable pub rewrite_dump : ℕ → List (List Entry) → Bytes
unfolding dump_chain
rewrite_dump now_ms [] = []
rewrite_dump now_ms (chain ∷ buckets) = dump_chain now_ms chain ++ rewrite_dump now_ms buckets

-- The buffer is emptied before the fork; `fork` is the child's pid, or none for a failure.
unfoldable pub start_rewrite : Option ℕ → World → Status × World
start_rewrite fork w =
    let a = record w.aof {
      aof_rewrite_buf_len = elim w.aof.aof_rewrite_buf [
        | none ↦ w.aof.aof_rewrite_buf_len
        | some buf ↦ 0
      ];
    } in
    elim fork [
      | none ↦ (io, record w { aof = a })
      | some pid ↦ (ok, record w { aof = record a { aof_rewrite_pid = pid } })
    ]

unfoldable pub kv_bgrewriteaof : Option ℕ → World → Status × World
unfolding start_rewrite
kv_bgrewriteaof fork w = elim w.table.aof_path [
  | none ↦ (invalid_param, w)
  | some path ↦
      if ltb 0 w.aof.bgsave_pid || ltb 0 w.aof.aof_rewrite_pid
      then (again, w)
      else start_rewrite fork w
]

-- aof_rewrite_pid = 0 and aof_rewrite_buf_len = 0
unfoldable pub end_rewrite : Aof → Aof
end_rewrite a = record a { aof_rewrite_pid = 0; aof_rewrite_buf_len = 0 }

-- After the temporary file is closed. The old stream is closed before the rename; `reopened` is the
-- position that ftell reports for the new stream, or none if fopen fails.
unfoldable pub install : Bytes → Option ℕ → World → Status × World
unfolding end_rewrite
install content reopened w =
    let (renamed, env) = library_call w.env in
    let closed = record w { aof = record (end_rewrite w.aof) { aof_fp = none }; env = env } in
    if not renamed then (io, closed) else elim reopened [
      | none ↦ (io, closed)
      | some position ↦ (
        ok,
        record closed {
          aof = record closed.aof {
            aof_fp = some (record { content = content; position = position });
          };
        },
      )
    ]

-- `temp` is what the temporary file holds, or none if it cannot be opened.
unfoldable pub merge_into : Option Bytes → Option ℕ → World → Status × World
unfolding end_rewrite install
merge_into none reopened w = (io, record w { aof = end_rewrite w.aof })
merge_into (some temp) reopened w = elim w.aof.aof_rewrite_buf [
  | none ↦ install temp reopened w
  | some buf ↦
      if ltb 0 w.aof.aof_rewrite_buf_len
      then (let (written, env) = library_call w.env in
          let w₁ = record w { env = env } in
          if written
          then install (temp ++ take w.aof.aof_rewrite_buf_len buf) reopened w₁
          else (io, record w₁ { aof = end_rewrite w₁.aof }))
      else install temp reopened w
]

unfoldable pub kv_merge_aof_rewrite : ℕ → Option Bytes → Option ℕ → World → Status × World
unfolding merge_into
kv_merge_aof_rewrite child_pid temp reopened w = elim w.table.aof_path [
  | none ↦ (invalid_param, w)
  | some path ↦
      if child_pid == 0 || not (w.aof.aof_rewrite_pid == child_pid)
      then (invalid_param, w)
      else merge_into temp reopened w
]

unfoldable pub kv_discard_aof_rewrite : World → World
kv_discard_aof_rewrite w = record w {
  aof = record w.aof {
    aof_rewrite_pid = 0;
    aof_rewrite_buf = none;
    aof_rewrite_buf_len = 0;
    aof_rewrite_buf_cap = 0;
  };
}
