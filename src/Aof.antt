-- ===== src/Aof.antt =====
-- The log: `append_aof_rewrite_buffer` of src/kv.c, the record functions of src/aof.c, and
-- `replication_broadcast` of src/replication.c, which every record goes through.
pub mod Laws
use mini_kv_db_server.Prelude.{
  ℕ, zero, suc, ◌+◌, ◌*◌, Bool, true, false, ◌&&◌, ◌||◌, not, Option, none, some, List, [], ◌∷◌,
  ◌++◌, ◌==◌, leb, ltb, if◌then◌else◌, length, take,
}
use mini_kv_db_server.Prelude.Text.{Bytes, bytes}
use mini_kv_db_server.Status.{Status, ok, io}
use mini_kv_db_server.Env.{Env, library_call}
use mini_kv_db_server.World.{Stream, Aof, ReplicaMode, master, Replication, World}

-- The capacity is doubled until the text fits. Each round adds at least one byte to it.
unfoldable pub grow_cap : ℕ → ℕ → ℕ → ℕ
grow_cap zero need cap = cap
grow_cap (suc fuel) need cap =
    let rest = grow_cap fuel need (cap * 2) in if ltb cap need then rest else cap

-- malloc for the first text, realloc where it does not fit.
unfoldable pub reserve : ℕ → Aof → Env → Aof × Env
unfolding grow_cap library_call
reserve len a env =
    let need = a.aof_rewrite_buf_len + len in
    elim a.aof_rewrite_buf [
      | none ↦
          let (given, env') = library_call env in
          (
            record a {
              aof_rewrite_buf = if given then some [] else none;
              aof_rewrite_buf_len = 0;
              aof_rewrite_buf_cap = if ltb 4096 len then len * 2 else 4096;
            },
            env',
          )
      | some buf ↦
          if ltb a.aof_rewrite_buf_cap need
          then (let (given, env') = library_call env in
              (
                record a {
                  aof_rewrite_buf = if given then some buf else none;
                  aof_rewrite_buf_cap = grow_cap need need a.aof_rewrite_buf_cap;
                },
                env',
              ))
          else (a, env)
    ]

-- The memcpy to the end of the text that the buffer holds.
unfoldable pub copy_in : Bytes → Aof → Aof
copy_in text a = elim a.aof_rewrite_buf [
  | none ↦ a
  | some buf ↦ record a {
    aof_rewrite_buf = some (take a.aof_rewrite_buf_len buf ++ text);
    aof_rewrite_buf_len = a.aof_rewrite_buf_len + length text;
  }
]

unfoldable pub append_aof_rewrite_buffer : Bytes → Aof → Env → Aof × Env
unfolding reserve copy_in
append_aof_rewrite_buffer text a env =
    if length text == 0 || a.aof_rewrite_pid == 0
    then (a, env)
    else let (a', env') = reserve (length text) a env in (copy_in text a', env')

-- Several texts in a row, as the writers append the parts of one record.
unfoldable pub append_all : List Bytes → Aof → Env → Aof × Env
unfolding append_aof_rewrite_buffer
append_all [] a env = (a, env)
append_all (text ∷ rest) a env =
    let (a', env') = append_aof_rewrite_buffer text a env in append_all rest a' env'

abbrev pub tab : Bytes
tab = 9 ∷ []

abbrev pub newline : Bytes
newline = 10 ∷ []

-- A record of the log with one argument, and one with two.
abbrev pub record₁ : Bytes → Bytes → List Bytes
record₁ verb key = (verb ++ tab) ∷ key ∷ newline ∷ []

abbrev pub record₂ : Bytes → Bytes → Bytes → List Bytes
record₂ verb key value = (verb ++ tab) ∷ key ∷ tab ∷ value ∷ newline ∷ []

-- The parts as one text, which is what snprintf forms.
unfoldable pub join : List Bytes → Bytes
join [] = []
join (text ∷ rest) = text ++ join rest

-- A replica whose send fails is closed and taken off the list.
unfoldable pub broadcast_to : List ℕ → Bytes → Replication → Env → List ℕ × Replication × Env
unfolding library_call
broadcast_to [] text r env = ([], r, env)
broadcast_to (fd ∷ rest) text r env =
    let (sent, env') = library_call env in
    let r' =
      (if sent
        then record r { sent = r.sent ++ ((fd, text) ∷ []) }
        else record r { closed = r.closed ++ (fd ∷ []) }) in
    let (kept, r'', env'') = broadcast_to rest text r' env' in
    (if sent then fd ∷ kept else kept, r'', env'')

unfoldable pub is_master : ReplicaMode → Bool
is_master master = true
is_master _ = false

unfoldable pub replication_broadcast : Bytes → Replication → Env → Replication × Env
unfolding broadcast_to is_master
replication_broadcast text r env =
    if is_master r.mode
    then (let (kept, r', env') = broadcast_to r.replicas_head text r env in
        (record r' { replicas_head = kept }, env'))
    else (r, env)

abbrev pub record_buf_size : ℕ
record_buf_size = 4096

-- fflush from durability level 1 on, and fsync from level 2 on; fileno gives a descriptor.
unfoldable pub flush : ℕ → Env → Bool × Env
unfolding library_call
flush level env =
    if leb 1 level
    then (let (flushed, env') = library_call env in
        if flushed && leb 2 level then library_call env' else (flushed, env'))
    else (true, env)

-- From ftell on: the status, the position for `out_pos`, and the stream.
unfoldable pub write_stream : ℕ → Bytes → Stream → Env → Status × Option ℕ × Stream × Env
unfolding flush library_call
write_stream level text fp env =
    let (told, env₁) = library_call env in
    if not told
    then (io, none, fp, env₁)
    else if ltb 0 (length text) && ltb (length text) record_buf_size
    then (let (written, env₂) = library_call env₁ in
        if not written
        then (io, some fp.position, fp, env₂)
        else let content = fp.content ++ text in
          let fp' : Stream = record { content = content; position = length content } in
          let (durable, env₃) = flush level env₂ in
          (if durable then ok else io, some fp.position, fp', env₃))
    else (io, some fp.position, fp, env₁)

-- The record goes to the replicas if it fits the buffer, and then to the log if one is open.
unfoldable pub write_aof_record : List Bytes → World → Status × Option ℕ × World
unfolding replication_broadcast write_stream join
write_aof_record parts w =
    let text = join parts in
    let (r, env) =
      (if ltb 0 (length text) && ltb (length text) record_buf_size
        then replication_broadcast text w.replication w.env
        else (w.replication, w.env)) in
    let w' = record w { replication = r; env = env } in
    elim w.aof.aof_fp [
      | none ↦ (ok, none, w')
      | some fp ↦
          if env.io_fail
          then (io, none, w')
          else let (status, pos, fp', env') = write_stream w.aof.durability_level text fp env in
            (status, pos, record w' { aof = record w.aof { aof_fp = some fp' }; env = env' })
    ]

-- The file is cut at the position, if there is one; the outcomes of fflush and ftruncate are not
-- looked at, and here they succeed.
unfoldable pub rollback_aof_record : Option ℕ → Aof → Aof
rollback_aof_record none a = a
rollback_aof_record (some pos) a = elim a.aof_fp [
  | none ↦ a
  | some fp ↦ record a { aof_fp = some (record { content = take pos fp.content; position = pos }) }
]
