-- ===== src/Payload.antt =====
-- What the list and the set commands share: their results, and the steps that src/list.c and
-- src/set.c have in common. The tests that choose between the bucket's lock and all locks change no
-- state there, and the locks are taken to be held.
pub mod Laws
use mini_kv_db_server.Prelude.{
  ℕ, ◌+◌, ◌-◌, ◌%◌, ◌^◌, Bool, ◌&&◌, none, some, List, leb, ltb, if◌then◌else◌,
}
use mini_kv_db_server.Prelude.Text.{Bytes}
use mini_kv_db_server.Status.{Status, ok, capacity_full, budget_exceeded, internal}
use mini_kv_db_server.Env.{Env}
use mini_kv_db_server.World.{World}
use mini_kv_db_server.Aof.{write_aof_record}
use mini_kv_db_server.Table.Types.{Value, Table, Found}
use mini_kv_db_server.Table.Ops.{store_entry}
use mini_kv_db_server.Table.Resize.{raise_peak}
use mini_kv_db_server.Kv.{tick, make_room, insert_entry, fresh_entry, log_rewrite}

-- The `int` that a command returns: a code, a number, or for n the number -1 - n that a count is
-- narrowed to.
pub data Reply : Type 0 where
  failed : Status → Reply
  number : ℕ → Reply
  negative : ℕ → Reply

-- The cast of a `size_t` to `int`, which keeps the lowest 32 bits.
unfoldable pub to_int : ℕ → Reply
to_int count =
    let low = count % 2 ^ 32 in if ltb low (2 ^ 31) then number low else negative (2 ^ 32 - 1 - low)

-- A call that may follow a pointer to memory that has been freed.
pub data Run {ℓ} (A : Type ℓ) : Type ℓ where
  returned : A → Run A
  use_after_free : Run A

-- The record is written if a log is open, and its result is not looked at; then the rewrite buffer.
unfoldable pub log_change : List Bytes → World → World
unfolding log_rewrite
log_change parts w =
    log_rewrite parts (elim w.aof.aof_fp [ none ↦ w | some fp ↦ (write_aof_record parts w).2 ])

-- A new entry with an empty payload, after the tests of the capacity and of the budget; the
-- function tells whether the allocations succeed.
unfoldable pub create_entry : Bytes → Value → ℕ → (Env → Bool × Env) → World → Status × World
unfolding tick insert_entry fresh_entry
create_entry key value entry_overhead allocate w =
    if ltb 0 w.table.max_capacity && leb w.table.max_capacity w.table.size
    then (capacity_full, w)
    else let (fits, w₁) = make_room entry_overhead w in
      if fits
      then (let (allocated, env) = allocate w₁.env in
          if allocated
          then (let t = tick w₁.table in
              (
                ok,
                record w₁ {
                  table = insert_entry (fresh_entry key value t) entry_overhead t;
                  env = env;
                },
              ))
          else (internal, record w₁ { env = env }))
      else (budget_exceeded, w₁)

-- allocated_bytes -= freed, not below 0
unfoldable pub release_bytes : ℕ → Table → Table
release_bytes freed t = record t {
  allocated_bytes = if leb freed t.allocated_bytes then t.allocated_bytes - freed else 0;
}

-- The payload of an entry is changed in place, and takes `more` bytes.
unfoldable pub grow_payload : Found → Value → ℕ → Table → Table
unfolding raise_peak
grow_payload f value more t =
    let s = store_entry f (record f.entry { value = value }) t in
    raise_peak (record s { allocated_bytes = s.allocated_bytes + more })

-- The payload of an entry is changed in place, and gives `freed` bytes back.
unfoldable pub shrink_payload : Found → Value → ℕ → Table → Table
unfolding release_bytes
shrink_payload f value freed t =
    release_bytes freed (store_entry f (record f.entry { value = value }) t)
