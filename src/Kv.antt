-- ===== src/Kv.antt =====
-- The operations of src/kv.c on string entries.
pub mod Room
pub mod Writes
pub mod SetInternal
pub mod SetOutcome
pub mod Logged
pub mod Rollback
pub mod Set
pub mod Get
pub mod Delete
pub mod ReadAfterWrite
use mini_kv_db_server.Prelude.{
  ℕ, zero, suc, ◌+◌, ◌-◌, ◌*◌, ◌%◌, ◌^◌, Bool, true, false, ◌&&◌, ◌||◌, Option, none, some, List,
  [], ◌∷◌, leb, ltb, if◌then◌else◌, length,
}
use mini_kv_db_server.Prelude.Int.{pos}
use mini_kv_db_server.Prelude.Text.{Bytes, bytes}
use mini_kv_db_server.Status.{
  Status, ok, not_found, internal, invalid_param, capacity_full, budget_exceeded, wrong_type, is_ok,
}
use mini_kv_db_server.Env.{Env, tracked_malloc}
use mini_kv_db_server.Key.{
  Validated, valid, invalid, validate_key, validate_value, copy_string_bounded, max_key_len,
  max_value_len,
}
use mini_kv_db_server.World.{Aof, World}
use mini_kv_db_server.Aof.{append_all, record₁, record₂, write_aof_record, rollback_aof_record}
use mini_kv_db_server.Table.Types.{Value, string, list, set_of, Entry, Table, Found}
use mini_kv_db_server.Table.Bytes.{sizeof_entry}
use mini_kv_db_server.Table.Ops.{
  expire_and_delete_unlocked, find_raw, find_entry_unlocked, store_entry, push_entry,
}
use mini_kv_db_server.Table.Resize.{raise_peak, kv_resize_unlocked}
use mini_kv_db_server.Table.Evict.{evict_until}

-- ++store->lru_clock
unfoldable pub tick : Table → Table
tick t = record t { lru_clock = (t.lru_clock + 1) % 2 ^ 64 }

-- The parts of a record go to the rewrite buffer.
unfoldable pub log_rewrite : List Bytes → World → World
log_rewrite parts w = let (a, env) = append_all parts w.aof w.env in record w { aof = a; env = env }

-- The loop that evicts for `delta` bytes, where there is a budget; then whether they fit.
unfoldable pub make_room : ℕ → World → Bool × World
make_room delta w =
    if ltb 0 w.table.max_memory_budget
    then (let (t, rng) = evict_until w.table.size delta w.table w.env.xorshift_state in
        (
          leb (t.allocated_bytes + delta) t.max_memory_budget,
          record w { table = t; env = record w.env { xorshift_state = rng } },
        ))
    else (true, w)

-- bytes that the new value takes beyond those of the old one
abbrev pub value_delta : ℕ → ℕ → ℕ
value_delta new_bytes old_bytes = if ltb old_bytes new_bytes then new_bytes - old_bytes else 0

-- The new value is in place of the old one, in an entry that has been accessed; the expiry stays.
unfoldable pub overwrite : Found → Bytes → Bytes → Table → Table
unfolding tick raise_peak
overwrite f old value t =
    let new_bytes = length value + 1 in
    let old_bytes = length old + 1 in
    let t' = tick t in
    let e = record f.entry { value = string value; last_accessed_time = t'.lru_clock } in
    let s = store_entry f e t' in
    if ltb old_bytes new_bytes
    then raise_peak (record s { allocated_bytes = s.allocated_bytes + (new_bytes - old_bytes) })
    else record s { allocated_bytes = s.allocated_bytes - (old_bytes - new_bytes) }

abbrev pub set_parts : Bytes → Bytes → List Bytes
set_parts key value = record₂ (bytes "SET") key value

-- The last part of an update: the copy of the value, and the record.
unfoldable pub replace_value : Found → Bytes → Bytes → Bytes → World → Status × World
unfolding overwrite log_rewrite
replace_value f old key value w =
    let (copied, env) = copy_string_bounded value max_value_len w.env in
    if copied
    then (
      ok,
      log_rewrite (set_parts key value)
          (record w { table = overwrite f old value w.table; env = env }),
    )
    else (internal, record w { env = env })

-- The new entry at the head of its chain; the counters have its bytes.
unfoldable pub insert_entry : Entry → ℕ → Table → Table
unfolding raise_peak
insert_entry e entry_bytes t = raise_peak (record t {
  buckets = push_entry t.buckets e;
  size = t.size + 1;
  allocated_bytes = t.allocated_bytes + entry_bytes;
})

-- malloc for the entry, and the copies of the key and of the value.
unfoldable pub alloc_entry : Bytes → Bytes → Env → Bool × Env
alloc_entry key value env =
    let (node, env₁) = tracked_malloc env in
    if node
    then (let (key_copy, env₂) = copy_string_bounded key max_key_len env₁ in
        if key_copy then copy_string_bounded value max_value_len env₂ else (false, env₂))
    else (false, env₁)

unfoldable pub fresh_entry : Bytes → Value → Table → Entry
fresh_entry key value t = record {
  key = key;
  value = value;
  expire_at_ms = pos 0;
  last_accessed_time = t.lru_clock;
}

-- From "New entry insertion" on.
unfoldable pub insert_new : Bytes → Bytes → World → Status × World
unfolding tick alloc_entry insert_entry log_rewrite fresh_entry
insert_new key value w =
    if ltb 0 w.table.max_capacity && leb w.table.max_capacity w.table.size
    then (capacity_full, w)
    else let entry_bytes = sizeof_entry + length key + 1 + length value + 1 in
      let (fits, w₁) = make_room entry_bytes w in
      if fits
      then (let (allocated, env) = alloc_entry key value w₁.env in
          if allocated
          then (let t = tick w₁.table in
              (
                ok,
                log_rewrite (set_parts key value) (record w₁ {
                  table = insert_entry (fresh_entry key (string value) t) entry_bytes t;
                  env = env;
                }),
              ))
          else (internal, record w₁ { env = env }))
      else (budget_exceeded, w₁)

-- "Check if existing entry was evicted": if so, the key is inserted anew.
unfoldable pub update_or_insert : Bytes → Bytes → Bytes → World → Status × World
unfolding replace_value
update_or_insert old key value w = elim (find_raw key w.table) [
  | none ↦ insert_new key value w
  | some f ↦ replace_value f old key value w
]

-- A key that is there: only a string is overwritten, and its growth has to fit the budget.
unfoldable pub update : Value → Bytes → Bytes → World → Status × World
unfolding update_or_insert
update (list l) key value w = (wrong_type, w)
update (set_of s) key value w = (wrong_type, w)
update (string old) key value w =
    let delta = value_delta (length value + 1) (length old + 1) in
    let (fits, w₁) = (if ltb 0 delta then make_room delta w else (true, w)) in
    if fits then update_or_insert old key value w₁ else (budget_exceeded, w₁)

-- With the key and the value checked.
unfoldable pub set_checked : Bytes → Bytes → World → Status × World
unfolding update
set_checked key value w = elim (find_raw key w.table) [
  | none ↦ insert_new key value w
  | some f ↦ update f.entry.value key value w
]

unfoldable pub kv_set_internal : Option Bytes → Option Bytes → World → Status × World
unfolding set_checked
kv_set_internal (some key) (some value) w = elim (validate_key (some key)) [
  | invalid e ↦ (e, w)
  | valid key_len ↦ elim (validate_value (some value)) [
    | invalid e ↦ (e, w)
    | valid val_len ↦ set_checked key value w
  ]
]
kv_set_internal none value w = (invalid_param, w)
kv_set_internal (some key) none w = elim (validate_key (some key)) [
  | invalid e ↦ (e, w)
  | valid key_len ↦ (invalid_param, w)
]

-- The unlocked and the locked test of the writers: the load factor, or the budget.
unfoldable pub loaded : Table → Bool
loaded t = t.auto_resize && leb (length t.buckets * 3) ((t.size + 1) * 4)

unfoldable pub over_budget : ℕ → Table → Bool
over_budget delta t =
    ltb 0 t.max_memory_budget && ltb t.max_memory_budget (t.allocated_bytes + delta)

unfoldable pub grow_if_loaded : World → World
unfolding loaded
grow_if_loaded w =
    if loaded w.table
    then (let (_, t, env) = kv_resize_unlocked (length w.table.buckets * 2) w.table w.env in
        record w { table = t; env = env })
    else w

-- The lock phase of `kv_set`: with all locks, or after the second test under the bucket's lock.
unfoldable pub set_lock_phase : ℕ → World → World
unfolding over_budget grow_if_loaded
set_lock_phase entry_bytes w =
    if loaded w.table || over_budget entry_bytes w.table
    then grow_if_loaded w
    else if loaded w.table || over_budget entry_bytes w.table
    then grow_if_loaded w
    else w

-- What follows on the write of the record: the change, or the error; a change that is refused
-- takes the record back.
unfoldable pub after_record : Status × Option ℕ × World → (World → Status × World) → Status × World
after_record (aof_err, aof_pos, w₁) change =
    if is_ok aof_err
    then (let (res, w₂) = change w₁ in
        (res, if is_ok res then w₂ else record w₂ { aof = rollback_aof_record aof_pos w₂.aof }))
    else (aof_err, w₁)

-- The record is written first, if a log is open.
unfoldable pub logged : List Bytes → (World → Status × World) → World → Status × World
unfolding after_record
logged parts change w = elim w.aof.aof_fp [
  | none ↦ change w
  | some fp ↦ after_record (write_aof_record parts w) change
]

unfoldable pub or_empty : Option Bytes → Bytes
or_empty none = []
or_empty (some b) = b

-- With the results of the two checks.
unfoldable pub set_validated :
    Validated → Validated → Option Bytes → Option Bytes → World → Status × World
unfolding set_lock_phase logged or_empty
set_validated (invalid e) v key value w = (e, w)
set_validated (valid key_len) (invalid e) key value w = (e, w)
set_validated (valid key_len) (valid val_len) key value w =
    logged (set_parts (or_empty key) (or_empty value)) (kv_set_internal key value)
      (set_lock_phase (sizeof_entry + key_len + 1 + val_len + 1) w)

unfoldable pub kv_set : Option Bytes → Option Bytes → World → Status × World
unfolding set_validated
kv_set key value w =
    if w.table.lock_initialized
    then set_validated (validate_key key) (validate_value value) key value w
    else (invalid_param, w)

-- entry->last_accessed_time = ++store->lru_clock
unfoldable pub touch : Found → Table → Table
unfolding tick
touch f t =
    let t' = tick t in store_entry f (record f.entry { last_accessed_time = t'.lru_clock }) t'

-- Only a string is read, and counts as accessed.
unfoldable pub read_payload : Value → Found → Table → Option Bytes × Table
unfolding touch
read_payload (list l) f t = (none, t)
read_payload (set_of s) f t = (none, t)
read_payload (string v) f t = (some v, touch f t)

unfoldable pub read_value : Option Found → Table → Option Bytes × Table
unfolding read_payload
read_value none t = (none, t)
read_value (some f) t = read_payload f.entry.value f t

unfoldable pub kv_get : Option Bytes → ℕ → World → Option Bytes × World
unfolding read_value
kv_get none now w = (none, w)
kv_get (some key) now w =
    if w.table.lock_initialized
    then (let (found, t) = find_entry_unlocked key now w.table in
        let (value, t') = read_value found t in (value, record w { table = t' }))
    else (none, w)

abbrev pub delete_parts : Bytes → List Bytes
delete_parts key = record₁ (bytes "DELETE") key

-- The entry under the key goes whether it is due or not; every refusal of the key is the same error.
unfoldable pub kv_delete_internal : Option Bytes → World → Status × World
unfolding log_rewrite
kv_delete_internal none w = (invalid_param, w)
kv_delete_internal (some key) w = elim (validate_key (some key)) [
  | invalid e ↦ (invalid_param, w)
  | valid key_len ↦ elim (find_raw key w.table) [
    | none ↦ (not_found, w)
    | some f ↦ (
      ok,
      log_rewrite (delete_parts key) (record w { table = expire_and_delete_unlocked f w.table }),
    )
  ]
]

unfoldable pub kv_delete : Option Bytes → World → Status × World
unfolding logged or_empty
kv_delete key w =
    if w.table.lock_initialized
    then elim (validate_key key) [
      | invalid e ↦ (invalid_param, w)
      | valid key_len ↦ logged (delete_parts (or_empty key)) (kv_delete_internal key) w
    ]
    else (invalid_param, w)

unfoldable pub kv_exists : Option Bytes → ℕ → World → Bool × World
kv_exists none now w = (false, w)
kv_exists (some key) now w =
    if w.table.lock_initialized
    then (let (found, t) = find_entry_unlocked key now w.table in
        (elim found [ none ↦ false | some f ↦ true ], record w { table = t }))
    else (false, w)
