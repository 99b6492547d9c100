-- ===== src/Sets.antt =====
-- The set commands of src/set.c.
use mini_kv_db_server.Prelude.{
  ℕ, ◌+◌, ◌-◌, ◌*◌, Bool, false, ◌||◌, Option, none, some, List, [], ◌∷◌, ◌++◌, ◌==◌, if◌then◌else◌,
  length, get_or, set, replicate,
}
use mini_kv_db_server.Prelude.Text.{Bytes, bytes, str_eq}
use mini_kv_db_server.Status.{Status, internal, invalid_param, wrong_type, budget_exceeded, is_ok}
use mini_kv_db_server.Env.{Env, library_call, tracked_malloc, tracked_calloc}
use mini_kv_db_server.Key.{
  Validated, valid, invalid, validate_key, validate_value, copy_string_bounded, hash_key,
  max_key_len, max_value_len,
}
use mini_kv_db_server.World.{World}
use mini_kv_db_server.Aof.{record₂}
use mini_kv_db_server.Table.Types.{KvSet, Value, string, list, set_of, Found}
use mini_kv_db_server.Table.Bytes.{sizeof_entry, sizeof_set, sizeof_pointer, set_node_bytes}
use mini_kv_db_server.Table.Ops.{find_raw, find_entry_unlocked}
use mini_kv_db_server.Kv.{make_room, touch, kv_delete_internal}
use mini_kv_db_server.Payload.{
  Reply, failed, number, to_int, Run, returned, use_after_free, log_change, create_entry,
  grow_payload, shrink_payload,
}

abbrev pub initial_buckets : ℕ
initial_buckets = 16

abbrev pub empty_set : KvSet
empty_set = record { buckets = replicate initial_buckets []; count = 0 }

abbrev pub slot_of : Bytes → KvSet → ℕ
slot_of value s = hash_key value (length s.buckets)

abbrev pub chain_of : Bytes → KvSet → List Bytes
chain_of value s = get_or s.buckets (slot_of value s) []

-- The walk with strcmp along one chain.
unfoldable pub has_value : Bytes → List Bytes → Bool
has_value value [] = false
has_value value (v ∷ c) = str_eq v value || has_value value c

-- The new node at the head of its chain.
unfoldable pub add_value : Bytes → KvSet → KvSet
add_value value s = record {
  buckets = set s.buckets (slot_of value s) (value ∷ chain_of value s);
  count = s.count + 1;
}

-- The chain without the first node that has the value, which is returned beside it.
unfoldable pub unlink_value : Bytes → List Bytes → Option (Bytes × List Bytes)
unlink_value value [] = none
unlink_value value (v ∷ c) =
    if str_eq v value
    then some (v, c)
    else elim (unlink_value value c) [ none ↦ none | some (u, r) ↦ some (u, v ∷ r) ]

-- malloc for the entry, the copy of the key, calloc for the set and for its buckets.
unfoldable pub alloc_set : Bytes → Env → Bool × Env
alloc_set key env =
    let (node, env₁) = tracked_malloc env in
    if node
    then (let (key_copy, env₂) = copy_string_bounded key max_key_len env₁ in
        if key_copy
        then (let (header, env₃) = tracked_calloc 1 sizeof_set env₂ in
            if header then tracked_calloc initial_buckets sizeof_pointer env₃ else (false, env₃))
        else (false, env₂))
    else (false, env₁)

unfoldable pub alloc_member : Bytes → Env → Bool × Env
alloc_member value env =
    let (node, env₁) = tracked_malloc env in
    if node then copy_string_bounded value max_value_len env₁ else (false, env₁)

-- The node goes to the set that `set` points to. The evictions before it may have freed that set.
unfoldable pub link_member : Bytes → Bytes → Option Found → World → Run (Reply × World)
unfolding add_value grow_payload log_change
link_member key value none w = use_after_free
link_member key value (some f) w = elim f.entry.value [
  | string v ↦ use_after_free
  | list l ↦ use_after_free
  | set_of s ↦
      let t = grow_payload f (set_of (add_value value s)) (set_node_bytes value) w.table in
      returned (number 1, log_change (record₂ (bytes "SADD") key value) (record w { table = t }))
]

-- From the budget for the node on.
unfoldable pub add_member : Bytes → Bytes → World → Run (Reply × World)
unfolding alloc_member link_member
add_member key value w =
    let (fits, w₁) = make_room (set_node_bytes value) w in
    if fits
    then (let (allocated, env) = alloc_member value w₁.env in
        let w₂ = record w₁ { env = env } in
        if allocated
        then link_member key value (find_raw key w₂.table) w₂
        else returned (failed internal, w₂))
    else returned (failed budget_exceeded, w₁)

-- A value that is in the set already is not added.
unfoldable pub add_once : Bytes → Bytes → KvSet → World → Run (Reply × World)
unfolding has_value add_member
add_once key value s w =
    if has_value value (chain_of value s) then returned (number 0, w) else add_member key value w

unfoldable pub add_existing : Bytes → Bytes → Found → Value → World → Run (Reply × World)
unfolding add_once
add_existing key value f (string v) w = returned (failed wrong_type, w)
add_existing key value f (list l) w = returned (failed wrong_type, w)
add_existing key value f (set_of s) w = add_once key value s (record w { table = touch f w.table })

unfoldable pub add_created : Bytes → Bytes → Status × World → Run (Reply × World)
unfolding add_once
add_created key value (status, w) =
    if is_ok status then add_once key value empty_set w else returned (failed status, w)

abbrev pub set_overhead : Bytes → ℕ
set_overhead key = sizeof_entry + length key + 1 + sizeof_set + initial_buckets * sizeof_pointer

unfoldable pub add_found : Bytes → Bytes → Option Found → World → Run (Reply × World)
unfolding add_existing add_created alloc_set create_entry
add_found key value (some f) w = add_existing key value f f.entry.value w
add_found key value none w =
    add_created key value (create_entry key (set_of empty_set) (set_overhead key) (alloc_set key) w)

-- With the results of the two checks.
unfoldable pub add_validated :
    Validated → Validated → Bytes → Bytes → ℕ → World → Run (Reply × World)
unfolding add_found
add_validated (invalid e) v key value now w = returned (failed e, w)
add_validated (valid n) (invalid e) key value now w = returned (failed e, w)
add_validated (valid n) (valid m) key value now w =
    let (found, t) = find_entry_unlocked key now w.table in
    add_found key value found (record w { table = t })

unfoldable pub kv_sadd : Option Bytes → Option Bytes → ℕ → World → Run (Reply × World)
unfolding add_validated
kv_sadd none value now w = returned (failed invalid_param, w)
kv_sadd (some key) none now w = returned (failed invalid_param, w)
kv_sadd (some key) (some value) now w =
    if w.table.lock_initialized
    then add_validated (validate_key (some key)) (validate_value (some value)) key value now w
    else returned (failed invalid_param, w)

-- The entry goes with its last member; else it counts as accessed.
unfoldable pub finish_remove : Bytes → Found → KvSet → World → World
finish_remove key f s w = if s.count == 0 then (kv_delete_internal (some key) w).1 else record w {
  table = touch (record f { entry = record f.entry { value = set_of s } }) w.table;
}

unfoldable pub remove_member : Bytes → Bytes → Found → KvSet → World → Reply × World
unfolding unlink_value shrink_payload log_change finish_remove
remove_member key value f s w =
    if s.count == 0 then (number 0, w) else elim (unlink_value value (chain_of value s)) [
      | none ↦ (number 0, w)
      | some (v, rest) ↦
          let s' : KvSet = record {
            buckets = set s.buckets (slot_of value s) rest;
            count = s.count - 1;
          } in
          let t = shrink_payload f (set_of s') (set_node_bytes v) w.table in
          (
            number 1,
            finish_remove key f s'
                (log_change (record₂ (bytes "SREM") key value) (record w { table = t })),
          )
    ]

unfoldable pub remove_found : Bytes → Bytes → Option Found → World → Reply × World
unfolding remove_member
remove_found key value none w = (number 0, w)
remove_found key value (some f) w = elim f.entry.value [
  | string v ↦ (failed wrong_type, w)
  | list l ↦ (failed wrong_type, w)
  | set_of s ↦ remove_member key value f s w
]

unfoldable pub kv_srem : Option Bytes → Option Bytes → ℕ → World → Reply × World
unfolding remove_found
kv_srem none value now w = (failed invalid_param, w)
kv_srem (some key) none now w = (failed invalid_param, w)
kv_srem (some key) (some value) now w =
    if w.table.lock_initialized
    then (let (found, t) = find_entry_unlocked key now w.table in
        remove_found key value found (record w { table = t }))
    else (failed invalid_param, w)

unfoldable pub scard_found : Option Found → World → Reply × World
unfolding to_int
scard_found none w = (number 0, w)
scard_found (some f) w = elim f.entry.value [
  | string v ↦ (failed wrong_type, w)
  | list l ↦ (failed wrong_type, w)
  | set_of s ↦ (to_int s.count, record w { table = touch f w.table })
]

unfoldable pub kv_scard : Option Bytes → ℕ → World → Reply × World
unfolding scard_found
kv_scard none now w = (failed invalid_param, w)
kv_scard (some key) now w =
    if w.table.lock_initialized
    then (let (found, t) = find_entry_unlocked key now w.table in
        scard_found found (record w { table = t }))
    else (failed invalid_param, w)

-- The members chain by chain.
unfoldable pub members_of : List (List Bytes) → List Bytes
members_of [] = []
members_of (c ∷ buckets) = c ++ members_of buckets

-- NULL for no set, an empty set and a failed malloc alike.
unfoldable pub members_found : Option Found → World → Option (List Bytes) × World
unfolding members_of
members_found none w = (none, w)
members_found (some f) w = elim f.entry.value [
  | string v ↦ (none, w)
  | list l ↦ (none, w)
  | set_of s ↦
      if s.count == 0
      then (none, w)
      else let (given, env) = library_call w.env in
        if given
        then (some (members_of s.buckets), record w { table = touch f w.table; env = env })
        else (none, record w { env = env })
]

unfoldable pub kv_smembers : Option Bytes → ℕ → World → Option (List Bytes) × World
unfolding members_found
kv_smembers none now w = (none, w)
kv_smembers (some key) now w =
    if w.table.lock_initialized
    then (let (found, t) = find_entry_unlocked key now w.table in
        members_found found (record w { table = t }))
    else (none, w)
