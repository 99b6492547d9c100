-- ===== src/Lists.antt =====
-- The list commands of src/list.c.
pub mod Queue
pub mod Push
use mini_kv_db_server.Prelude.{
  ℕ, ◌+◌, ◌-◌, Bool, false, Option, none, some, List, [], ◌∷◌, ◌==◌, if◌then◌else◌, length,
}
use mini_kv_db_server.Prelude.Text.{Bytes, bytes}
use mini_kv_db_server.Status.{
  Status, ok, not_found, internal, invalid_param, wrong_type, budget_exceeded, is_ok,
}
use mini_kv_db_server.Env.{Env, library_call, tracked_malloc, tracked_calloc}
use mini_kv_db_server.Key.{
  Validated, valid, invalid, validate_key, validate_value, copy_string_bounded, max_key_len,
  max_value_len,
}
use mini_kv_db_server.World.{World}
use mini_kv_db_server.Aof.{record₁, record₂}
use mini_kv_db_server.Table.Types.{KvList, Value, string, list, set_of, Found}
use mini_kv_db_server.Table.Bytes.{sizeof_entry, sizeof_list, list_node_bytes}
use mini_kv_db_server.Table.Ops.{find_raw, find_entry_unlocked}
use mini_kv_db_server.Kv.{make_room, touch, kv_delete_internal}
use mini_kv_db_server.Payload.{
  Reply, failed, number, to_int, Run, returned, use_after_free, log_change, create_entry,
  grow_payload, shrink_payload,
}

abbrev pub empty_list : KvList
empty_list = record { nodes = []; count = 0 }

-- The new node becomes the head.
unfoldable pub push_head : Bytes → KvList → KvList
push_head value l = record { nodes = value ∷ l.nodes; count = l.count + 1 }

-- The tail node, and the nodes before it.
unfoldable pub split_tail : List Bytes → Option (List Bytes × Bytes)
split_tail [] = none
split_tail (v ∷ []) = some ([], v)
split_tail (v ∷ u ∷ r) = elim (split_tail (u ∷ r)) [
  | none ↦ none
  | some (front, last) ↦ some (v ∷ front, last)
]

-- malloc for the entry, the copy of the key, and calloc for the list.
unfoldable pub alloc_list : Bytes → Env → Bool × Env
alloc_list key env =
    let (node, env₁) = tracked_malloc env in
    if node
    then (let (key_copy, env₂) = copy_string_bounded key max_key_len env₁ in
        if key_copy then tracked_calloc 1 sizeof_list env₂ else (false, env₂))
    else (false, env₁)

-- malloc for the node, and the copy of the value.
unfoldable pub alloc_node : Bytes → Env → Bool × Env
alloc_node value env =
    let (node, env₁) = tracked_malloc env in
    if node then copy_string_bounded value max_value_len env₁ else (false, env₁)

-- The node goes to the list that `list` points to. The evictions before it may have freed that list.
unfoldable pub link_node : Bytes → Bytes → Option Found → World → Run (Reply × World)
unfolding push_head grow_payload log_change to_int
link_node key value none w = use_after_free
link_node key value (some f) w = elim f.entry.value [
  | string v ↦ use_after_free
  | set_of s ↦ use_after_free
  | list l ↦
      let l' = push_head value l in
      let t = grow_payload f (list l') (list_node_bytes value) w.table in
      returned
        (to_int l'.count, log_change (record₂ (bytes "LPUSH") key value) (record w { table = t }))
]

-- From the budget for the node on.
unfoldable pub push_node : Bytes → Bytes → World → Run (Reply × World)
unfolding alloc_node link_node
push_node key value w =
    let (fits, w₁) = make_room (list_node_bytes value) w in
    if fits
    then (let (allocated, env) = alloc_node value w₁.env in
        let w₂ = record w₁ { env = env } in
        if allocated
        then link_node key value (find_raw key w₂.table) w₂
        else returned (failed internal, w₂))
    else returned (failed budget_exceeded, w₁)

-- An entry that is there counts as accessed, if it is a list.
unfoldable pub push_existing : Bytes → Bytes → Found → Value → World → Run (Reply × World)
unfolding push_node
push_existing key value f (string v) w = returned (failed wrong_type, w)
push_existing key value f (set_of s) w = returned (failed wrong_type, w)
push_existing key value f (list l) w = push_node key value (record w { table = touch f w.table })

-- The result of making a new entry.
unfoldable pub push_created : Bytes → Bytes → Status × World → Run (Reply × World)
unfolding push_node
push_created key value (status, w) =
    if is_ok status then push_node key value w else returned (failed status, w)

unfoldable pub push_found : Bytes → Bytes → Option Found → World → Run (Reply × World)
unfolding push_existing push_created alloc_list create_entry
push_found key value (some f) w = push_existing key value f f.entry.value w
push_found key value none w = push_created key value (
    create_entry key (list empty_list) (sizeof_entry + length key + 1 + sizeof_list)
      (alloc_list key) w)

-- With the results of the two checks.
unfoldable pub push_validated :
    Validated → Validated → Bytes → Bytes → ℕ → World → Run (Reply × World)
unfolding push_found
push_validated (invalid e) v key value now w = returned (failed e, w)
push_validated (valid n) (invalid e) key value now w = returned (failed e, w)
push_validated (valid n) (valid m) key value now w =
    let (found, t) = find_entry_unlocked key now w.table in
    push_found key value found (record w { table = t })

unfoldable pub kv_lpush : Option Bytes → Option Bytes → ℕ → World → Run (Reply × World)
unfolding push_validated
kv_lpush none value now w = returned (failed invalid_param, w)
kv_lpush (some key) none now w = returned (failed invalid_param, w)
kv_lpush (some key) (some value) now w =
    if w.table.lock_initialized
    then push_validated (validate_key (some key)) (validate_value (some value)) key value now w
    else returned (failed invalid_param, w)

-- The entry goes with its last node; else it counts as accessed.
unfoldable pub finish_pop : Bytes → Found → KvList → World → World
finish_pop key f l w =
    if l.count == 0
    then (kv_delete_internal (some key) w).1
    else record w { table = touch (record f { entry = record f.entry { value = list l } }) w.table }

-- The tail node is copied for the caller, unlinked and freed.
unfoldable pub pop_tail : Bytes → Found → KvList → World → Status × Option Bytes × World
unfolding split_tail shrink_payload log_change finish_pop
pop_tail key f l w = elim (split_tail l.nodes) [
  | none ↦ (not_found, none, w)
  | some (front, last) ↦
      if l.count == 0
      then (not_found, none, w)
      else let (given, env) = library_call w.env in
        if given
        then (let l' : KvList = record { nodes = front; count = l.count - 1 } in
            let t = shrink_payload f (list l') (list_node_bytes last) w.table in
            (
              ok,
              some last,
              finish_pop key f l'
                  (log_change (record₁ (bytes "RPOP") key) (record w { table = t; env = env })),
            ))
        else (internal, none, record w { env = env })
]

unfoldable pub pop_found : Bytes → Option Found → World → Status × Option Bytes × World
unfolding pop_tail
pop_found key none w = (not_found, none, w)
pop_found key (some f) w = elim f.entry.value [
  | string v ↦ (wrong_type, none, w)
  | set_of s ↦ (wrong_type, none, w)
  | list l ↦ pop_tail key f l w
]

-- The status, and what goes to `out_value`.
unfoldable pub kv_rpop : Option Bytes → ℕ → World → Status × Option Bytes × World
unfolding pop_found
kv_rpop none now w = (invalid_param, none, w)
kv_rpop (some key) now w =
    if w.table.lock_initialized
    then (let (found, t) = find_entry_unlocked key now w.table in
        pop_found key found (record w { table = t }))
    else (invalid_param, none, w)

unfoldable pub count_found : Option Found → World → Reply × World
unfolding to_int
count_found none w = (number 0, w)
count_found (some f) w = elim f.entry.value [
  | string v ↦ (failed wrong_type, w)
  | set_of s ↦ (failed wrong_type, w)
  | list l ↦ (to_int l.count, record w { table = touch f w.table })
]

unfoldable pub kv_llen : Option Bytes → ℕ → World → Reply × World
unfolding count_found
kv_llen none now w = (failed invalid_param, w)
kv_llen (some key) now w =
    if w.table.lock_initialized
    then (let (found, t) = find_entry_unlocked key now w.table in
        count_found found (record w { table = t }))
    else (failed invalid_param, w)
