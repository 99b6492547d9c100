-- ===== src/Tests.antt =====
-- Each theorem on a concrete store, log, clock or pool.
pub mod Persistence
use mini_kv_db_server.Prelude.{
  ℕ, ◌+◌, ◌-◌, ◌*◌, ◌^◌, ◌≤◌, ◌<◌, ◌≡◌, ◌⊎◌, refl, ap, true, false, Option, none, some, [], ◌∷◌,
  arith, length, inl,
}
use mini_kv_db_server.Prelude.Int.{pos, negsuc}
use mini_kv_db_server.Prelude.Text.{Bytes, bytes, str_eq}
use mini_kv_db_server.Status.{ok, is_ok}
use mini_kv_db_server.Env.{Env}
use mini_kv_db_server.World.{Stream, Aof, master, Replication, World}
use mini_kv_db_server.Table.Types.{string, Entry}
use mini_kv_db_server.Table.Locks.{kv_lock_index}
use mini_kv_db_server.Table.Init.{
  lock_count, empty_table, empty_table-IsValid, kv_init_with_budget, kv_init_with_budget-IsValid,
}
use mini_kv_db_server.Table.Laws.{IsValid, view, view_of}
use mini_kv_db_server.Table.Lookup.{visible}
use mini_kv_db_server.Key.{
  valid, max_key_len, validate_key, bounded_strlen, has_space, validate_value, hash_key,
  copy_string_bounded,
}
use mini_kv_db_server.Aof.{write_aof_record, append_all}
use mini_kv_db_server.Env.{library_call, tracked_malloc, tracked_calloc}
use mini_kv_db_server.Table.Ops.{
  find_raw, push_entry, entry_is_expired, find_entry_unlocked, expire_and_delete_unlocked,
  store_entry,
}
use mini_kv_db_server.Table.Chain.{find_key, lookup}
use mini_kv_db_server.Kv.{
  kv_delete_internal, kv_set_internal, insert_new, make_room, kv_set, kv_get, kv_exists, kv_delete,
}
use mini_kv_db_server.Key.Laws.{validate_key_iff}
use mini_kv_db_server.Table.Evict.{evict_until}
use mini_kv_db_server.Table.Evict.Laws.{Ends, evict_until-Ends}
use mini_kv_db_server.Table.Resize.{kv_resize_unlocked}
use mini_kv_db_server.Table.Resize.Laws.{Resized, kv_resize_lem}
use mini_kv_db_server.Payload.{Reply, number, Run, returned, use_after_free}
use mini_kv_db_server.Lists.{kv_lpush, kv_rpop}
use mini_kv_db_server.Lists.Queue.{items, count_of, Pops, kv_rpop-Pops}
use mini_kv_db_server.Lists.Push.{Pushes, kv_lpush-Pushes}
use mini_kv_db_server.Ttl.{kv_persist, kv_pexpireat, kv_expire, kv_pttl, kv_expire_sample_sweep}
use mini_kv_db_server.Ttl.Expire.{
  Expires, TimeLeft, kv_pexpireat_lem, kv_pttl_lem, kv_expire-kv_pttl,
}
use mini_kv_db_server.Ttl.Persist.{Persists, kv_persist-Persists}
use mini_kv_db_server.Ttl.Sweep.{SweepDone, kv_expire_sample_sweep_lem}
use mini_kv_db_server.ThreadPool.{
  Pool, fresh_pool, thread_pool_create, thread_pool_submit, thread_pool_worker,
}
use mini_kv_db_server.ThreadPool.Fifo.{
  IsRing, pending, Submitted, TurnOf, fresh-IsRing, thread_pool_create-IsRing,
  thread_pool_submit_lem, thread_pool_worker_lem,
}
use mini_kv_db_server.Kv.Set.{
  kv_set-IsValid, view-kv_set, kv_set_unbounded, kv_set-budget, kv_set-capacity,
}
use mini_kv_db_server.Kv.Get.{shown, is_some, kv_get_lem, kv_exists_lem}
use mini_kv_db_server.Kv.Delete.{DeleteOutcome, kv_delete-Outcome}
use mini_kv_db_server.Kv.ReadAfterWrite.{is_stale, kv_set-kv_get, kv_delete-kv_get}

abbrev quiet : Env
quiet = record {
  alloc_fail_countdown = negsuc 0;
  io_fail = false;
  xorshift_state = 2463534242;
  outcomes = [];
}

-- A log at its default level, of which nothing has been rewritten.
abbrev log_of : Option Stream → Aof
log_of fp = record {
  aof_fp = fp;
  durability_level = 1;
  bgsave_pid = 0;
  aof_rewrite_pid = 0;
  aof_rewrite_buf = none;
  aof_rewrite_buf_len = 0;
  aof_rewrite_buf_cap = 0;
}

abbrev with_two_replicas : Replication
with_two_replicas = record { mode = master; replicas_head = 5 ∷ 6 ∷ []; sent = []; closed = [] }

-- An empty store of four buckets with a log and replicas, for three entries within a budget.
abbrev start : ℕ → World
start budget = record {
  table = empty_table 4 3 budget;
  aof = log_of (some (record { content = []; position = 0 }));
  replication = with_two_replicas;
  env = quiet;
}

start-IsValid : (budget : ℕ) → IsValid (start budget).table
start-IsValid budget = empty_table-IsValid 4 3 budget (omega arith)

abbrev name : Bytes
name = bytes "k"

abbrev ada : Bytes
ada = bytes "a"

abbrev grace : Bytes
grace = bytes "bc"

-- The store with one entry.
abbrev named : ℕ → World
named budget = (kv_set (some name) (some ada) (start budget)).1

named-IsValid : (budget : ℕ) → IsValid (named budget).table
named-IsValid budget = kv_set-IsValid name ada (start budget) (start-IsValid budget)

named_size : (named 600).table.size ≤ 1
unfolding kv_set validate_key bounded_strlen has_space validate_value write_aof_record
    kv_set_internal find_raw find_key hash_key insert_new make_room evict_until tracked_malloc
    copy_string_bounded push_entry str_eq append_all
named_size = omega arith

kv_set-IsValid_example : IsValid (kv_set (some name) (some grace) (named 600)).1.table
kv_set-IsValid_example = kv_set-IsValid name grace (named 600) (named-IsValid 600)

named_lem : (kv_set (some name) (some ada) (start 0)).0 ≡ ok
unfolding kv_set validate_key bounded_strlen has_space validate_value write_aof_record
    kv_set_internal find_raw find_key hash_key insert_new make_room tracked_malloc
    copy_string_bounded
named_lem = refl

view-kv_set_example :
    ((e : Entry) × (view (named 0).table name ≡ some e) × (e.value ≡ string ada))
    × ((q : Bytes)
        → str_eq name q ≡ false
        → (view (named 0).table q ≡ none) ⊎ (view (named 0).table q ≡ view (start 0).table q))
view-kv_set_example =
    view-kv_set name ada (start 0) (named 0) (start-IsValid 0) (ap (λ s. (s, named 0)) named_lem)

abbrev renamed : World
renamed = (kv_set (some name) (some grace) (named 0)).1

renamed_lem : (kv_set (some name) (some grace) (named 0)).0 ≡ ok
unfolding kv_set validate_key bounded_strlen has_space validate_value write_aof_record
    kv_set_internal find_raw find_key hash_key insert_new make_room tracked_malloc
    copy_string_bounded push_entry str_eq append_all
renamed_lem = refl

fresh_lem : is_stale (view (named 0).table name) 7 ≡ false
unfolding kv_set validate_key bounded_strlen has_space validate_value write_aof_record
    kv_set_internal find_raw find_key hash_key insert_new make_room tracked_malloc
    copy_string_bounded push_entry str_eq append_all view_of lookup entry_is_expired
fresh_lem = refl

kv_set-kv_get_example : (kv_get (some name) 7 renamed).0 ≡ some grace
kv_set-kv_get_example =
    kv_set-kv_get name grace 7 (named 0) renamed (named-IsValid 0)
      (ap (λ s. (s, renamed)) renamed_lem) fresh_lem

kv_set-budget_example : (kv_set (some name) (some ada) (start 600)).1.table.allocated_bytes ≤ 600
kv_set-budget_example =
    kv_set-budget name ada (start 600) (start-IsValid 600) (omega arith) (omega arith)

kv_set-capacity_example : (kv_set (some name) (some ada) (start 600)).1.table.size ≤ 3
kv_set-capacity_example =
    kv_set-capacity name ada (start 600) (start-IsValid 600) (omega arith) (omega arith)

other_lem : str_eq name grace ≡ false
unfolding str_eq
other_lem = refl

kv_set_unbounded_example :
    view (kv_set (some name) (some ada) (start 0)).1.table grace ≡ view (start 0).table grace
kv_set_unbounded_example =
    kv_set_unbounded name ada (start 0) grace (start-IsValid 0) refl (λ _. other_lem)

kv_delete-Outcome_example : DeleteOutcome name (named 0).table (kv_delete (some name) (named 0))
kv_delete-Outcome_example = kv_delete-Outcome name (named 0) (named-IsValid 0)

in_use_lem : (named 0).table.lock_initialized ≡ true
unfolding kv_set validate_key bounded_strlen has_space validate_value write_aof_record
    kv_set_internal find_raw find_key hash_key insert_new make_room tracked_malloc
    copy_string_bounded push_entry str_eq append_all
in_use_lem = refl

kv_get_lem_example :
    ((kv_get (some name) 7 (named 0)).0 ≡ shown (named 0).table 7 name)
    × IsValid (kv_get (some name) 7 (named 0)).1.table
    × ((q : Bytes) → shown (kv_get (some name) 7 (named 0)).1.table 7 q ≡ shown (named 0).table 7 q)
kv_get_lem_example = kv_get_lem name 7 (named 0) (named-IsValid 0) in_use_lem

kv_exists_lem_example :
    ((kv_exists (some name) 7 (named 0)).0 ≡ is_some (visible (named 0).table 7 name))
    × IsValid (kv_exists (some name) 7 (named 0)).1.table
    × ((q : Bytes)
        → visible (kv_exists (some name) 7 (named 0)).1.table 7 q ≡ visible (named 0).table 7 q)
kv_exists_lem_example = kv_exists_lem name 7 (named 0) (named-IsValid 0) in_use_lem

abbrev deleted : World
deleted = (kv_delete (some name) (named 0)).1

deleted_lem : ((kv_delete (some name) (named 0)).0 ≡ ok) × (deleted.table.lock_initialized ≡ true)
unfolding kv_set validate_key bounded_strlen has_space validate_value write_aof_record
    kv_set_internal find_raw find_key hash_key insert_new make_room tracked_malloc
    copy_string_bounded push_entry str_eq append_all kv_delete kv_delete_internal
    expire_and_delete_unlocked
deleted_lem = (refl, refl)

kv_delete-kv_get_example : (kv_get (some name) 7 deleted).0 ≡ none
kv_delete-kv_get_example =
    kv_delete-kv_get name 7 (named 0) deleted ok (named-IsValid 0) deleted_lem.1
      (ap (λ s. (s, deleted)) deleted_lem.0) (inl refl)

kv_init_with_budget-IsValid_example :
    IsValid (empty_table 4 3 600)
    × ((q : Bytes) → view (empty_table 4 3 600) q ≡ none)
    × ((empty_table 4 3 600).lock_initialized ≡ true)
    × (0 < 600 → (empty_table 4 3 600).allocated_bytes ≤ (empty_table 4 3 600).max_memory_budget)
unfolding kv_init_with_budget tracked_calloc
kv_init_with_budget-IsValid_example =
    kv_init_with_budget-IsValid 4 3 600 quiet (empty_table 4 3 600) refl

evict_until-Ends_example : Ends 580 (named 600).table (evict_until 1 580 (named 600).table 1).0
evict_until-Ends_example = evict_until-Ends 1 580 (named 600).table 1 (named-IsValid 600) named_size

kv_resize_lem_example :
    let r = kv_resize_unlocked 8 (named 0).table quiet in
    ((r.0 ≡ ok) × Resized 8 (named 0).table r.1) ⊎ ((is_ok r.0 ≡ false) × (r.1 ≡ (named 0).table))
kv_resize_lem_example = kv_resize_lem 8 (named 0).table quiet (named-IsValid 0)

kv_pexpireat_lem_example :
    Expires name (pos 90) 7 (named 0).table (kv_pexpireat (some name) (pos 90) 7 (named 0))
kv_pexpireat_lem_example = kv_pexpireat_lem name (pos 90) 7 (named 0) (named-IsValid 0) in_use_lem

kv_pttl_lem_example :
    TimeLeft (visible (named 0).table 7 name) 8 (kv_pttl (some name) 7 8 (named 0)).0
kv_pttl_lem_example = kv_pttl_lem name 7 8 (named 0) (named-IsValid 0) in_use_lem

-- The entry of that store, as a reader sees it.
abbrev named_entry : Entry
named_entry = record {
  key = name;
  value = string ada;
  expire_at_ms = pos 0;
  last_accessed_time = 1;
}

named_entry_lem : visible (named 0).table 8 name ≡ some named_entry
unfolding kv_set validate_key bounded_strlen has_space validate_value write_aof_record
    kv_set_internal find_raw find_key hash_key insert_new make_room tracked_malloc
    copy_string_bounded push_entry str_eq append_all view_of lookup entry_is_expired
named_entry_lem = refl

kv_expire-kv_pttl_example :
    (w' : World) × (kv_expire (some name) (pos 1) 7 8 (named 0) ≡ some (number 1, w'))
    × (900 < 7 + 1 * 1000
        → ((kv_exists (some name) 900 w').0 ≡ true)
          × ((kv_pttl (some name) 900 900 w').0 ≡ some (pos (7 + 1 * 1000 - 900))))
    × (7 + 1 * 1000 ≤ 900
        → ((kv_exists (some name) 900 w').0 ≡ false)
          × ((kv_pttl (some name) 900 900 w').0 ≡ some (negsuc 1)))
kv_expire-kv_pttl_example =
    kv_expire-kv_pttl name 1 7 8 900 named_entry (named 0) (named-IsValid 0) in_use_lem
      (omega arith) (omega arith) named_entry_lem

kv_expire_sample_sweep_lem_example :
    let x = kv_expire_sample_sweep 20 5 9 (named 0) in
    SweepDone 9 5 (named 0).table (x.0, x.1.table)
kv_expire_sample_sweep_lem_example = kv_expire_sample_sweep_lem 20 5 9 (named 0) (named-IsValid 0)

abbrev pool : Pool ℕ
pool = fresh_pool 2 3

pool-IsRing : IsRing pool
pool-IsRing = (fresh-IsRing 2 3 (omega arith)).0

thread_pool_create-IsRing_example : IsRing pool × (pending pool ≡ [])
unfolding thread_pool_create library_call
thread_pool_create-IsRing_example = thread_pool_create-IsRing 2 3 quiet pool refl

thread_pool_submit_lem_example : Submitted 9 pool (thread_pool_submit (some 9) pool)
thread_pool_submit_lem_example = thread_pool_submit_lem 9 pool pool-IsRing

abbrev busy : Pool ℕ
busy = record pool { queue = some 9 ∷ none ∷ none ∷ []; queue_tail = 1; queue_count = 1 }

busy-IsRing : IsRing busy
busy-IsRing = record {
  roomy = omega arith;
  width = refl;
  count = omega arith;
  head = omega arith;
  tail = refl;
}

thread_pool_worker_lem_example : TurnOf busy (thread_pool_worker busy)
thread_pool_worker_lem_example = thread_pool_worker_lem busy busy-IsRing

validate_key_iff_example :
    (validate_key (some name) ≡ valid 1
      → (1 ≤ length name)
        × (length name ≤ max_key_len)
        × (has_space name ≡ false)
        × (1 ≡ length name))
    × (1 ≤ length name
        → length name ≤ max_key_len
        → has_space name ≡ false
        → validate_key (some name) ≡ valid (length name))
validate_key_iff_example = validate_key_iff name 1

counted_lem :
    count_of (visible (start 0).table 7 name) ≡ length (items (visible (start 0).table 7 name))
unfolding view_of hash_key lookup
counted_lem = refl

short_lem : length (items (visible (start 0).table 7 name)) + 1 < 2 ^ 31
unfolding view_of hash_key lookup
short_lem = omega arith

kv_lpush-Pushes_example :
    Pushes name ada 7 (start 0).table (kv_lpush (some name) (some ada) 7 (start 0))
kv_lpush-Pushes_example =
    kv_lpush-Pushes name ada 7 (start 0) (start-IsValid 0) refl counted_lem short_lem

abbrev world_of : Run (Reply × World) → World
world_of (returned (reply, w)) = w
world_of use_after_free = start 0

-- The store with one list.
abbrev listed : World
listed = world_of (kv_lpush (some name) (some ada) 7 (start 0))

listed-IsValid : IsValid listed.table
listed-IsValid =
    let p = kv_lpush-Pushes name ada 7 (start 0) (start-IsValid 0) refl counted_lem short_lem in
    rw (ap world_of p.2) p.3.0

listed_lem :
    (listed.table.lock_initialized ≡ true)
    × (count_of (visible listed.table 7 name) ≡ length (items (visible listed.table 7 name)))
unfolding kv_lpush validate_key bounded_strlen has_space validate_value write_aof_record find_raw
    find_key hash_key make_room tracked_malloc tracked_calloc copy_string_bounded push_entry str_eq
    append_all view_of lookup entry_is_expired find_entry_unlocked store_entry
listed_lem = (refl, refl)

name_lem : validate_key (some name) ≡ valid 1
unfolding validate_key bounded_strlen has_space
name_lem = refl

kv_rpop-Pops_example : Pops name 7 listed.table (kv_rpop (some name) 7 listed)
kv_rpop-Pops_example =
    kv_rpop-Pops name 7 1 listed listed-IsValid listed_lem.0 name_lem listed_lem.1

kv_persist-Persists_example : Persists name 7 (named 0).table (kv_persist (some name) 7 (named 0))
kv_persist-Persists_example = kv_persist-Persists name 7 (named 0) (named-IsValid 0) in_use_lem

abbrev capital : Bytes
capital = 67 ∷ []

-- Of 16 buckets, "a" and "q" share one, but not its lock.
two_locks :
    (hash_key (bytes "a") 16 ≡ hash_key (bytes "q") 16)
    × (kv_lock_index (some (bytes "a")) (empty_table 16 0 0) ≡ 6)
    × (kv_lock_index (some (bytes "q")) (empty_table 16 0 0) ≡ 22)
unfolding hash_key kv_lock_index lock_count
two_locks = (refl, refl, refl)
