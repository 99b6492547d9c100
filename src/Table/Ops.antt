-- ===== src/Table/Ops.antt =====
-- Reading and deleting entries: `entry_is_expired`, `find_entry_unlocked` and
-- `expire_and_delete_unlocked` of src/kv.c.
use mini_kv_db_server.Prelude.{
  ℕ, ◌-◌, Bool, false, ◌&&◌, Option, none, some, List, [], ◌∷◌, leb, ltb, if◌then◌else◌, length,
  get_or, set, remove_at,
}
use mini_kv_db_server.Prelude.Int.{ℤ, pos, negsuc}
use mini_kv_db_server.Prelude.Text.{Bytes}
use mini_kv_db_server.Key.{hash_key}
use mini_kv_db_server.Table.Types.{Entry, Table, Found}
use mini_kv_db_server.Table.Bytes.{entry_bytes}
use mini_kv_db_server.Table.Chain.{find_key}

-- expire_at_ms > 0 && expire_at_ms <= now_ms
unfoldable pub is_due : ℤ → ℕ → Bool
is_due (pos t) now_ms = ltb 0 t && leb t now_ms
is_due (negsuc t) now_ms = false

unfoldable pub entry_is_expired : Entry → ℕ → Bool
unfolding is_due
entry_is_expired entry now_ms = is_due entry.expire_at_ms now_ms

abbrev pub chain_at : Table → ℕ → List Entry
chain_at store index = get_or store.buckets index []

-- The node behind `prev` is unlinked, freed and taken off the counters.
unfoldable pub expire_and_delete_unlocked : Found → Table → Table
expire_and_delete_unlocked f store =
    let freed = entry_bytes f.entry in
    record store {
      buckets = set store.buckets f.index (remove_at f.position (chain_at store f.index));
      size = if ltb 0 store.size then store.size - 1 else store.size;
      allocated_bytes =
          if leb freed store.allocated_bytes then store.allocated_bytes - freed else 0;
    }

-- The first entry under a key in its bucket, with no regard to its expiry.
unfoldable pub find_raw : Bytes → Table → Option Found
find_raw key store =
    let index = hash_key key (length store.buckets) in
    elim (find_key key (chain_at store index)) [
      | none ↦ none
      | some (i, e) ↦ some (record { index = index; position = i; entry = e })
    ]

unfoldable pub drop_if_due : ℕ → Found → Table → Option Found × Table
drop_if_due now f store =
    if entry_is_expired f.entry now
    then (none, expire_and_delete_unlocked f store)
    else (some f, store)

-- An entry that is due at the time `now`, the clock's reading, is deleted on the way.
unfoldable pub find_entry_unlocked : Bytes → ℕ → Table → Option Found × Table
unfolding drop_if_due find_raw
find_entry_unlocked key now store = elim (find_raw key store) [
  | none ↦ (none, store)
  | some f ↦ drop_if_due now f store
]

-- A write through a pointer to an entry.
unfoldable pub store_entry : Found → Entry → Table → Table
store_entry f e store = record store {
  buckets = set store.buckets f.index (set (chain_at store f.index) f.position e);
}

-- entry->next = buckets[idx]; buckets[idx] = entry
unfoldable pub push_entry : List (List Entry) → Entry → List (List Entry)
push_entry buckets entry =
    let index = hash_key entry.key (length buckets) in
    set buckets index (entry ∷ get_or buckets index [])
