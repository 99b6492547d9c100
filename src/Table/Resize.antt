-- ===== src/Table/Resize.antt =====
-- `kv_resize_unlocked` of src/kv.c.
pub mod Moves
pub mod Laws
use mini_kv_db_server.Prelude.{
  ℕ, zero, ◌+◌, ◌-◌, ◌*◌, Bool, true, false, ◌&&◌, List, [], ◌∷◌, ◌==◌, ltb, if◌then◌else◌, length,
  replicate,
}
use mini_kv_db_server.Status.{Status, ok, internal, invalid_param, budget_exceeded}
use mini_kv_db_server.Env.{Env, tracked_calloc}
use mini_kv_db_server.Table.Types.{Entry, Table}
use mini_kv_db_server.Table.Bytes.{sizeof_pointer}
use mini_kv_db_server.Table.Ops.{push_entry}

-- The walk along one chain: each node goes to the head of its new chain.
unfoldable pub move_chain : List Entry → List (List Entry) → List (List Entry)
move_chain [] fresh = fresh
move_chain (e ∷ c) fresh = move_chain c (push_entry fresh e)

unfoldable pub move_all : List (List Entry) → List (List Entry) → List (List Entry)
move_all [] fresh = fresh
move_all (c ∷ buckets) fresh = move_all buckets (move_chain c fresh)

-- if (allocated_bytes > peak_allocated_bytes) peak_allocated_bytes = allocated_bytes
unfoldable pub raise_peak : Table → Table
raise_peak t = record t {
  peak_allocated_bytes =
      if ltb t.peak_allocated_bytes t.allocated_bytes
      then t.allocated_bytes
      else t.peak_allocated_bytes;
}

-- What is done once the new array is there; both arrays count for the peak.
unfoldable pub rehash : ℕ → Table → Table
unfolding raise_peak
rehash new_bucket_count t =
    let new_bytes = new_bucket_count * sizeof_pointer in
    let old_bytes = length t.buckets * sizeof_pointer in
    let grown = raise_peak (record t { allocated_bytes = t.allocated_bytes + new_bytes }) in
    record grown {
      buckets = move_all t.buckets (replicate new_bucket_count []);
      allocated_bytes = grown.allocated_bytes - old_bytes;
    }

unfoldable pub kv_resize_unlocked : ℕ → Table → Env → Status × Table × Env
kv_resize_unlocked new_bucket_count t env =
    if new_bucket_count == 0
    then (invalid_param, t, env)
    else if ltb 0 t.max_memory_budget
        && ltb t.max_memory_budget (t.allocated_bytes + new_bucket_count * sizeof_pointer)
    then (budget_exceeded, t, env)
    else let (given, env') = tracked_calloc new_bucket_count sizeof_pointer env in
      if given then (ok, rehash new_bucket_count t, env') else (internal, t, env')
