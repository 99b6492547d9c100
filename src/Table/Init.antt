-- ===== src/Table/Init.antt =====
-- Stores without a log: `kv_init`, `kv_init_with_capacity` and `kv_init_with_budget` of src/kv.c,
-- which are `kv_init_full` with no path.
use mini_kv_db_server.Prelude.{
  ℕ, zero, suc, ◌*◌, ◌≤◌, ◌<◌, ◌≡◌, refl, true, false, ◌&&◌, Option, none, some, List, [], arith,
  ◌==◌, ltb, if◌then◌else◌, length, get_or, replicate, length-replicate, sum_by,
}
use mini_kv_db_server.Prelude.Text.{Bytes}
use mini_kv_db_server.Status.{Status, ok, internal, invalid_param, budget_exceeded}
use mini_kv_db_server.Env.{Env, library_call, tracked_calloc}
use mini_kv_db_server.Key.{hash_key}
use mini_kv_db_server.Table.Types.{Entry, Table}
use mini_kv_db_server.Table.Bytes.{sizeof_pointer, entry_bytes, path_bytes}
use mini_kv_db_server.Table.Chain.{count, lookup}
use mini_kv_db_server.Table.Laws.{IsValid, view, view_of}

-- As many locks as buckets, but from KV_DEFAULT_NUM_LOCKS to 64.
unfoldable pub lock_count : ℕ → ℕ
lock_count bucket_count =
    if ltb 64 bucket_count then 64 else if ltb bucket_count 32 then 32 else bucket_count

abbrev pub empty_table : ℕ → ℕ → ℕ → Table
empty_table bucket_count max_capacity max_memory_budget = record {
  buckets = replicate bucket_count [];
  size = 0;
  max_capacity = max_capacity;
  allocated_bytes = bucket_count * sizeof_pointer;
  peak_allocated_bytes = bucket_count * sizeof_pointer;
  max_memory_budget = max_memory_budget;
  auto_resize = true;
  aof_path = none;
  num_locks = lock_count bucket_count;
  lock_initialized = true;
  lru_clock = 0;
}

-- The last step allocates the locks, with calloc itself.
unfoldable pub kv_init_with_budget : ℕ → ℕ → ℕ → Env → Status × Option Table × Env
unfolding library_call
kv_init_with_budget bucket_count max_capacity max_memory_budget env =
    if bucket_count == 0
    then (invalid_param, none, env)
    else if ltb 0 max_memory_budget && ltb max_memory_budget (bucket_count * sizeof_pointer)
    then (budget_exceeded, none, env)
    else let (buckets, env₁) = tracked_calloc bucket_count sizeof_pointer env in
      elim buckets [
        | false ↦ (internal, none, env₁)
        | true ↦
            let (locks, env₂) = library_call env₁ in
            elim locks [
              | false ↦ (internal, none, env₂)
              | true ↦ (ok, some (empty_table bucket_count max_capacity max_memory_budget), env₂)
            ]
      ]

abbrev no_entries : List Entry
no_entries = []

get_or-replicate : {A : Type 0} (n i : ℕ) (x : A) → get_or (replicate n x) i x ≡ x
get_or-replicate zero i x = refl
get_or-replicate (suc n) zero x = refl
get_or-replicate (suc n) (suc i) x = get_or-replicate n i x

sum_by-replicate : {A : Type 0} (m : A → ℕ) (n : ℕ) (x : A) → m x ≡ 0 → sum_by m (replicate n x) ≡ 0
sum_by-replicate m zero x e = refl
sum_by-replicate m (suc n) x e = omega (arith, sum_by-replicate m n x e, e)

pub empty_table-IsValid : (n c b : ℕ) → 0 < n → IsValid (empty_table n c b)
unfolding count
empty_table-IsValid n c b pos = record {
  roomy = omega (arith, length-replicate n no_entries);
  placed = λ q i. rw (get_or-replicate n i no_entries) (omega arith);
  counted = sum_by-replicate (sum_by (λ _. 1)) n [] refl;
  accounted =
      unfold path_bytes in
      omega (arith, length-replicate n no_entries, sum_by-replicate (sum_by entry_bytes) n [] refl);
  peaked = omega arith;
}

pub view-empty_table : (n c b : ℕ) (q : Bytes) → view (empty_table n c b) q ≡ none
unfolding view_of lookup
view-empty_table n c b q =
    rw (get_or-replicate n (hash_key q (length (replicate n no_entries))) no_entries) refl

-- A store that has been initialised without a log is valid, holds no key, is in use, and is within
-- its memory budget if it has one.
pub kv_init_with_budget-IsValid :
    (bucket_count max_capacity max_memory_budget : ℕ) (env : Env) (t : Table)
    → (kv_init_with_budget bucket_count max_capacity max_memory_budget env).1 ≡ some t
    → IsValid t
      × ((q : Bytes) → view t q ≡ none)
      × (t.lock_initialized ≡ true)
      × (0 < max_memory_budget → t.allocated_bytes ≤ t.max_memory_budget)
unfolding kv_init_with_budget
kv_init_with_budget-IsValid n c b env t h =
    let e : t ≡ empty_table n c b = ground arith in
    let pos : 0 < n = ground arith in
    rw e (empty_table-IsValid n c b pos, view-empty_table n c b, refl, λ p. ground arith)
