-- ===== src/ThreadPool.antt =====
-- The task queue of src/thread_pool.c: a ring buffer under one mutex. Each step is what a thread does
-- while it holds the mutex.
pub mod Fifo
use mini_kv_db_server.Prelude.{
  ℕ, zero, suc, ◌+◌, ◌-◌, ◌%◌, Bool, true, false, ◌&&◌, ◌||◌, not, Option, none, some, List, [],
  ◌∷◌, ◌==◌, leb, ltb, if◌then◌else◌, length, get_or, set, replicate,
}
use mini_kv_db_server.Status.{Status, ok, internal, invalid_param, again}
use mini_kv_db_server.Env.{Env, library_call}

-- `thread_pool_t`, for tasks of any kind; a slot that calloc has cleared has no function.
pub record Pool {ℓ} (A : Type ℓ) : Type ℓ where
  pub num_threads : ℕ
  pub queue : List (Option A)
  pub queue_capacity : ℕ
  pub queue_head : ℕ
  pub queue_tail : ℕ
  pub queue_count : ℕ
  pub shutdown : Bool

-- Calls that all have to succeed; the first that fails is the last.
unfoldable pub all_succeed : ℕ → Env → Bool × Env
unfolding library_call
all_succeed zero env = (true, env)
all_succeed (suc n) env =
    let (b, env') = library_call env in elim b [ false ↦ (false, env') | true ↦ all_succeed n env' ]

-- What a worker does with the mutex held: it waits for the condition, ends, or leaves with a task.
pub data Turn {ℓ} (A : Type ℓ) : Type ℓ where
  wait : Turn A
  exit : Turn A
  run : Option A → Pool A → Turn A

module _ {ℓ} {A : Type ℓ} where
  abbrev pub fresh_pool : ℕ → ℕ → Pool A
  fresh_pool num_threads max_queue_size = record {
    num_threads = num_threads;
    queue = replicate max_queue_size none;
    queue_capacity = max_queue_size;
    queue_head = 0;
    queue_tail = 0;
    queue_count = 0;
    shutdown = false;
  }

  -- Three allocations, the mutex, the condition, and the threads.
  unfoldable pub thread_pool_create : ℕ → ℕ → Env → Option (Pool A) × Env
  unfolding all_succeed
  thread_pool_create num_threads max_queue_size env =
      if num_threads == 0 || max_queue_size == 0
      then (none, env)
      else let (made, env') = all_succeed (5 + num_threads) env in
        (elim made [ false ↦ none | true ↦ some (fresh_pool num_threads max_queue_size) ], env')

  -- A task without a function is refused.
  unfoldable pub thread_pool_submit : Option A → Pool A → Status × Pool A
  thread_pool_submit none p = (invalid_param, p)
  thread_pool_submit (some task) p =
      if p.shutdown
      then (internal, p)
      else if leb p.queue_capacity p.queue_count
      then (again, p)
      else (
        ok,
        record p {
          queue = set p.queue p.queue_tail (some task);
          queue_tail = (p.queue_tail + 1) % p.queue_capacity;
          queue_count = p.queue_count + 1;
        },
      )

  unfoldable pub thread_pool_worker : Pool A → Turn A
  thread_pool_worker p =
      if p.queue_count == 0 && not p.shutdown
      then wait
      else if p.shutdown && p.queue_count == 0
      then exit
      else run (get_or p.queue p.queue_head none) (record p {
        queue_head = (p.queue_head + 1) % p.queue_capacity;
        queue_count = p.queue_count - 1;
      })

  -- What `thread_pool_destroy` sets before it joins the workers.
  unfoldable pub request_shutdown : Pool A → Pool A
  request_shutdown p = record p { shutdown = true }
