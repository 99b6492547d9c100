-- ===== src/Startup/Outcome.antt =====
-- What `kv_init_full` of src/kv.c does with a log that consists of records.
use mathlib.Core.Path.{subst}
use mini_kv_db_server.Prelude.{
  ℕ, ◌+◌, ◌*◌, ◌≤◌, ◌<◌, ◌≡◌, ◌⊎◌, inl, inr, refl, sym, Bool, true, false, ◌&&◌, Option, none, some,
  List, [], arith, ltb, ◌==◌, if_both, length, length-replicate, All, Bool-cases,
}
use mini_kv_db_server.Prelude.Text.{Bytes}
use mini_kv_db_server.Status.{Status, ok, internal, invalid_param, budget_exceeded, io}
use mini_kv_db_server.Env.{Env, tracked_malloc, tracked_calloc, library_call}
use mini_kv_db_server.World.{Replication, World}
use mini_kv_db_server.Table.Types.{Entry, Table}
use mini_kv_db_server.Table.Resize.{raise_peak}
use mini_kv_db_server.Table.Laws.{IsValid, view}
use mini_kv_db_server.Table.Init.{
  empty_table, kv_init_with_budget, empty_table-IsValid, view-empty_table,
}
use mini_kv_db_server.Kv.{or_empty}
use mini_kv_db_server.Payload.{Run, returned, use_after_free}
use mini_kv_db_server.Replay.Changes.{Change, apply_all, log_of, IsLoggable}
use mini_kv_db_server.Replay.Changes.Log.{replay_aof_log-log_of}
use mini_kv_db_server.Startup.{kv_init_full, init_path, init_with_log, open_log, started, with_path}

-- The bytes that the buckets and the copy of the path take.
abbrev pub base_bytes : ℕ → Bytes → ℕ
base_bytes bucket_count path = bucket_count * 8 + (length path + 1)

-- One of the three allocations fails.
abbrev pub OutOfMemory : ℕ → Env → Type 0
OutOfMemory bucket_count env =
    let buckets = tracked_calloc bucket_count 8 env in
    let locks = library_call buckets.1 in
    (buckets.0 ≡ false) ⊎ ((locks.0 ≡ false) ⊎ ((tracked_malloc locks.1).0 ≡ false))

-- A store in use that holds no key and counts the copy of its path, and whose log is not open yet.
abbrev pub IsEmptyStore : ℕ → ℕ → ℕ → Bytes → Replication → World → Type 0
IsEmptyStore bucket_count max_capacity budget path r w =
    IsValid w.table
    × ((q : Bytes) → view w.table q ≡ none)
    × (length w.table.buckets ≡ bucket_count)
    × (w.table.lock_initialized ≡ true)
    × (w.table.max_capacity ≡ max_capacity)
    × (w.table.max_memory_budget ≡ budget)
    × (w.table.aof_path ≡ some path)
    × (w.table.allocated_bytes ≡ base_bytes bucket_count path)
    × (w.aof.aof_fp ≡ none)
    × (w.replication ≡ r)

-- The result after the replay: fopen fails, or gives a stream with the bytes of the log.
abbrev pub Reopened : Option ℕ → Bytes → Run World → Run (Status × Option World) → Type 0
Reopened reopened log use_after_free x = x ≡ use_after_free
Reopened none log (returned w) x = x ≡ returned (io, none)
Reopened (some position) log (returned w) x =
    (w' : World) × (x ≡ returned (ok, some w'))
    × (w'.table ≡ w.table)
    × (w'.aof.aof_fp ≡ some (record { content = log; position = position }))

abbrev pub StartOutcome :
    ℕ
    → ℕ
    → ℕ
    → Bytes
    → List Change
    → Option ℕ
    → ℕ
    → Replication
    → Env
    → Run (Status × Option World)
    → Type 0
StartOutcome bucket_count max_capacity budget path changes reopened now r env x =
    ((bucket_count ≡ 0) × (x ≡ returned (invalid_param, none)))
    ⊎ (((0 < budget)
          × (budget < base_bytes bucket_count path)
          × (x ≡ returned (budget_exceeded, none)))
        ⊎ ((OutOfMemory bucket_count env × (x ≡ returned (internal, none)))
            ⊎ (((budget ≡ 0) ⊎ (base_bytes bucket_count path ≤ budget))
                × ((w : World) × IsEmptyStore bucket_count max_capacity budget path r w
                    × Reopened reopened (log_of changes) (apply_all changes now w) x))))

with_path-IsValid :
    (n c b : ℕ) (path : Bytes) → 0 < n → IsValid (with_path path (empty_table n c b))
unfolding with_path raise_peak
with_path-IsValid n c b path pos =
    let v = empty_table-IsValid n c b pos in
    record {
      roomy = v.roomy;
      placed = v.placed;
      counted = v.counted;
      accounted = omega (arith, v.accounted);
      peaked = ground arith;
    }

started-IsEmptyStore :
    (n c b : ℕ) (path : Bytes) (r : Replication) (env : Env)
    → 0 < n
    → IsEmptyStore n c b path r (started (with_path path (empty_table n c b)) r env)
started-IsEmptyStore n c b path r env pos = (
  with_path-IsValid n c b path pos,
  (unfold with_path raise_peak in view-empty_table n c b),
  (unfold with_path raise_peak in length-replicate n no_entries),
  (unfold with_path raise_peak in refl),
  (unfold with_path raise_peak in refl),
  (unfold with_path raise_peak in refl),
  (unfold with_path raise_peak in refl),
  (unfold with_path raise_peak in refl),
  refl,
  refl,
)
  where
    no_entries : List Entry
    no_entries = []

open_log-Reopened :
    (reopened : Option ℕ) (log : Bytes) (run : Run World)
    → Reopened reopened log run (open_log reopened (some log) run)
unfolding open_log or_empty
open_log-Reopened none log (returned w) = refl
open_log-Reopened (some position) log (returned w) = (
  record w { aof = record w.aof { aof_fp = some (record { content = log; position = position }) } },
  refl,
  refl,
  refl,
)
open_log-Reopened none log use_after_free = refl
open_log-Reopened (some position) log use_after_free = refl

abbrev Made : Type 0
Made = Status × Option Table × Env

-- Both branches of an allocation.
elim_both :
    {A : Type 0} (P : A → Type 0) (given : Bool) (x y : A)
    → (given ≡ true → P x)
    → (given ≡ false → P y)
    → P (elim given as (λ _. A) [ false ↦ y | true ↦ x ])
elim_both P true x y hx hy = hx refl
elim_both P false x y hx hy = hy refl

budget_cases : (b total : ℕ) → (ltb 0 b && ltb b total) ≡ false → (b ≡ 0) ⊎ (total ≤ b)
budget_cases b total h = elim (Bool-cases (ltb 0 b)) [
  | inl p ↦ inr (ground (arith, p, h))
  | inr p ↦ inl (ground (arith, p))
]

module _ (n c b : ℕ) (path : Bytes) (changes : List Change) (reopened : Option ℕ) (now : ℕ)
    (r : Replication) (env : Env) where
  -- With the buckets and the locks.
  init_with_log-StartOutcome :
      0 < n
      → All IsLoggable changes
      → let env₂ = (library_call (tracked_calloc n 8 env).1).1 in
        StartOutcome n c b path changes reopened now r env
          (init_with_log b path (some (log_of changes)) reopened now r (empty_table n c b) env₂)
  unfolding init_with_log
  init_with_log-StartOutcome pos logged =
      let env₂ = (library_call (tracked_calloc n 8 env).1).1 in
      let env₃ = (tracked_malloc env₂).1 in
      let w = started (with_path path (empty_table n c b)) r env₃ in
      let log = log_of changes in
      if_both (StartOutcome n c b path changes reopened now r env)
        (ltb 0 b && ltb b (n * 8 + (length path + 1))) _ _
        (λ over. inr (inl (ground (arith, over), ground (arith, over), refl)))
        (λ within.
          if_both (StartOutcome n c b path changes reopened now r env) (tracked_malloc env₂).0 _ _
            (λ _. inr (
              inr (
                inr (
                  budget_cases b (base_bytes n path) within,
                  (
                    w,
                    started-IsEmptyStore n c b path r env₃ pos,
                    subst
                        (λ run.
                          Reopened reopened log (apply_all changes now w)
                            (open_log reopened (some log) run))
                        (sym (replay_aof_log-log_of changes now w logged))
                        (open_log-Reopened reopened log (apply_all changes now w)),
                  ),
                ))))
            (λ fails. inr (inr (inl (inr (inr fails), refl)))))

  -- kv_init_full with a path, on a log that consists of the records of some changes, which have to
  -- be such that a record can carry them: it returns KV_ERR_INVALID_PARAM only for 0 buckets,
  -- KV_ERR_BUDGET_EXCEEDED only if there is a budget and the buckets and the copy of the path with
  -- its NUL exceed it, KV_ERR_INTERNAL only if one of its three allocations fails, or the outcome
  -- is as follows. These bytes are within the budget, if there is one, and the changes are made on
  -- a valid store without keys that counts exactly these bytes. If they end in the use of freed
  -- memory, so does the call; it returns KV_ERR_IO if the log cannot be opened after them, and
  -- otherwise KV_OK with the table that they lead to and the log open with its content.
  pub kv_init_full-StartOutcome :
      All IsLoggable changes
      → StartOutcome n c b path changes reopened now r env
          (kv_init_full n c b (some path) (some (log_of changes)) reopened now r env)
  unfolding kv_init_full kv_init_with_budget init_path
  kv_init_full-StartOutcome logged =
      let Goal : Status × Option Table × Env → Type 0 = λ y.
        StartOutcome n c b path changes reopened now r env
          (init_path b (some path) (some (log_of changes)) reopened now r y) in
      let a = tracked_calloc n 8 env in
      let l = library_call a.1 in
      if_both Goal (n == 0) _ _ (λ h. inl (ground (arith, h), refl))
        (λ some_buckets.
          if_both Goal (ltb 0 b && ltb b (n * 8)) _ _
            (λ over. inr (inl (ground (arith, over), ground (arith, over), refl)))
            (λ _.
              elim_both Goal a.0
                (elim l.0 as (λ _. Made) [
                  | false ↦ (internal, none, l.1)
                  | true ↦ (ok, some (empty_table n c b), l.1)
                ])
                (internal, none, a.1)
                (λ _.
                  elim_both Goal l.0 (ok, some (empty_table n c b), l.1) (internal, none, l.1)
                    (λ _. init_with_log-StartOutcome (ground (arith, some_buckets)) logged)
                    (λ fails. inr (inr (inl (inr (inl fails), refl)))))
                (λ fails. inr (inr (inl (inl fails, refl))))))
