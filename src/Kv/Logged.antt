-- ===== src/Kv/Logged.antt =====
-- The lock phase of `kv_set`, and the log record around a change.
use mathlib.Core.Path.{subst}
use mini_kv_db_server.Prelude.{
  ℕ, ◌*◌, ◌≤◌, ◌≡◌, ◌⊎◌, refl, ap, sym, ◌||◌, Option, none, some, List, arith, length, Bool-cases,
  Option-cases, inl, inr,
}
use mini_kv_db_server.Prelude.Text.{Bytes}
use mini_kv_db_server.Status.{Status, ok, io, is_ok}
use mini_kv_db_server.World.{World, Stream}
use mini_kv_db_server.Aof.{write_stream, write_aof_record}
use mini_kv_db_server.Table.Types.{Table}
use mini_kv_db_server.Table.Laws.{IsValid, view}
use mini_kv_db_server.Table.Resize.{kv_resize_unlocked, rehash}
use mini_kv_db_server.Table.Resize.Laws.{rehash-Resized, kv_resize-cases}
use mini_kv_db_server.Kv.{loaded, over_budget, grow_if_loaded, set_lock_phase, after_record, logged}

-- Two tables that stand for the same map, under the same limits.
pub record SameMap (t r : Table) : Type 0 where
  pub valid : IsValid r
  pub size : r.size ≡ t.size
  pub views : (q : Bytes) → view r q ≡ view t q
  pub max_memory_budget : r.max_memory_budget ≡ t.max_memory_budget
  pub max_capacity : r.max_capacity ≡ t.max_capacity
  pub locks : r.lock_initialized ≡ t.lock_initialized
  pub budget :
      (t.max_memory_budget ≡ 0)
      ⊎ ((r.allocated_bytes ≤ t.max_memory_budget) ⊎ (r.allocated_bytes ≤ t.allocated_bytes))

pub SameMap-refl : (t : Table) → IsValid t → SameMap t t
SameMap-refl t v = record {
  valid = v;
  size = refl;
  views = λ q. refl;
  max_memory_budget = refl;
  max_capacity = refl;
  locks = refl;
  budget = inr (inr (omega arith));
}

resize-SameMap :
    (n : ℕ) (w : World) → IsValid w.table → SameMap w.table (kv_resize_unlocked n w.table w.env).1
unfolding kv_resize_unlocked rehash
resize-SameMap n w v = elim (kv_resize-cases n w.table w.env) [
  | inr (s, e) ↦ rw e (SameMap-refl w.table v)
  | inl (s, e, pos, fits) ↦
      let z = rehash-Resized n w.table pos v in
      rw e (record {
        valid = z.valid;
        size = z.size;
        views = z.views;
        max_memory_budget = refl;
        max_capacity = refl;
        locks = refl;
        budget = ground (arith, fits);
      })
]

pub grow_if_loaded-SameMap :
    (w : World) → IsValid w.table → SameMap w.table (grow_if_loaded w).table
unfolding grow_if_loaded
grow_if_loaded-SameMap w v = elim (Bool-cases (loaded w.table)) [
  | inl y ↦ rw (y, grow_if_loaded) (resize-SameMap (length w.table.buckets * 2) w v)
  | inr n ↦ rw (n, grow_if_loaded) (SameMap-refl w.table v)
]

pub set_lock_phase-SameMap :
    (n : ℕ) (w : World) → IsValid w.table → SameMap w.table (set_lock_phase n w).table
unfolding set_lock_phase
set_lock_phase-SameMap n w v = elim (Bool-cases (loaded w.table || over_budget n w.table)) [
  | inl y ↦ rw (y, set_lock_phase) (grow_if_loaded-SameMap w v)
  | inr z ↦ rw (z, set_lock_phase) (SameMap-refl w.table v)
]

pub table-write_aof_record :
    (parts : List Bytes) (w : World) → (write_aof_record parts w).2.table ≡ w.table
unfolding write_aof_record
table-write_aof_record parts w = ground arith

-- Writing a record fails in one way.
pub status-write_aof_record :
    (parts : List Bytes) (w : World)
    → ((write_aof_record parts w).0 ≡ ok) ⊎ ((write_aof_record parts w).0 ≡ io)
unfolding write_aof_record write_stream
status-write_aof_record parts w = ground arith

pub logged-none :
    (parts : List Bytes) (change : World → Status × World) (w : World)
    → w.aof.aof_fp ≡ none
    → logged parts change w ≡ change w
unfolding logged
logged-none parts change w n =
    ap
      (λ o. elim o as (λ _. Status × World) [
        | none ↦ change w
        | some fp ↦ after_record (write_aof_record parts w) change
      ])
      n

pub logged-some :
    (parts : List Bytes) (change : World → Status × World) (w : World) (fp : Stream)
    → w.aof.aof_fp ≡ some fp
    → logged parts change w ≡ after_record (write_aof_record parts w) change
unfolding logged
logged-some parts change w fp n =
    ap
      (λ o. elim o as (λ _. Status × World) [
        | none ↦ change w
        | some fp ↦ after_record (write_aof_record parts w) change
      ])
      n

-- The record that is refused leaves the table; else the change is made, and its table stands.
abbrev pub LoggedOutcome : (World → Status × World) → World → Status × World → Type 0
LoggedOutcome change w x =
    ((x.0 ≡ io) × (x.1.table ≡ w.table))
    ⊎ ((w₁ : World) × (w₁.table ≡ w.table)
        × (x.0 ≡ (change w₁).0)
        × (x.1.table ≡ (change w₁).1.table))

after_record-Outcome :
    (x : Status × Option ℕ × World) (change : World → Status × World) (w : World)
    → x.2.table ≡ w.table
    → (x.0 ≡ ok) ⊎ (x.0 ≡ io)
    → LoggedOutcome change w (after_record x change)
unfolding after_record
after_record-Outcome x change w h s = elim (Bool-cases (is_ok x.0)) [
  | inr bad ↦ rw (after_record, bad) (inl (ground (arith, s), h))
  | inl good ↦ rw (after_record, good) (inr (x.2, h, refl, ground arith))
]

pub logged-Outcome :
    (parts : List Bytes) (change : World → Status × World) (w : World)
    → LoggedOutcome change w (logged parts change w)
unfolding logged
logged-Outcome parts change w = elim (Option-cases w.aof.aof_fp) [
  | inl n ↦
      subst (LoggedOutcome change w) (sym (logged-none parts change w n))
        (inr (w, refl, refl, refl))
  | inr (fp, y) ↦ subst (LoggedOutcome change w) (sym (logged-some parts change w fp y)) (
      after_record-Outcome (write_aof_record parts w) change w (table-write_aof_record parts w)
        (status-write_aof_record parts w))
]
