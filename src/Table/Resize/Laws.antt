-- ===== src/Table/Resize/Laws.antt =====
-- `kv_resize_unlocked` against the invariant and the abstract map.
use mini_kv_db_server.Prelude.{
  ℕ, ◌+◌, ◌*◌, ◌≤◌, ◌<◌, ◌≡◌, ◌⊎◌, refl, false, arith, length, inl, inr,
}
use mini_kv_db_server.Prelude.Text.{Bytes}
use mini_kv_db_server.Status.{ok, is_ok}
use mini_kv_db_server.Env.{Env}
use mini_kv_db_server.Table.Types.{Table}
use mini_kv_db_server.Table.Bytes.{sizeof_pointer, entry_bytes}
use mini_kv_db_server.Table.Laws.{IsValid, view}
use mini_kv_db_server.Table.Resize.{rehash, kv_resize_unlocked}
use mini_kv_db_server.Table.Resize.Moves.{move_all-Rehashes}

-- What a resize that was carried out leaves behind.
pub record Resized (n : ℕ) (t r : Table) : Type 0 where
  pub valid : IsValid r
  pub width : length r.buckets ≡ n
  pub size : r.size ≡ t.size
  pub bytes :
      r.allocated_bytes + length t.buckets * sizeof_pointer ≡ t.allocated_bytes + n * sizeof_pointer
  pub views : (q : Bytes) → view r q ≡ view t q

pub rehash-Resized : (n : ℕ) (t : Table) → 0 < n → IsValid t → Resized n t (rehash n t)
unfolding rehash
rehash-Resized n t pos v =
    let m = move_all-Rehashes t.buckets n pos v.placed in
    let counts = m.sums (λ _. 1) in
    let bytes = m.sums entry_bytes in
    record {
      valid = record {
        roomy = omega (arith, m.width);
        placed = m.placed;
        counted = omega (arith, counts, v.counted);
        accounted = ground (arith, bytes, v.accounted, m.width);
        peaked = ground (arith, v.peaked);
      };
      width = m.width;
      size = refl;
      bytes = ground (arith, v.accounted);
      views = m.views;
    }

-- A resize either succeeds, or changes nothing in the table.
pub kv_resize-cases :
    (n : ℕ) (t : Table) (env : Env)
    → let r = kv_resize_unlocked n t env in
      ((r.0 ≡ ok)
        × (r.1 ≡ rehash n t)
        × (0 < n)
        × ((t.max_memory_budget ≡ 0)
            ⊎ (t.allocated_bytes + n * sizeof_pointer ≤ t.max_memory_budget)))
      ⊎ ((is_ok r.0 ≡ false) × (r.1 ≡ t))
unfolding kv_resize_unlocked
kv_resize-cases n t env = ground arith

-- From a valid table, a resize returns KV_OK, and the table is valid and the same map over the new
-- number of buckets, or it returns an error, and the table is as it was.
pub kv_resize_lem :
    (n : ℕ) (t : Table) (env : Env)
    → IsValid t
    → let r = kv_resize_unlocked n t env in
      ((r.0 ≡ ok) × Resized n t r.1) ⊎ ((is_ok r.0 ≡ false) × (r.1 ≡ t))
kv_resize_lem n t env v = elim (kv_resize-cases n t env) [
  | inl (s, e, pos, _) ↦ inl (s, rw e (rehash-Resized n t pos v))
  | inr e ↦ inr e
]
