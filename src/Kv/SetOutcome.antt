-- ===== src/Kv/SetOutcome.antt =====
-- What `kv_set_internal` does, its branches put together.
use mini_kv_db_server.Prelude.{
  ◌+◌, ◌≤◌, ◌≡◌, ◌⊎◌, refl, some, arith, ltb, length, Bool-cases, Option-cases, inl, inr,
}
use mini_kv_db_server.Prelude.Text.{Bytes}
use mini_kv_db_server.Key.{validate_key, validate_value}
use mini_kv_db_server.Table.Types.{Value, string, list, set_of, Table, Found}
use mini_kv_db_server.Table.Ops.{find_raw}
use mini_kv_db_server.Table.Laws.{IsValid}
use mini_kv_db_server.Table.Lookup.{Finds, find_raw-none, find_raw-some}
use mini_kv_db_server.Table.Evict.Laws.{Shrinks, Shrinks-refl}
use mini_kv_db_server.World.{World}
use mini_kv_db_server.Kv.{
  make_room, value_delta, insert_new, update_or_insert, update, set_checked, kv_set_internal,
}
use mini_kv_db_server.Kv.Room.{make_room-Roomy}
use mini_kv_db_server.Key.Laws.{Validated-cases, validate_key-invalid, validate_value-invalid}
use mini_kv_db_server.Kv.SetInternal.{
  SetOutcome, refuse, SetOutcome-after, replace_value-Outcome, insert_new-Outcome,
}

-- Whether the entry that is to be updated is still there after the evictions.
update_or_insert-Outcome :
    (key old value : Bytes) (t : Table) (w : World) (f₀ : Found)
    → Shrinks t w.table
    → (t.max_memory_budget ≡ 0 → w.table ≡ t)
    → Finds t key f₀
    → f₀.entry.value ≡ string old
    → (t.max_memory_budget ≡ 0)
      ⊎ ((w.table.allocated_bytes + value_delta (length value + 1) (length old + 1)
            ≤ t.max_memory_budget)
          ⊎ (length value ≤ length old))
    → SetOutcome key (string value) t (update_or_insert old key value w)
unfolding update_or_insert
update_or_insert-Outcome key old value t w f₀ s u h e fits =
    elim (Option-cases (find_raw key w.table)) [
      | inl n ↦
          rw (update_or_insert, n)
            (SetOutcome-after (insert_new key value w) s u
              (insert_new-Outcome key value w s.valid (find_raw-none w.table key n)))
      | inr (f, y) ↦
          let g = find_raw-some w.table key f s.valid.roomy y in
          rw (update_or_insert, y)
            (replace_value-Outcome f key old value t w s u g
              (ground (arith, g.viewed, h.viewed, s.views key, e)) fits)
    ]

update-Outcome :
    (v : Value) (key value : Bytes) (w : World) (f : Found)
    → IsValid w.table
    → Finds w.table key f
    → f.entry.value ≡ v
    → SetOutcome key (string value) w.table (update v key value w)
unfolding update
update-Outcome (list l) key value w f i h e = inr (refl, refuse w.table i)
update-Outcome (set_of s) key value w f i h e = inr (refl, refuse w.table i)
update-Outcome (string old) key value w f i h e =
    let delta = value_delta (length value + 1) (length old + 1) in
    let r = make_room-Roomy delta w i in
    elim (Bool-cases (ltb 0 delta)) [
      | inr z ↦
          rw (update, z)
            (update_or_insert-Outcome key old value w.table w f (Shrinks-refl w.table i) (λ _. refl)
              h e (inr (inr (ground arith))))
      | inl y ↦ elim (Bool-cases (make_room delta w).0) [
        | inr n ↦
            rw (update, y, n)
              (inr (refl, record { shrinks = r.shrinks; unbounded = λ z. (r.unbounded z).0 }))
        | inl fits ↦
            rw (update, y, fits)
              (update_or_insert-Outcome key old value w.table (make_room delta w).1 f r.shrinks
                (λ z. (r.unbounded z).0) h e (ground (arith, r.fitting fits)))
      ]
    ]

pub set_checked-Outcome :
    (key value : Bytes) (w : World)
    → IsValid w.table
    → SetOutcome key (string value) w.table (set_checked key value w)
unfolding set_checked
set_checked-Outcome key value w v = elim (Option-cases (find_raw key w.table)) [
  | inl n ↦ rw (set_checked, n) (insert_new-Outcome key value w v (find_raw-none w.table key n))
  | inr (f, y) ↦
      rw (set_checked, y)
        (update-Outcome f.entry.value key value w f v (find_raw-some w.table key f v.roomy y) refl)
]

-- KV_OK, and the entry has been written; or an error, and at most evictions have taken place.
pub kv_set_internal-Outcome :
    (key value : Bytes) (w : World)
    → IsValid w.table
    → SetOutcome key (string value) w.table (kv_set_internal (some key) (some value) w)
unfolding kv_set_internal
kv_set_internal-Outcome key value w v = elim (Validated-cases (validate_key (some key))) [
  | inl (e, x) ↦
      rw (x, kv_set_internal) (inr (validate_key-invalid (some key) e x, refuse w.table v))
  | inr (n, x) ↦ elim (Validated-cases (validate_value (some value))) [
    | inl (e, y) ↦
        rw (x, y, kv_set_internal) (inr (validate_value-invalid (some value) e y, refuse w.table v))
    | inr (m, y) ↦ rw (x, y, kv_set_internal) (set_checked-Outcome key value w v)
  ]
]
