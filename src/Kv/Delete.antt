-- ===== src/Kv/Delete.antt =====
-- `kv_delete` of src/kv.c against the map that the table stands for.
use mini_kv_db_server.Prelude.{
  ◌+◌, ◌≡◌, ◌⊎◌, refl, sym, ◌∙◌, false, none, some, arith, if◌then◌else◌, Option-cases, if_both,
  inl, inr,
}
use mini_kv_db_server.Prelude.Text.{Bytes, str_eq, str_eq→≡}
use mini_kv_db_server.Status.{Status, ok, not_found, invalid_param, is_ok}
use mini_kv_db_server.Key.{Validated, valid, invalid, validate_key}
use mini_kv_db_server.Key.Laws.{Validated-cases}
use mini_kv_db_server.World.{World}
use mini_kv_db_server.Table.Types.{Entry, Table, Found}
use mini_kv_db_server.Table.Ops.{find_raw, expire_and_delete_unlocked}
use mini_kv_db_server.Table.Laws.{
  IsValid, view, delete-IsValid, view-delete, allocated_bytes-delete,
}
use mini_kv_db_server.Table.Bytes.{entry_bytes}
use mini_kv_db_server.Table.Lookup.{Finds, find_raw-some, find_raw-none}
use mini_kv_db_server.Kv.{delete_parts, kv_delete_internal, kv_delete, logged, or_empty}
use mini_kv_db_server.Kv.Logged.{LoggedOutcome, logged-Outcome}

-- The entry `e` under a key has been taken out of `t`, and its bytes with it.
pub record Deletes (k : Bytes) (t r : Table) : Type 0 where
  pub entry : Entry
  pub was : view t k ≡ some entry
  pub views : (q : Bytes) → view r q ≡ (if str_eq k q then none else view t q)
  pub bytes : r.allocated_bytes + entry_bytes entry ≡ t.allocated_bytes
  pub valid : IsValid r

-- KV_OK and the entry is gone, or an error and the table is as it was; where the error is
-- KV_ERR_NOT_FOUND the key was not there.
abbrev pub DeleteOutcome : Bytes → Table → Status × World → Type 0
DeleteOutcome k t x =
    ((x.0 ≡ ok) × Deletes k t x.1.table)
    ⊎ ((is_ok x.0 ≡ false) × (x.1.table ≡ t) × (x.0 ≡ not_found → view t k ≡ none))

delete-Deletes :
    (k : Bytes) (t : Table) (f : Found)
    → IsValid t
    → Finds t k f
    → Deletes k t (expire_and_delete_unlocked f t)
delete-Deletes k t f v h =
    let same = str_eq→≡ f.entry.key k h.same_key in
    record {
      entry = f.entry;
      was = h.viewed;
      views = λ q. rw (← same) (view-delete t f v h.points q);
      bytes = allocated_bytes-delete t f v h.points;
      valid = delete-IsValid t f v h.points;
    }

pub kv_delete_internal-Outcome :
    (k : Bytes) (w : World)
    → IsValid w.table
    → DeleteOutcome k w.table (kv_delete_internal (some k) w)
unfolding kv_delete_internal
kv_delete_internal-Outcome k w v = elim (Validated-cases (validate_key (some k))) [
  | inl (e, x) ↦ rw (x, kv_delete_internal) (inr (refl, refl, λ h. ground arith))
  | inr (n, x) ↦ elim (Option-cases (find_raw k w.table)) [
    | inl m ↦ rw (x, kv_delete_internal, m) (inr (refl, refl, λ h. find_raw-none w.table k m))
    | inr (f, y) ↦
        rw (x, kv_delete_internal, y)
          (inl (refl, delete-Deletes k w.table f v (find_raw-some w.table k f v.roomy y)))
  ]
]

delete_after :
    (k : Bytes) (w : World) (x : Status × World)
    → IsValid w.table
    → LoggedOutcome (kv_delete_internal (some k)) w x
    → DeleteOutcome k w.table x
delete_after k w x v (inl (bad, same)) = inr (rw bad refl, same, λ h. ground (arith, bad))
delete_after k w x v (inr (w₁, same, status, result)) =
    elim (kv_delete_internal-Outcome k w₁ (rw same v)) [
      | inl (s, d) ↦ inl (status ∙ s, rw (result, ← same) d)
      | inr (s, d, m) ↦ inr (rw status s, result ∙ d ∙ same, λ h. rw (← same) (m (sym status ∙ h)))
    ]

delete_validated :
    (x : Validated) (k : Bytes) (w : World)
    → IsValid w.table
    → DeleteOutcome k w.table (elim x as (λ _. Status × World) [
      | invalid e ↦ (invalid_param, w)
      | valid n ↦ logged (delete_parts k) (kv_delete_internal (some k)) w
    ])
delete_validated (invalid e) k w v = inr (refl, refl, λ h. ground arith)
delete_validated (valid n) k w v =
    delete_after k w (logged (delete_parts k) (kv_delete_internal (some k)) w) v
      (logged-Outcome (delete_parts k) (kv_delete_internal (some k)) w)

-- From a valid table, DELETE either returns KV_OK, and the table is valid without the key, every
-- other key as it was and exactly the entry's bytes taken off; or it returns an error and leaves
-- the table alone, where KV_ERR_NOT_FOUND means that the key was not in it.
pub kv_delete-Outcome :
    (k : Bytes) (w : World) → IsValid w.table → DeleteOutcome k w.table (kv_delete (some k) w)
unfolding kv_delete or_empty
kv_delete-Outcome k w v =
    if_both (DeleteOutcome k w.table) w.table.lock_initialized _ _
      (λ _. delete_validated (validate_key (some k)) k w v)
      (λ _. inr (refl, refl, λ h. ground arith))
