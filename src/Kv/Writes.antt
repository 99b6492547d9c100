-- ===== src/Kv/Writes.antt =====
-- Overwriting the value of an entry, and inserting a new one.
use mini_kv_db_server.Prelude.{ℕ, ◌+◌, ◌≤◌, ◌≡◌, refl, ap, none, some, arith, if◌then◌else◌, length}
use mini_kv_db_server.Prelude.Text.{Bytes, str_eq}
use mini_kv_db_server.Table.Types.{string, Entry, Table, Found}
use mini_kv_db_server.Table.Bytes.{entry_bytes, value_bytes}
use mini_kv_db_server.Table.Ops.{store_entry}
use mini_kv_db_server.Table.Laws.{IsValid, Points, view, allocated_bytes-delete}
use mini_kv_db_server.Table.Writes.{
  length-push, sum-push, view-push, push-IsPlaced, store-width, store-sum, store-IsPlaced,
  view-store,
}
use mini_kv_db_server.Kv.{tick, overwrite, insert_entry}

pub tick-IsValid : (t : Table) → IsValid t → IsValid (tick t)
unfolding tick
tick-IsValid t v = record {
  roomy = v.roomy;
  placed = v.placed;
  counted = v.counted;
  accounted = v.accounted;
  peaked = v.peaked;
}

-- The entry that `overwrite` leaves.
abbrev pub overwritten : Found → Bytes → Table → Entry
overwritten f value t = record f.entry {
  value = string value;
  last_accessed_time = (tick t).lru_clock;
}

module _ (f : Found) (old value : Bytes) (t : Table) (v : IsValid t) (h : Points t f)
    (s : f.entry.value ≡ string old) where
  pub entry_bytes-overwrite :
      entry_bytes (overwritten f value t) + (length old + 1)
      ≡ entry_bytes f.entry + (length value + 1)
  unfolding entry_bytes value_bytes
  entry_bytes-overwrite = omega (arith, ap value_bytes s)

  -- Both branches write the same table; they differ in the counters of bytes.
  pub overwrite-fields :
      let r = overwrite f old value t in
      (r.buckets ≡ (store_entry f (overwritten f value t) (tick t)).buckets)
      × (r.size ≡ t.size)
      × (r.aof_path ≡ t.aof_path)
      × (r.max_memory_budget ≡ t.max_memory_budget)
      × (r.max_capacity ≡ t.max_capacity)
      × (length old ≤ t.allocated_bytes
          → r.allocated_bytes + length old ≡ t.allocated_bytes + length value)
      × (t.peak_allocated_bytes ≤ r.peak_allocated_bytes)
      × (t.allocated_bytes ≤ t.peak_allocated_bytes → r.allocated_bytes ≤ r.peak_allocated_bytes)
      × (r.lock_initialized ≡ t.lock_initialized)
  unfolding overwrite store_entry
  overwrite-fields = ground arith

  old_fits : length old + 1 ≤ t.allocated_bytes
  unfolding entry_bytes value_bytes
  old_fits = omega (arith, ap value_bytes s, allocated_bytes-delete t f v h)

  pub overwrite-IsValid : IsValid (overwrite f old value t)
  unfolding tick
  overwrite-IsValid =
      let w = tick-IsValid t v in
      let n = overwritten f value t in
      let counts = store-sum (tick t) f n w h refl (λ _. 1) in
      let bytes = store-sum (tick t) f n w h refl entry_bytes in
      let width = store-width (tick t) f n w h refl in
      let (b, size, path, _, _, alloc, _, peak, _) = overwrite-fields in
      record {
        roomy = rw b (omega (arith, width, w.roomy));
        placed = rw b (store-IsPlaced (tick t) f n w h refl);
        counted = rw b (omega (arith, counts, size, w.counted));
        accounted =
            rw (b, path)
              (omega (
                arith,
                width,
                bytes,
                alloc (omega (arith, old_fits)),
                w.accounted,
                entry_bytes-overwrite,
              ));
        peaked = peak v.peaked;
      }

  pub allocated_bytes-overwrite :
      (overwrite f old value t).allocated_bytes + length old ≡ t.allocated_bytes + length value
  allocated_bytes-overwrite = overwrite-fields.5 (omega (arith, old_fits))

  pub view-overwrite :
      (q : Bytes)
      → view (overwrite f old value t) q
        ≡ (if str_eq f.entry.key q then some (overwritten f value t) else view t q)
  unfolding tick
  view-overwrite q =
      rw (overwrite-fields.0)
        (view-store (tick t) f (overwritten f value t) (tick-IsValid t v) h refl q)

module _ (e : Entry) (n : ℕ) (t : Table) (v : IsValid t) (absent : view t e.key ≡ none)
    (size : n ≡ entry_bytes e) where
  pub insert-IsValid : IsValid (insert_entry e n t)
  unfolding insert_entry
  insert-IsValid = record {
    roomy = omega (arith, length-push t.buckets e v.roomy, v.roomy);
    placed = push-IsPlaced t.buckets e v.roomy v.placed absent;
    counted = omega (arith, sum-push t.buckets e v.roomy (λ _. 1), v.counted);
    accounted = omega (
      arith,
      length-push t.buckets e v.roomy,
      sum-push t.buckets e v.roomy entry_bytes,
      v.accounted,
    );
    peaked = ground arith;
  }

  pub view-insert :
      (q : Bytes) → view (insert_entry e n t) q ≡ (if str_eq e.key q then some e else view t q)
  unfolding insert_entry
  view-insert q = view-push t.buckets e v.roomy q
