-- ===== src/Payload/Laws.antt =====
-- Changing the payload of an entry in place, against the invariant and the abstract map.
use mini_kv_db_server.Prelude.{
  ℕ, ◌+◌, ◌≤◌, ◌≡◌, refl, some, List, arith, if◌then◌else◌, length-set, [], zero, suc, ◌∷◌,
  get_elem?, set, get_or-set,
}
use mini_kv_db_server.Prelude.Text.{Bytes, str_eq}
use mini_kv_db_server.World.{World}
use mini_kv_db_server.Table.Types.{Value, Entry, Table, Found}
use mini_kv_db_server.Table.Bytes.{entry_bytes, value_bytes}
use mini_kv_db_server.Table.Ops.{store_entry, chain_at}
use mini_kv_db_server.Table.Laws.{IsValid, Points, view, stored_bytes}
use mini_kv_db_server.Table.Writes.{store-width, store-sum, store-IsPlaced, view-store}
use mini_kv_db_server.Table.Resize.{raise_peak}
use mini_kv_db_server.Kv.{log_rewrite}
use mini_kv_db_server.Kv.Logged.{table-write_aof_record}
use mini_kv_db_server.Payload.{log_change, release_bytes, grow_payload, shrink_payload}

pub table-log_change : (parts : List Bytes) (w : World) → (log_change parts w).table ≡ w.table
unfolding log_change log_rewrite
table-log_change parts w = ground (arith, table-write_aof_record parts w)

-- The entry with another payload.
abbrev pub holding : Entry → Value → Entry
holding e value = record e { value = value }

-- The pointer, once the entry has another payload.
abbrev pub now_holding : Found → Value → Found
now_holding f value = record f { entry = holding f.entry value }

get_elem-set :
    {A : Type 0} (xs : List A) (i : ℕ) (x y : A)
    → get_elem? xs i ≡ some x
    → get_elem? (set xs i y) i ≡ some y
get_elem-set [] i x y h = absurd (ground arith)
get_elem-set (z ∷ xs) zero x y h = refl
get_elem-set (z ∷ xs) (suc i) x y h = get_elem-set xs i x y h

module _ (f : Found) (value : Value) (t : Table) (v : IsValid t) (h : Points t f) where
  pub store-Points : Points (store_entry f (holding f.entry value) t) (now_holding f value)
  unfolding store_entry
  store-Points =
      let c = set (chain_at t f.index) f.position (holding f.entry value) in
      ground (
        arith,
        length-set t.buckets f.index c,
        get_or-set t.buckets f.index f.index c [] h.0,
        get_elem-set (chain_at t f.index) f.position f.entry (holding f.entry value) h.1,
      )

  stored-bytes :
      stored_bytes (store_entry f (holding f.entry value) t).buckets + value_bytes f.entry.value
      ≡ stored_bytes t.buckets + value_bytes value
  unfolding entry_bytes
  stored-bytes = omega (arith, store-sum t f (holding f.entry value) v h refl entry_bytes)

  pub shrink-IsValid :
      (freed : ℕ)
      → value_bytes value + freed ≡ value_bytes f.entry.value
      → IsValid (shrink_payload f value freed t)
  unfolding shrink_payload release_bytes store_entry
  shrink-IsValid freed e =
      let r = (store_entry f (holding f.entry value) t).buckets in
      let b : stored_bytes r + freed ≡ stored_bytes t.buckets = omega (arith, stored-bytes, e) in
      let le : freed ≤ t.allocated_bytes = omega (arith, b, v.accounted) in
      let w = store-width t f (holding f.entry value) v h refl in
      record {
        roomy = omega (arith, w, v.roomy);
        placed = store-IsPlaced t f (holding f.entry value) v h refl;
        counted = omega (arith, store-sum t f (holding f.entry value) v h refl (λ _. 1), v.counted);
        accounted = ground (arith, b, w, le, v.accounted);
        peaked = ground (arith, v.peaked, le);
      }

  pub grow-IsValid :
      (more : ℕ)
      → value_bytes value ≡ value_bytes f.entry.value + more
      → IsValid (grow_payload f value more t)
  unfolding grow_payload raise_peak store_entry
  grow-IsValid more e =
      let b = stored-bytes in
      let w = store-width t f (holding f.entry value) v h refl in
      record {
        roomy = omega (arith, w, v.roomy);
        placed = store-IsPlaced t f (holding f.entry value) v h refl;
        counted = omega (arith, store-sum t f (holding f.entry value) v h refl (λ _. 1), v.counted);
        accounted = omega (arith, b, w, e, v.accounted);
        peaked = ground arith;
      }

  pub view-shrink :
      (freed : ℕ) (q : Bytes)
      → view (shrink_payload f value freed t) q
        ≡ (if str_eq f.entry.key q then some (holding f.entry value) else view t q)
  unfolding shrink_payload release_bytes
  view-shrink freed q = view-store t f (holding f.entry value) v h refl q

  pub view-grow :
      (more : ℕ) (q : Bytes)
      → view (grow_payload f value more t) q
        ≡ (if str_eq f.entry.key q then some (holding f.entry value) else view t q)
  unfolding grow_payload raise_peak
  view-grow more q = view-store t f (holding f.entry value) v h refl q

  pub shrink-Points : (freed : ℕ) → Points (shrink_payload f value freed t) (now_holding f value)
  unfolding shrink_payload release_bytes
  shrink-Points freed = store-Points
