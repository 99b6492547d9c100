-- ===== src/Kv/Get.antt =====
-- `kv_get`, `kv_exists` and `kv_delete` of src/kv.c against the map that the table stands for.
use mini_kv_db_server.Prelude.{
  ℕ, ◌≡◌, refl, ap, ◌∙◌, Bool, true, false, Option, none, some, arith, if◌then◌else◌, if_both,
}
use mini_kv_db_server.Prelude.Text.{Bytes, str_eq}
use mini_kv_db_server.World.{World}
use mini_kv_db_server.Table.Types.{Value, string, list, set_of, Entry, Table, Found}
use mini_kv_db_server.Table.Ops.{entry_is_expired, find_entry_unlocked, store_entry}
use mini_kv_db_server.Table.Bytes.{entry_bytes}
use mini_kv_db_server.Table.Laws.{IsValid, Points, view, delete-IsValid}
use mini_kv_db_server.Table.Lookup.{
  Finds, Search, absent, present, expired, visible, find_gone, find_entry-Search,
  find_entry-visible, find_entry-IsValid, entry_found, view_congr,
}
use mini_kv_db_server.Table.Writes.{store-width, store-sum, store-IsPlaced, view-store}
use mini_kv_db_server.Kv.{tick, touch, read_payload, read_value, kv_get, kv_exists}
use mini_kv_db_server.Kv.Writes.{tick-IsValid}

-- The string that an entry shows to GET.
abbrev pub text_of : Option Entry → Option Bytes
text_of none = none
text_of (some e) = elim e.value [ string v ↦ some v | list l ↦ none | set_of s ↦ none ]

abbrev pub touched : Found → Table → Entry
touched f t = record f.entry { last_accessed_time = (tick t).lru_clock }

pub touch-IsValid : (f : Found) (t : Table) → IsValid t → Points t f → IsValid (touch f t)
unfolding touch store_entry entry_bytes
touch-IsValid f t v h =
    let e = touched f t in
    let w = tick-IsValid t v in
    record {
      roomy = omega (arith, store-width (tick t) f e w h refl, v.roomy);
      placed = store-IsPlaced (tick t) f e w h refl;
      counted = omega (arith, store-sum (tick t) f e w h refl (λ _. 1), v.counted);
      accounted = omega (
        arith,
        store-width (tick t) f e w h refl,
        store-sum (tick t) f e w h refl entry_bytes,
        v.accounted,
      );
      peaked = v.peaked;
    }

-- Noting an access changes the clock of one entry, and nothing that is visible but that.
pub view-touch :
    (f : Found) (t : Table) (q : Bytes)
    → IsValid t
    → Points t f
    → view (touch f t) q ≡ (if str_eq f.entry.key q then some (touched f t) else view t q)
unfolding touch
view-touch f t q v h = view-store (tick t) f (touched f t) (tick-IsValid t v) h refl q

read_payload-IsValid :
    (x : Value) (f : Found) (t : Table) → IsValid t → Points t f → IsValid (read_payload x f t).1
unfolding read_payload
read_payload-IsValid (list l) f t v h = v
read_payload-IsValid (set_of s) f t v h = v
read_payload-IsValid (string x) f t v h = touch-IsValid f t v h

-- What a reader is shown under a key at a time.
abbrev pub shown : Table → ℕ → Bytes → Option Bytes
shown t now q = text_of (visible t now q)

read_payload-shown :
    (x : Value) (f : Found) (t : Table) (k : Bytes) (now : ℕ) (q : Bytes)
    → IsValid t
    → Finds t k f
    → f.entry.value ≡ x
    → ((read_payload x f t).0 ≡ text_of (some f.entry))
      × (shown (read_payload x f t).1 now q ≡ shown t now q)
unfolding read_payload entry_is_expired
read_payload-shown (list l) f t k now q v h e = (ground (arith, e), refl)
read_payload-shown (set_of s) f t k now q v h e = (ground (arith, e), refl)
read_payload-shown (string x) f t k now q v h e = (
  ground (arith, e),
  ground (
    arith,
    view-touch f t q v h.points,
    h.viewed,
    view_congr t f.entry.key q,
    view_congr t f.entry.key k h.same_key,
  ),
)

read_found :
    (k : Bytes) (now : ℕ) (t : Table) (r : Option Found × Table)
    → IsValid t
    → Search k now t r
    → IsValid (read_value r.0 r.1).1
      × ((read_value r.0 r.1).0 ≡ shown t now k)
      × ((q : Bytes) → shown (read_value r.0 r.1).1 now q ≡ shown t now q)
unfolding read_value
read_found k now t r v (absent h) = (v, ground (arith, h), λ q. refl)
read_found k now t r v (expired f h e) =
    let d = find_gone k now t f v h e in
    (delete-IsValid t f v h.points, ap text_of d.0, λ q. ap text_of (d.1 q))
read_found k now t r v (present f h e) =
    let seen : some f.entry ≡ visible t now k = ground (arith, h.viewed, e) in
    (
      read_payload-IsValid f.entry.value f t v h.points,
      (read_payload-shown f.entry.value f t k now k v h refl).0 ∙ ap text_of seen,
      λ q. (read_payload-shown f.entry.value f t k now q v h refl).1,
    )

-- In a valid store that is in use, GET returns the string under the key if there is one that is
-- not due; the table stays valid, and nothing that is shown changes.
pub kv_get_lem :
    (k : Bytes) (now : ℕ) (w : World)
    → IsValid w.table
    → w.table.lock_initialized ≡ true
    → ((kv_get (some k) now w).0 ≡ shown w.table now k)
      × IsValid (kv_get (some k) now w).1.table
      × ((q : Bytes) → shown (kv_get (some k) now w).1.table now q ≡ shown w.table now q)
unfolding kv_get
kv_get_lem k now w v i =
    let t = w.table in
    let x = find_entry_unlocked k now t in
    let r = read_found k now t x v (find_entry-Search k now t v) in
    if_both
      (λ (y : Option Bytes × World).
        (y.0 ≡ shown t now k)
        × IsValid y.1.table
        × ((q : Bytes) → shown y.1.table now q ≡ shown t now q))
      t.lock_initialized _ _ (λ _. (r.1, r.0, r.2)) (λ n. absurd (ground (arith, i, n)))

abbrev pub is_some : Option Entry → Bool
is_some none = false
is_some (some e) = true

exists_found :
    (o : Option Found) (e : Option Entry)
    → entry_found o ≡ e
    → elim o as (λ _. Bool) [ none ↦ false | some f ↦ true ] ≡ is_some e
exists_found none e h = ap is_some h
exists_found (some f) e h = ap is_some h

-- In a valid store that is in use, EXISTS is true exactly if an entry under the key is not due;
-- the table stays valid, and no entry that is visible changes.
pub kv_exists_lem :
    (k : Bytes) (now : ℕ) (w : World)
    → IsValid w.table
    → w.table.lock_initialized ≡ true
    → ((kv_exists (some k) now w).0 ≡ is_some (visible w.table now k))
      × IsValid (kv_exists (some k) now w).1.table
      × ((q : Bytes) → visible (kv_exists (some k) now w).1.table now q ≡ visible w.table now q)
unfolding kv_exists
kv_exists_lem k now w v i =
    let t = w.table in
    let r = find_entry-visible k now t v in
    if_both
      (λ (y : Bool × World).
        (y.0 ≡ is_some (visible t now k))
        × IsValid y.1.table
        × ((q : Bytes) → visible y.1.table now q ≡ visible t now q))
      t.lock_initialized _ _
      (λ _. (
        exists_found (find_entry_unlocked k now t).0 (visible t now k) r.0,
        find_entry-IsValid k now t v,
        r.1,
      ))
      (λ n. absurd (ground (arith, i, n)))
