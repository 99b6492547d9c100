-- ===== src/Table/Lookup.antt =====
-- Finding an entry: `find_entry_unlocked` of src/kv.c against the abstract map.
use mini_kv_db_server.Prelude.{
  ℕ, ◌<◌, ◌≡◌, refl, ap, true, false, Option, none, some, arith, if◌then◌else◌, length, Bool-cases,
  Option-cases, inl, inr,
}
use mini_kv_db_server.Prelude.Text.{Bytes, str_eq, str_eq→≡}
use mini_kv_db_server.Key.{hash_key}
use mini_kv_db_server.Key.Laws.{hash_key-lt}
use mini_kv_db_server.Table.Types.{Entry, Table, Found}
use mini_kv_db_server.Table.Chain.{find_key, find_key-some, find_key-none}
use mini_kv_db_server.Table.Ops.{
  chain_at, entry_is_expired, expire_and_delete_unlocked, find_raw, drop_if_due,
  find_entry_unlocked,
}
use mini_kv_db_server.Table.Laws.{IsValid, Points, view_of, view, delete-IsValid, view-delete}

-- What a pointer that was found under a key satisfies.
pub record Finds (t : Table) (k : Bytes) (f : Found) : Type 0 where
  pub points : Points t f
  pub same_key : str_eq f.entry.key k ≡ true
  pub viewed : view t k ≡ some f.entry

pub find_raw-none : (t : Table) (k : Bytes) → find_raw k t ≡ none → view t k ≡ none
unfolding find_raw view_of
find_raw-none t k h = ground (arith, find_key-none k (chain_at t (hash_key k (length t.buckets))))

pub find_raw-some :
    (t : Table) (k : Bytes) (f : Found) → 0 < length t.buckets → find_raw k t ≡ some f → Finds t k f
unfolding find_raw view_of
find_raw-some t k f r h =
    let c = chain_at t (hash_key k (length t.buckets)) in
    let lt = hash_key-lt k (length t.buckets) r in
    elim (Option-cases (find_key k c)) [
      | inl e ↦ absurd (ground arith)
      | inr (p, e) ↦ let s = find_key-some k c p.0 p.1 e in ground (arith, s, lt)
    ]

-- The entry that a reader sees at a time: one that is due is gone.
abbrev pub live : ℕ → Option Entry → Option Entry
live now none = none
live now (some e) = if entry_is_expired e now then none else some e

abbrev pub visible : Table → ℕ → Bytes → Option Entry
visible t now q = live now (view t q)

abbrev pub entry_found : Option Found → Option Entry
entry_found none = none
entry_found (some f) = some f.entry

-- The three ways in which a search may end.
pub data Search (k : Bytes) (now : ℕ) (t : Table) : Option Found × Table → Type 0 where
  absent : view t k ≡ none → Search k now t (none, t)
  present :
      (f : Found) → Finds t k f → entry_is_expired f.entry now ≡ false → Search k now t (some f, t)
  expired :
      (f : Found)
      → Finds t k f
      → entry_is_expired f.entry now ≡ true
      → Search k now t (none, expire_and_delete_unlocked f t)

drop_if_due-Search :
    (k : Bytes) (now : ℕ) (t : Table) (f : Found)
    → Finds t k f
    → Search k now t (drop_if_due now f t)
unfolding drop_if_due
drop_if_due-Search k now t f h = elim (Bool-cases (entry_is_expired f.entry now)) [
  | inl e ↦ rw e (expired f h e)
  | inr e ↦ rw e (present f h e)
]

pub find_entry-Search :
    (k : Bytes) (now : ℕ) (t : Table) → IsValid t → Search k now t (find_entry_unlocked k now t)
unfolding find_entry_unlocked
find_entry-Search k now t v = elim (Option-cases (find_raw k t)) [
  | inl e ↦ rw (e, find_entry_unlocked) (absent (find_raw-none t k e))
  | inr (f, e) ↦
      rw (e, find_entry_unlocked) (drop_if_due-Search k now t f (find_raw-some t k f v.roomy e))
]

Search-IsValid :
    {k : Bytes} {now : ℕ} {t : Table} {r : Option Found × Table}
    → IsValid t
    → Search k now t r
    → IsValid r.1
Search-IsValid v (absent h) = v
Search-IsValid v (present f h e) = v
Search-IsValid {t = t} v (expired f h e) = delete-IsValid t f v h.points

-- A search keeps the table valid.
pub find_entry-IsValid :
    (k : Bytes) (now : ℕ) (t : Table) → IsValid t → IsValid (find_entry_unlocked k now t).1
find_entry-IsValid k now t v = Search-IsValid v (find_entry-Search k now t v)

pub view_congr : (t : Table) (a b : Bytes) → str_eq a b ≡ true → view t a ≡ view t b
view_congr t a b h = ap (view t) (str_eq→≡ a b h)

-- Deleting an entry that is due changes nothing that is visible.
pub find_gone :
    (k : Bytes) (now : ℕ) (t : Table) (f : Found)
    → IsValid t
    → Finds t k f
    → entry_is_expired f.entry now ≡ true
    → (none ≡ visible t now k)
      × ((q : Bytes) → visible (expire_and_delete_unlocked f t) now q ≡ visible t now q)
find_gone k now t f v h e = (
  ground (arith, h.viewed),
  λ q. ground (
    arith,
    view-delete t f v h.points q,
    h.viewed,
    view_congr t f.entry.key q,
    view_congr t f.entry.key k,
  ),
)

Search-visible :
    (k : Bytes) (now : ℕ) (t : Table) (r : Option Found × Table)
    → IsValid t
    → Search k now t r
    → (entry_found r.0 ≡ visible t now k) × ((q : Bytes) → visible r.1 now q ≡ visible t now q)
Search-visible k now t r v (absent h) = (ground (arith, h), λ q. refl)
Search-visible k now t r v (present f h e) = (ground (arith, h.viewed), λ q. refl)
Search-visible k now t r v (expired f h e) = find_gone k now t f v h e

-- What a search returns is the visible entry under its key, and no visible entry changes.
pub find_entry-visible :
    (k : Bytes) (now : ℕ) (t : Table)
    → IsValid t
    → (entry_found (find_entry_unlocked k now t).0 ≡ visible t now k)
      × ((q : Bytes) → visible (find_entry_unlocked k now t).1 now q ≡ visible t now q)
find_entry-visible k now t v = Search-visible k now t _ v (find_entry-Search k now t v)
