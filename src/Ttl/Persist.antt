-- ===== src/Ttl/Persist.antt =====
-- `kv_persist` of src/eviction.c against the map that the table stands for.
use mini_kv_db_server.Prelude.{
  ℕ, ◌≡◌, ◌≢◌, ◌⊎◌, refl, sym, true, false, Option, none, some, arith, if_both, inl, inr,
}
use mini_kv_db_server.Prelude.Int.{ℤ, pos, negsuc}
use mini_kv_db_server.Prelude.Text.{Bytes, str_eq}
use mini_kv_db_server.World.{World}
use mini_kv_db_server.Table.Types.{Entry, Table, Found}
use mini_kv_db_server.Table.Ops.{find_entry_unlocked}
use mini_kv_db_server.Table.Laws.{IsValid, view, delete-IsValid}
use mini_kv_db_server.Table.Lookup.{
  Search, absent, present, expired, visible, find_gone, find_entry-Search,
}
use mini_kv_db_server.Payload.{Reply, number}
use mini_kv_db_server.Ttl.{expire_found, persist_found, kv_persist, has_no_expiry}
use mini_kv_db_server.Ttl.Expire.{expiring, Expires, expired-Expires}

-- What PERSIST leads to: 0 and no key is visible, or its entry has no expiry; or 1, and its entry is as
-- it was but without its expiry.
abbrev pub Persists : Bytes → ℕ → Table → Reply × World → Type 0
Persists k now t x =
    IsValid x.1.table
    × (((x.0 ≡ number 0)
          × ((q : Bytes) → visible x.1.table now q ≡ visible t now q)
          × ((visible t now k ≡ none)
              ⊎ ((e : Entry) × (visible t now k ≡ some e) × (e.expire_at_ms ≡ pos 0))))
        ⊎ ((e : Entry) × (x.0 ≡ number 1)
            × (visible t now k ≡ some e)
            × (e.expire_at_ms ≢ pos 0)
            × (view x.1.table k ≡ some (expiring (pos 0) e))
            × ((q : Bytes) → str_eq k q ≡ false → view x.1.table q ≡ view t q)))

no_expiry : (at : ℤ) → has_no_expiry at ≡ true → at ≡ pos 0
unfolding has_no_expiry
no_expiry (pos n) h = ground (arith, h)
no_expiry (negsuc n) h = absurd (ground (arith, h))

some_expiry : (at : ℤ) → has_no_expiry at ≡ false → at ≢ pos 0
unfolding has_no_expiry
some_expiry at h e = ground (arith, h, e)

persisted :
    (k : Bytes) (now : ℕ) (f : Found) (t : Table) (x : Reply × World)
    → visible t now k ≡ some f.entry
    → f.entry.expire_at_ms ≢ pos 0
    → x.0 ≡ number 1
    → Expires k (pos 0) now t x
    → Persists k now t x
persisted k now f t x seen other one (v, _, inl (zero_reply, _, _)) =
    absurd (ground (arith, zero_reply, one))
persisted k now f t x seen other one (v, _, inr (e, _, y, z, q)) =
    let same : f.entry ≡ e = ground (arith, seen, y) in
    (v, inr (e, one, y, rw (← same) other, z, q))

persist_found-Persists :
    (k : Bytes) (now : ℕ) (t : Table) (r : Option Found × Table) (w : World)
    → IsValid t
    → Search k now t r
    → Persists k now t (persist_found k r.0 (record w { table = r.1 }))
unfolding persist_found expire_found
persist_found-Persists k now t r w v (absent h) =
    (v, inl (refl, λ q. refl, inl (ground (arith, h))))
persist_found-Persists k now t r w v (expired f h e) =
    let d = find_gone k now t f v h e in
    (delete-IsValid t f v h.points, inl (refl, d.1, inl (sym d.0)))
persist_found-Persists k now t r w v (present f h e) =
    let seen : visible t now k ≡ some f.entry = ground (arith, h.viewed, e) in
    if_both (Persists k now t) (has_no_expiry f.entry.expire_at_ms) _ _
      (λ y. (v, inl (refl, λ q. refl, inr (f.entry, seen, no_expiry f.entry.expire_at_ms y))))
      (λ n.
        persisted k now f t (expire_found k (pos 0) (some f) (record w { table = t })) seen
          (some_expiry f.entry.expire_at_ms n) refl
          (expired-Expires k (pos 0) now t (some f, t) w v (present f h e)))

-- In a valid store that is in use, PERSIST returns 0 and changes nothing that is visible, if no
-- entry is visible under the key or it has no expiry; else it returns 1, and the entry is as it
-- was but without its expiry, and no other entry changes. The table stays valid.
pub kv_persist-Persists :
    (k : Bytes) (now : ℕ) (w : World)
    → IsValid w.table
    → w.table.lock_initialized ≡ true
    → Persists k now w.table (kv_persist (some k) now w)
unfolding kv_persist
kv_persist-Persists k now w v i =
    if_both (Persists k now w.table) w.table.lock_initialized _ _
      (λ _.
        persist_found-Persists k now w.table (find_entry_unlocked k now w.table) w v
          (find_entry-Search k now w.table v))
      (λ n. absurd (ground (arith, i, n)))
