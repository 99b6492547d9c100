-- ===== src/Ttl/Expire.antt =====
-- The expiry commands of src/eviction.c against the map that the table stands for.
use mathlib.Core.Path.{subst}
use mini_kv_db_server.Prelude.{
  ℕ, zero, suc, ◌+◌, ◌-◌, ◌*◌, ◌≤◌, ◌<◌, ◌≡◌, ◌⊎◌, refl, ap, sym, ◌∙◌, true, false, Option, none,
  some, arith, if◌then◌else◌, if_both, inl, inr, leb, ltb, Bool-cases, ◌^◌,
}
use mini_kv_db_server.Prelude.Int.{ℤ, pos, negsuc}
use mini_kv_db_server.Prelude.Text.{Bytes, str_eq, str_eq→≡}
use mini_kv_db_server.World.{World}
use mini_kv_db_server.Table.Types.{Entry, Table, Found}
use mini_kv_db_server.Table.Bytes.{entry_bytes}
use mini_kv_db_server.Table.Ops.{
  entry_is_expired, is_due, expire_and_delete_unlocked, find_entry_unlocked, store_entry,
}
use mini_kv_db_server.Table.Laws.{IsValid, Points, view, delete-IsValid}
use mini_kv_db_server.Table.Lookup.{
  Search, absent, present, expired, visible, find_gone, find_entry-Search, live, find_entry-visible,
  entry_found,
}
use mini_kv_db_server.Table.Writes.{store-width, store-sum, store-IsPlaced, view-store}
use mini_kv_db_server.Kv.{kv_exists, log_rewrite}
use mini_kv_db_server.Kv.Logged.{table-write_aof_record}
use mini_kv_db_server.Kv.Get.{kv_exists_lem, is_some}
use mini_kv_db_server.Payload.{Reply, number}
use mini_kv_db_server.Ttl.{
  with_expiry, log_expiry, expiry_parts, expire_found, kv_pexpireat, kv_expire, remaining,
  pttl_found, kv_pttl,
}

abbrev pub expiring : ℤ → Entry → Entry
expiring at e = record e { expire_at_ms = at }

pub with_expiry-IsValid :
    (at : ℤ) (f : Found) (t : Table) → IsValid t → Points t f → IsValid (with_expiry at f t)
unfolding with_expiry store_entry entry_bytes
with_expiry-IsValid at f t v h =
    let e = expiring at f.entry in
    record {
      roomy = omega (arith, store-width t f e v h refl, v.roomy);
      placed = store-IsPlaced t f e v h refl;
      counted = omega (arith, store-sum t f e v h refl (λ _. 1), v.counted);
      accounted =
          omega
            (arith, store-width t f e v h refl, store-sum t f e v h refl entry_bytes, v.accounted);
      peaked = v.peaked;
    }

view-with_expiry :
    (at : ℤ) (f : Found) (t : Table) (q : Bytes)
    → IsValid t
    → Points t f
    → view (with_expiry at f t) q
      ≡ (if str_eq f.entry.key q then some (expiring at f.entry) else view t q)
unfolding with_expiry
view-with_expiry at f t q v h = view-store t f (expiring at f.entry) v h refl q

table-log_expiry : (key : Bytes) (at : ℤ) (w : World) → (log_expiry key at w).table ≡ w.table
unfolding log_expiry log_rewrite
table-log_expiry key at w = table-write_aof_record (expiry_parts key at) w

-- What setting an expiry leads to: 0 and no such key is visible, or 1 and its entry is as it was but
-- for the expiry. Nothing else that is visible changes.
abbrev pub Expires : Bytes → ℤ → ℕ → Table → Reply × World → Type 0
Expires k at now t x =
    IsValid x.1.table
    × (x.1.table.lock_initialized ≡ t.lock_initialized)
    × (((x.0 ≡ number 0)
          × (visible t now k ≡ none)
          × ((q : Bytes) → visible x.1.table now q ≡ visible t now q))
        ⊎ ((e : Entry) × (x.0 ≡ number 1)
            × (visible t now k ≡ some e)
            × (view x.1.table k ≡ some (expiring at e))
            × ((q : Bytes) → str_eq k q ≡ false → view x.1.table q ≡ view t q)))

pub expired-Expires :
    (k : Bytes) (at : ℤ) (now : ℕ) (t : Table) (r : Option Found × Table) (w : World)
    → IsValid t
    → Search k now t r
    → Expires k at now t (expire_found k at r.0 (record w { table = r.1 }))
unfolding expire_found expire_and_delete_unlocked store_entry with_expiry
expired-Expires k at now t r w v (absent h) = (v, refl, inl (refl, ground (arith, h), λ q. refl))
expired-Expires k at now t r w v (expired f h e) =
    let d = find_gone k now t f v h e in
    (delete-IsValid t f v h.points, refl, inl (refl, sym d.0, d.1))
expired-Expires k at now t r w v (present f h e) =
    let w₁ = record w { table = with_expiry at f t } in
    let z = table-log_expiry k at w₁ in
    (
      rw z (with_expiry-IsValid at f t v h.points),
      ap (λ (t : Table). t.lock_initialized) z,
      inr (
        f.entry,
        refl,
        ground (arith, h.viewed, e),
        rw z (ground (arith, view-with_expiry at f t k v h.points, h.same_key)),
        λ q ne. rw z (
            ground (
              arith,
              view-with_expiry at f t q v h.points,
              ap (λ z. str_eq z q) (str_eq→≡ f.entry.key k h.same_key),
            )),
      ),
    )

-- In a valid store that is in use, PEXPIREAT returns 1 and sets the expiry of the entry exactly if
-- one is visible under the key, and else returns 0; the table stays valid, and no other entry that
-- is visible changes.
pub kv_pexpireat_lem :
    (k : Bytes) (at : ℤ) (now : ℕ) (w : World)
    → IsValid w.table
    → w.table.lock_initialized ≡ true
    → Expires k at now w.table (kv_pexpireat (some k) at now w)
unfolding kv_pexpireat
kv_pexpireat_lem k at now w v i =
    if_both (Expires k at now w.table) w.table.lock_initialized _ _
      (λ _.
        expired-Expires k at now w.table (find_entry_unlocked k now w.table) w v
          (find_entry-Search k now w.table v))
      (λ n. absurd (ground (arith, i, n)))

-- What is left of an expiry, as PTTL says it: -1 for none, the milliseconds up to a time that is to come,
-- 0 for one that has passed. Before the start of time there is no difference to a late clock in `int64_t`.
abbrev pub LeftOf : ℤ → ℕ → Option ℤ → Type 0
LeftOf at later r =
    ((at ≡ pos 0) × (r ≡ some (negsuc 0)))
    ⊎ (((n : ℕ) × (d : ℕ) × (at ≡ pos n)
          × (0 < n)
          × (r ≡ some (pos d))
          × ((later + d ≡ n) ⊎ ((n ≤ later) × (d ≡ 0))))
        ⊎ ((n : ℕ) × (at ≡ negsuc n)
            × (((n + later < 2 ^ 63) × (r ≡ some (pos 0))) ⊎ ((2 ^ 63 ≤ n + later) × (r ≡ none)))))

-- What PTTL says of an entry that is visible, or of none: -2.
abbrev pub TimeLeft : Option Entry → ℕ → Option ℤ → Type 0
TimeLeft none later r = r ≡ some (negsuc 1)
TimeLeft (some e) later r = LeftOf e.expire_at_ms later r

elapsed : (n later : ℕ) → (later + (n - later) ≡ n) ⊎ ((n ≤ later) × (n - later ≡ 0))
elapsed n later = elim (Bool-cases (leb later n)) [
  | inl h ↦ inl (ground (arith, h))
  | inr h ↦ inr (ground (arith, h), ground (arith, h))
]

remaining-LeftOf : (at : ℤ) (later : ℕ) → LeftOf at later (remaining at later)
unfolding remaining
remaining-LeftOf (pos zero) later = inl (refl, refl)
remaining-LeftOf (pos (suc n)) later =
    inr (inl (suc n, suc n - later, refl, omega arith, refl, elapsed (suc n) later))
remaining-LeftOf (negsuc n) later = inr (
    inr (
      n,
      refl,
      if_both
          (λ r. ((n + later < 2 ^ 63) × (r ≡ some (pos 0))) ⊎ ((2 ^ 63 ≤ n + later) × (r ≡ none)))
          (ltb (n + later) (2 ^ 63)) (some (pos 0)) none (λ h. inl (ground (arith, h), refl))
          (λ h. inr (ground (arith, h), refl)),
    ))

due_at :
    (e : Entry) (at now : ℕ)
    → 0 < at
    → leb at now ≡ true
    → live now (some (expiring (pos at) e)) ≡ none
unfolding entry_is_expired is_due
due_at e at now p h = ground (arith, p, h)

not_due_at :
    (e : Entry) (at now : ℕ)
    → leb at now ≡ false
    → live now (some (expiring (pos at) e)) ≡ some (expiring (pos at) e)
unfolding entry_is_expired is_due
not_due_at e at now h = ground (arith, h)

left_at : (at now : ℕ) → 0 < at → remaining (pos at) now ≡ some (pos (at - now))
unfolding remaining
left_at zero now p = absurd (omega arith)
left_at (suc n) now p = refl

-- What PTTL computes from an entry, or from none.
abbrev pttl_of : Option Entry → ℕ → Option ℤ
pttl_of none later = some (negsuc 1)
pttl_of (some e) later = remaining e.expire_at_ms later

pttl_of-TimeLeft : (e : Option Entry) (later : ℕ) → TimeLeft e later (pttl_of e later)
pttl_of-TimeLeft none later = refl
pttl_of-TimeLeft (some e) later = remaining-LeftOf e.expire_at_ms later

pttl_visible :
    (o : Option Found) (e : Option Entry) (later : ℕ)
    → entry_found o ≡ e
    → pttl_found o later ≡ pttl_of e later
unfolding pttl_found
pttl_visible none e later h = rw (← h) refl
pttl_visible (some f) e later h = rw (← h) refl

kv_pttl-visible :
    (k : Bytes) (now later : ℕ) (w : World)
    → IsValid w.table
    → w.table.lock_initialized ≡ true
    → (kv_pttl (some k) now later w).0 ≡ pttl_of (visible w.table now k) later
unfolding kv_pttl
kv_pttl-visible k now later w v i =
    let r = find_entry-visible k now w.table v in
    if_both (λ (y : Option ℤ × World). y.0 ≡ pttl_of (visible w.table now k) later)
      w.table.lock_initialized _ _
      (λ _. pttl_visible (find_entry_unlocked k now w.table).0 (visible w.table now k) later r.0)
      (λ n. absurd (ground (arith, i, n)))

-- In a valid store that is in use, PTTL returns -2 if no entry is visible under the key, -1 if the
-- entry has no expiry, the time from now to an expiry that is to come, and 0 for one that has
-- passed; its difference overflows exactly for the negative expiries that are more than 2^63
-- before the clock.
pub kv_pttl_lem :
    (k : Bytes) (now later : ℕ) (w : World)
    → IsValid w.table
    → w.table.lock_initialized ≡ true
    → TimeLeft (visible w.table now k) later (kv_pttl (some k) now later w).0
kv_pttl_lem k now later w v i =
    subst (TimeLeft (visible w.table now k) later) (sym (kv_pttl-visible k now later w v i))
      (pttl_of-TimeLeft (visible w.table now k) later)

-- An entry that is visible gets the expiry.
pexpireat_view :
    (k : Bytes) (at : ℤ) (now : ℕ) (e : Entry) (w : World)
    → IsValid w.table
    → w.table.lock_initialized ≡ true
    → visible w.table now k ≡ some e
    → let x = kv_pexpireat (some k) at now w in
      IsValid x.1.table
      × (x.1.table.lock_initialized ≡ true)
      × (x.0 ≡ number 1)
      × (view x.1.table k ≡ some (expiring at e))
pexpireat_view k at now e w v i h =
    let x = kv_pexpireat_lem k at now w v i in
    (
      x.0,
      x.1 ∙ i,
      elim x.2 [ inl (_, n, _) ↦ absurd (ground (arith, n, h)) | inr (d, s, _, _, _) ↦ s ],
      elim x.2 [
        | inl (_, n, _) ↦ absurd (ground (arith, n, h))
        | inr (d, _, n, y, _) ↦
            let same : d ≡ e = ground (arith, n, h) in y ∙ ap (λ d. some (expiring at d)) same
      ],
    )

-- An expiry that fits is handed on.
expire_fits :
    (k : Bytes) (seconds now later : ℕ) (w : World)
    → now + seconds * 1000 < 2 ^ 63
    → kv_expire (some k) (pos seconds) now later w
      ≡ some (kv_pexpireat (some k) (pos (now + seconds * 1000)) later w)
unfolding kv_expire
expire_fits k seconds now later w h = ground (arith, h)

-- In a valid store that is in use, EXPIRE of a key with a visible entry, at a clock above 0 and
-- with a time that fits in int64_t, returns 1. After it the key exists until the time of its
-- expiry, and PTTL then returns the milliseconds that are left to it; from that time on the key
-- does not exist and PTTL returns -2.
pub kv_expire-kv_pttl :
    (k : Bytes) (seconds now later then' : ℕ) (e : Entry) (w : World)
    → IsValid w.table
    → w.table.lock_initialized ≡ true
    → 0 < now
    → now + seconds * 1000 < 2 ^ 63
    → visible w.table later k ≡ some e
    → (w' : World) × (kv_expire (some k) (pos seconds) now later w ≡ some (number 1, w'))
      × (then' < now + seconds * 1000
          → ((kv_exists (some k) then' w').0 ≡ true)
            × ((kv_pttl (some k) then' then' w').0 ≡ some (pos (now + seconds * 1000 - then'))))
      × (now + seconds * 1000 ≤ then'
          → ((kv_exists (some k) then' w').0 ≡ false)
            × ((kv_pttl (some k) then' then' w').0 ≡ some (negsuc 1)))
kv_expire-kv_pttl k seconds now later then' e w v i p fits seen =
    let at = now + seconds * 1000 in
    let r = kv_pexpireat (some k) (pos at) later w in
    let w' = r.1 in
    let x = pexpireat_view k (pos at) later e w v i seen in
    let ex = (kv_exists_lem k then' w' x.0 x.1).0 in
    let tt = kv_pttl-visible k then' then' w' x.0 x.1 in
    (
      w',
      expire_fits k seconds now later w fits ∙ ap (λ n. some (n, w')) x.2,
      λ lt.
          let s = ap (live then') x.3 ∙ not_due_at e at then' (ground (arith, lt)) in
          (ex ∙ ap is_some s, tt ∙ ap (λ o. pttl_of o then') s ∙ left_at at then' (omega arith)),
      λ ge.
          let s = ap (live then') x.3 ∙ due_at e at then' (omega arith) (ground (arith, ge)) in
          (ex ∙ ap is_some s, tt ∙ ap (λ o. pttl_of o then') s),
    )
