-- ===== src/Protocol/ReadOnly.antt =====
-- What the commands leave alone that a replica accepts.
pub mod Replica
use mini_kv_db_server.Prelude.{
  ℕ, ◌+◌, ◌≡◌, ◌≢◌, refl, ap, sym, ◌∙◌, Bool, true, false, not, ◌&&◌, ◌||◌, Option, none, some,
  List, [], ◌∷◌, arith, length, if_both, Option-cases, inl, inr, if◌then◌else◌, ◌==◌,
}
use mini_kv_db_server.Prelude.Int.{ℤ}
use mini_kv_db_server.Prelude.Text.{Bytes, str_eq}
use mini_kv_db_server.Env.{Env, library_call}
use mini_kv_db_server.World.{World}
use mini_kv_db_server.Table.Types.{KvList, KvSet, Value, string, list, set_of, Entry, Table, Found}
use mini_kv_db_server.Table.Ops.{find_entry_unlocked, entry_is_expired}
use mini_kv_db_server.Table.Laws.{IsValid, Points, view}
use mini_kv_db_server.Table.Lookup.{
  Finds, Search, absent, present, expired, visible, live, find_entry-Search, find_entry-IsValid,
  find_entry-visible, view_congr,
}
use mini_kv_db_server.Kv.{touch, read_payload, read_value, kv_get, kv_exists}
use mini_kv_db_server.Kv.Get.{touch-IsValid, view-touch, touched}
use mini_kv_db_server.Payload.{Reply, failed, number, to_int}
use mini_kv_db_server.Status.{wrong_type}
use mini_kv_db_server.Lists.{count_found, kv_llen}
use mini_kv_db_server.Sets.{scard_found, kv_scard, members_of, members_found, kv_smembers}
use mini_kv_db_server.Ttl.{kv_pttl, kv_ttl}

-- The value and the expiry of an entry.
abbrev pub payload : Option Entry → Option (Value × ℤ)
payload none = none
payload (some e) = some (e.value, e.expire_at_ms)

-- The table stays valid, and every key has the value and the expiry that a reader saw before.
abbrev pub Keeps : ℕ → Table → Table → Type 0
Keeps now t t' = IsValid t' × ((q : Bytes) → payload (visible t' now q) ≡ payload (visible t now q))

-- What a reading command does with the entry that it has found.
data Accesses (found : Option Found) (t : Table) : Table → Type 0 where
  kept : Accesses found t t
  noted : (f : Found) → found ≡ some f → Accesses found t (touch f t)

Search-Finds :
    (k : Bytes) (now : ℕ) (t : Table) (f : Found) (r : Option Found × Table)
    → Search k now t r
    → r.0 ≡ some f
    → Finds r.1 k f
Search-Finds k now t f r (absent h) e = absurd (ground (arith, e))
Search-Finds k now t f r (present g h e) x = let same : g ≡ f = ground (arith, x) in rw (← same) h
Search-Finds k now t f r (expired g h e) x = absurd (ground (arith, x))

-- The access time is no part of what is kept.
same_payload :
    (now : ℕ) (f : Found) (t : Table)
    → payload (live now (some (touched f t))) ≡ payload (live now (some f.entry))
unfolding entry_is_expired
same_payload now f t =
    if_both
      (λ o. payload (if entry_is_expired f.entry now then none else some (touched f t)) ≡ payload o)
      (entry_is_expired f.entry now) none (some f.entry) (λ e. ground (arith, e))
      (λ e. ground (arith, e))

touch-Keeps :
    (k : Bytes) (now : ℕ) (t : Table) (f : Found)
    → IsValid t
    → Finds t k f
    → Keeps now t (touch f t)
touch-Keeps k now t f v h = (
  touch-IsValid f t v h.points,
  λ q.
      ap (λ o. payload (live now o)) (view-touch f t q v h.points)
      ∙ if_both (λ o. payload (live now o) ≡ payload (visible t now q)) (str_eq f.entry.key q)
          (some (touched f t)) (view t q)
          (λ y.
            same_payload now f t
            ∙ ap (λ o. payload (live now o))
                (sym h.viewed
                  ∙ sym (view_congr t f.entry.key k h.same_key)
                  ∙ view_congr t f.entry.key q y))
          (λ _. refl),
)

Accesses-Keeps :
    (k : Bytes) (now : ℕ) (t t' : Table)
    → IsValid t
    → Accesses (find_entry_unlocked k now t).0 (find_entry_unlocked k now t).1 t'
    → Keeps now t t'
Accesses-Keeps k now t t' v kept =
    (find_entry-IsValid k now t v, λ q. ap payload ((find_entry-visible k now t v).1 q))
Accesses-Keeps k now t t' v (noted f e) =
    let r = find_entry_unlocked k now t in
    let x =
      touch-Keeps k now r.1 f (find_entry-IsValid k now t v)
        (Search-Finds k now t f r (find_entry-Search k now t v) e) in
    (x.0, λ q. x.1 q ∙ ap payload ((find_entry-visible k now t v).1 q))

pub Keeps-refl : (now : ℕ) (t : Table) → IsValid t → Keeps now t t
Keeps-refl now t v = (v, λ q. refl)

read_value-Accesses : (found : Option Found) (t : Table) → Accesses found t (read_value found t).1
unfolding read_value read_payload
read_value-Accesses none t = kept
read_value-Accesses (some f) t = payload_read f.entry.value f t
  where
    payload_read : (x : Value) (f : Found) (t : Table) → Accesses (some f) t (read_payload x f t).1
    payload_read (string v) f t = noted f refl
    payload_read (list l) f t = kept
    payload_read (set_of s) f t = kept

count_found-Accesses :
    (found : Option Found) (w : World) → Accesses found w.table (count_found found w).1.table
unfolding count_found
count_found-Accesses none w = kept
count_found-Accesses (some f) w =
    elim f.entry.value
      as (λ x.
        Accesses (some f) w.table
          (elim x as (λ _. Reply × World) [
            | string v ↦ (failed wrong_type, w)
            | list l ↦ (to_int l.count, record w { table = touch f w.table })
            | set_of s ↦ (failed wrong_type, w)
          ]).1.table) [ string v ↦ kept | list l ↦ noted f refl | set_of s ↦ kept ]

scard_found-Accesses :
    (found : Option Found) (w : World) → Accesses found w.table (scard_found found w).1.table
unfolding scard_found
scard_found-Accesses none w = kept
scard_found-Accesses (some f) w =
    elim f.entry.value
      as (λ x.
        Accesses (some f) w.table
          (elim x as (λ _. Reply × World) [
            | string v ↦ (failed wrong_type, w)
            | list l ↦ (failed wrong_type, w)
            | set_of s ↦ (to_int s.count, record w { table = touch f w.table })
          ]).1.table) [ string v ↦ kept | list l ↦ kept | set_of s ↦ noted f refl ]

members_found-Accesses :
    (found : Option Found) (w : World) → Accesses found w.table (members_found found w).1.table
unfolding members_found
members_found-Accesses none w = kept
members_found-Accesses (some f) w =
    elim f.entry.value
      as (λ x.
        Accesses (some f) w.table
          (elim x as (λ _. Option (List Bytes) × World) [
            | string v ↦ (none, w)
            | list l ↦ (none, w)
            | set_of s ↦
                if s.count == 0
                then (none, w)
                else let (given, env) = library_call w.env in
                  if given
                  then (
                    some (members_of s.buckets),
                    record w { table = touch f w.table; env = env },
                  )
                  else (none, record w { env = env })
          ]).1.table) [
            | string v ↦ kept
            | list l ↦ kept
            | set_of s ↦
                if_both (λ (x : Option (List Bytes) × World). Accesses (some f) w.table x.1.table)
                  (s.count == 0) _ _ (λ _. kept)
                  (λ _.
                    if_both
                      (λ (x : Option (List Bytes) × World). Accesses (some f) w.table x.1.table)
                      (library_call w.env).0 _ _ (λ _. noted f refl) (λ _. kept))
          ]

-- The commands, with the entry that their search finds.
module _ (key : Bytes) (now : ℕ) (w : World) (v : IsValid w.table) where
  pub kv_get-Keeps : Keeps now w.table (kv_get (some key) now w).1.table
  unfolding kv_get
  kv_get-Keeps =
      let r = find_entry_unlocked key now w.table in
      if_both (λ (x : Option Bytes × World). Keeps now w.table x.1.table) w.table.lock_initialized _
        _ (λ _. Accesses-Keeps key now w.table _ v (read_value-Accesses r.0 r.1))
        (λ _. Keeps-refl now w.table v)

  pub kv_exists-Keeps : Keeps now w.table (kv_exists (some key) now w).1.table
  unfolding kv_exists
  kv_exists-Keeps =
      if_both (λ (x : Bool × World). Keeps now w.table x.1.table) w.table.lock_initialized _ _
        (λ _. Accesses-Keeps key now w.table _ v kept) (λ _. Keeps-refl now w.table v)

  pub kv_llen-Keeps : Keeps now w.table (kv_llen (some key) now w).1.table
  unfolding kv_llen
  kv_llen-Keeps =
      let r = find_entry_unlocked key now w.table in
      if_both (λ (x : Reply × World). Keeps now w.table x.1.table) w.table.lock_initialized _ _
        (λ _.
          Accesses-Keeps key now w.table _ v (count_found-Accesses r.0 (record w { table = r.1 })))
        (λ _. Keeps-refl now w.table v)

  pub kv_scard-Keeps : Keeps now w.table (kv_scard (some key) now w).1.table
  unfolding kv_scard
  kv_scard-Keeps =
      let r = find_entry_unlocked key now w.table in
      if_both (λ (x : Reply × World). Keeps now w.table x.1.table) w.table.lock_initialized _ _
        (λ _.
          Accesses-Keeps key now w.table _ v (scard_found-Accesses r.0 (record w { table = r.1 })))
        (λ _. Keeps-refl now w.table v)

  pub kv_smembers-Keeps : Keeps now w.table (kv_smembers (some key) now w).1.table
  unfolding kv_smembers
  kv_smembers-Keeps =
      let r = find_entry_unlocked key now w.table in
      if_both (λ (x : Option (List Bytes) × World). Keeps now w.table x.1.table)
        w.table.lock_initialized _ _
        (λ _.
          Accesses-Keeps key now w.table _ v
            (members_found-Accesses r.0 (record w { table = r.1 })))
        (λ _. Keeps-refl now w.table v)

  pub kv_pttl-Keeps : (later : ℕ) → Keeps now w.table (kv_pttl (some key) now later w).1.table
  unfolding kv_pttl
  kv_pttl-Keeps later =
      if_both (λ (x : Option ℤ × World). Keeps now w.table x.1.table) w.table.lock_initialized _ _
        (λ _. Accesses-Keeps key now w.table _ v kept) (λ _. Keeps-refl now w.table v)
