-- ===== src/Kv/ReadAfterWrite.antt =====
-- What GET shows after `kv_set` or `kv_delete` of src/kv.c.
use mini_kv_db_server.Prelude.{
  ℕ, ◌≡◌, ◌⊎◌, refl, ap, ◌∙◌, Bool, true, false, Option, none, some, arith, inl, inr,
}
use mini_kv_db_server.Prelude.Text.{Bytes, str_eq_refl}
use mini_kv_db_server.Status.{Status, ok, not_found}
use mini_kv_db_server.World.{World}
use mini_kv_db_server.Table.Types.{Entry}
use mini_kv_db_server.Table.Ops.{entry_is_expired}
use mini_kv_db_server.Table.Laws.{IsValid, view}
use mini_kv_db_server.Kv.{kv_set, kv_get, kv_delete}
use mini_kv_db_server.Kv.SetInternal.{KeepsExpiry}
use mini_kv_db_server.Kv.Set.{kv_set-SetDone}
use mini_kv_db_server.Kv.Get.{shown, kv_get_lem}
use mini_kv_db_server.Kv.Delete.{kv_delete-Outcome}

-- An entry that is due but still in the table.
abbrev pub is_stale : Option Entry → ℕ → Bool
is_stale none now = false
is_stale (some e) now = entry_is_expired e now

kept_expiry :
    (o o₀ : Option Entry) (e : Entry) (now : ℕ)
    → KeepsExpiry o e
    → (o ≡ none) ⊎ (o ≡ o₀)
    → is_stale o₀ now ≡ false
    → entry_is_expired e now ≡ false
unfolding entry_is_expired
kept_expiry none o₀ e now k h s = rw k refl
kept_expiry (some x) none e now k h s = absurd (ground (arith, h))
kept_expiry (some x) (some y) e now (inl z) h s = rw z refl
kept_expiry (some x) (some y) e now (inr z) h s = ground (arith, z, h, s)

-- After a SET that succeeds on a valid table, a GET of the key at any time returns the value, if
-- the entry that the key had before is not due at that time.
pub kv_set-kv_get :
    (key value : Bytes) (now : ℕ) (w w' : World)
    → IsValid w.table
    → kv_set (some key) (some value) w ≡ (ok, w')
    → is_stale (view w.table key) now ≡ false
    → (kv_get (some key) now w').0 ≡ some value
kv_set-kv_get key value now w w' v h s =
    let d = kv_set-SetDone key value w v in
    elim d.outcome [
      | inl (o, p) ↦
          let same : (kv_set (some key) (some value) w).1 ≡ w' =
            ap (λ (x : Status × World). x.1) h in
          let fine =
            kept_expiry (view p.mid key) (view w.table key) p.entry now p.expiry
              (ground (arith, p.shrinks.views key, d.same.views key)) s in
          let seen : shown w'.table now key ≡ some value =
            rw (← same) (ground (arith, p.views key, str_eq_refl key, fine, p.holds)) in
          let open' : w'.table.lock_initialized ≡ true =
            rw (← same) (p.locks ∙ d.same.locks ∙ d.in_use o) in
          (kv_get_lem key now w' (rw (← same) p.valid) open').0 ∙ seen
      | inr (o, p) ↦ absurd (ground (arith, h))
    ]

-- After a DELETE on a valid table that succeeds, or that finds no key, a GET of the key in a store
-- that is in use finds nothing at any time.
pub kv_delete-kv_get :
    (key : Bytes) (now : ℕ) (w w' : World) (s : Status)
    → IsValid w.table
    → w'.table.lock_initialized ≡ true
    → kv_delete (some key) w ≡ (s, w')
    → (s ≡ ok) ⊎ (s ≡ not_found)
    → (kv_get (some key) now w').0 ≡ none
kv_delete-kv_get key now w w' s v i h c =
    let same : (kv_delete (some key) w).1 ≡ w' = ap (λ (x : Status × World). x.1) h in
    let status : (kv_delete (some key) w).0 ≡ s = ap (λ (x : Status × World). x.0) h in
    elim (kv_delete-Outcome key w v) [
      | inl (o, p) ↦
          let seen : shown w'.table now key ≡ none =
            rw (← same) (ground (arith, p.views key, str_eq_refl key)) in
          (kv_get_lem key now w' (rw (← same) p.valid) i).0 ∙ seen
      | inr (o, e, m) ↦
          let seen : shown w'.table now key ≡ none =
            rw (← same, e) (ground (arith, m, o, status, c)) in
          (kv_get_lem key now w' (rw (← same, e) v) i).0 ∙ seen
    ]
