-- ===== src/Ttl/Sweep.antt =====
-- `kv_expire_sample_sweep` of src/eviction.c against the map that the table stands for.
use native.Mathlib.Numerals.{unary_clauses}
use mini_kv_db_server.Prelude.{
  ℕ, zero, suc, ◌+◌, ◌-◌, ◌%◌, ◌≤◌, ◌<◌, ◌≡◌, refl, ap, ◌∙◌, true, ◌&&◌, ◌||◌, some, List, [], ◌∷◌,
  arith, if◌then◌else◌, length, Bool-cases, if_both, inl, inr, leb, ltb, ◌==◌, get_elem?, get_or,
  set, remove_at, get_or-set,
}
use mini_kv_db_server.Prelude.Text.{Bytes, str_eq_refl}
use mini_kv_db_server.World.{World}
use mini_kv_db_server.Table.Types.{Entry, Table, Found}
use mini_kv_db_server.Table.Ops.{entry_is_expired, expire_and_delete_unlocked, chain_at}
use mini_kv_db_server.Table.Chain.{count, lookup, count-remove_at}
use mini_kv_db_server.Table.Laws.{IsValid, Points, view_of, size-delete, Points-home}
use mini_kv_db_server.Table.Lookup.{visible, Finds, find_gone}
use mini_kv_db_server.Table.Evict.{xorshift32}
use mini_kv_db_server.Table.Evict.Laws.{Shrinks, Shrinks-refl, Shrinks-trans, Shrinks-delete}
use mini_kv_db_server.Ttl.{sweep_chain, sweep_sampled, sweep_all, kv_expire_sample_sweep}

-- In a chain whose keys are unique, every node is the one under its key.
lookup_at :
    (c : List Entry) (i : ℕ) (e : Entry)
    → get_elem? c i ≡ some e
    → count e.key c ≤ 1
    → lookup e.key c ≡ some e
unfolding lookup count
lookup_at [] i e h u = absurd (ground arith)
lookup_at (x ∷ c) zero e h u = ground (arith, str_eq_refl e.key)
lookup_at (x ∷ c) (suc i) e h u =
    ground (arith, lookup_at c i e, count-remove_at e.key c i e, str_eq_refl e.key)

Points-Finds : (t : Table) (f : Found) → IsValid t → Points t f → Finds t f.entry.key f
unfolding view_of
Points-Finds t f v h = record {
  points = h;
  same_key = str_eq_refl f.entry.key;
  viewed = rw (← Points-home t f v.placed h) (
      lookup_at (chain_at t f.index) f.position f.entry h.1
        (grind (arith, v.placed f.entry.key f.index)));
}

-- The nodes from a position on.
abbrev Rest : Table → ℕ → ℕ → List Entry → Type 0
Rest t index position rest =
    (j : ℕ) → get_elem? (chain_at t index) (position + j) ≡ get_elem? rest j

after_removed :
    (c : List Entry) (p j : ℕ) → get_elem? (remove_at p c) (p + j) ≡ get_elem? c (p + suc j)
after_removed [] p j = refl
after_removed (x ∷ c) zero j = simp unary_clauses refl
after_removed (x ∷ c) (suc p) j =
    let e : suc p + j ≡ suc (p + j) = omega arith in
    let e' : suc (p + suc j) ≡ suc p + suc j = omega arith in
    ap (get_elem? (x ∷ remove_at p c)) e ∙ after_removed c p j ∙ ap (get_elem? (x ∷ c)) e'

delete-Rest :
    (t : Table) (f : Found) (rest : List Entry)
    → f.index < length t.buckets
    → Rest t f.index f.position (f.entry ∷ rest)
    → Rest (expire_and_delete_unlocked f t) f.index f.position rest
unfolding expire_and_delete_unlocked
delete-Rest t f rest lt r j =
    let c = remove_at f.position (chain_at t f.index) in
    let e : get_or (set t.buckets f.index c) f.index [] ≡ c =
      ground (arith, get_or-set t.buckets f.index f.index c [] lt) in
    rw e (after_removed (chain_at t f.index) f.position j ∙ r (suc j))

-- What a sweep does: it deletes as many entries as the room shrinks by, and none that is visible.
pub record Sweeps (now room : ℕ) (t : Table) (x : ℕ × Table) : Type 0 where
  pub shrinks : Shrinks t x.1
  pub spent : x.1.size + room ≡ t.size + x.0
  pub same : (q : Bytes) → visible x.1 now q ≡ visible t now q

Sweeps-refl : (now room : ℕ) (t : Table) → IsValid t → Sweeps now room t (room, t)
Sweeps-refl now room t v = record { shrinks = Shrinks-refl t v; spent = refl; same = λ q. refl }

Sweeps-trans :
    {now room : ℕ} {t : Table} (m : ℕ × Table) (x : ℕ × Table)
    → Sweeps now room t m
    → Sweeps now m.0 m.1 x
    → Sweeps now room t x
Sweeps-trans m x a b = record {
  shrinks = Shrinks-trans a.shrinks b.shrinks;
  spent = omega (arith, a.spent, b.spent);
  same = λ q. b.same q ∙ a.same q;
}

Sweeps-delete :
    (now room : ℕ) (t : Table) (f : Found)
    → IsValid t
    → Points t f
    → 0 < room
    → entry_is_expired f.entry now ≡ true
    → Sweeps now room t (room - 1, expire_and_delete_unlocked f t)
Sweeps-delete now room t f v h pos due = record {
  shrinks = Shrinks-delete t f v h;
  spent = omega (arith, size-delete t f v h);
  same = (find_gone f.entry.key now t f v (Points-Finds t f v h) due).1;
}

sweep_chain-Sweeps :
    (now index position : ℕ) (rest : List Entry) (room : ℕ) (t : Table)
    → IsValid t
    → index < length t.buckets
    → Rest t index position rest
    → Sweeps now room t (sweep_chain now index position rest room t)
unfolding sweep_chain
sweep_chain-Sweeps now index position [] room t v lt r = Sweeps-refl now room t v
sweep_chain-Sweeps now index position (e ∷ rest) room t v lt r = elim (Bool-cases (ltb 0 room)) [
  | inr n ↦ rw (n, sweep_chain) (Sweeps-refl now room t v)
  | inl y ↦
      let f : Found = record { index = index; position = position; entry = e } in
      let h : Points t f = (lt, ap (get_elem? (chain_at t index)) (omega arith) ∙ r 0) in
      elim (Bool-cases (entry_is_expired e now)) [
        | inl due ↦
            let d = Sweeps-delete now room t f v h (ground arith) due in
            rw (y, due, sweep_chain)
              (Sweeps-trans (room - 1, expire_and_delete_unlocked f t) _ d
                (sweep_chain-Sweeps now index position rest (room - 1)
                  (expire_and_delete_unlocked f t) d.shrinks.valid (omega (arith, d.shrinks.width))
                  (delete-Rest t f rest lt r)))
        | inr fine ↦
            rw (y, fine, sweep_chain)
              (sweep_chain-Sweeps now index (suc position) rest room t v lt
                (λ j. ap (get_elem? (chain_at t index)) (omega arith) ∙ r (suc j)))
      ]
]

chain-Sweeps :
    (now index room : ℕ) (t : Table)
    → IsValid t
    → index < length t.buckets
    → Sweeps now room t (sweep_chain now index 0 (chain_at t index) room t)
chain-Sweeps now index room t v lt =
    sweep_chain-Sweeps now index 0 (chain_at t index) room t v lt
      (λ j. ap (get_elem? (chain_at t index)) (omega arith))

sweep_sampled-Sweeps :
    (tries now rng room : ℕ) (t : Table)
    → IsValid t
    → let x = sweep_sampled tries now rng room t in Sweeps now room t (x.0, x.2)
unfolding sweep_sampled
sweep_sampled-Sweeps zero now rng room t v = Sweeps-refl now room t v
sweep_sampled-Sweeps (suc tries) now rng room t v = elim (Bool-cases (ltb 0 room && ltb 0 t.size)) [
  | inr n ↦ rw (n, sweep_sampled) (Sweeps-refl now room t v)
  | inl y ↦
      let index = xorshift32 rng % length t.buckets in
      let m = sweep_chain now index 0 (chain_at t index) room t in
      let c = chain-Sweeps now index room t v (grind (arith, v.roomy)) in
      rw (y, sweep_sampled)
        (Sweeps-trans m _ c
          (sweep_sampled-Sweeps tries now (xorshift32 rng) m.0 m.1 c.shrinks.valid))
]

sweep_all-Sweeps :
    (left now index room : ℕ) (t : Table)
    → IsValid t
    → index + left ≤ length t.buckets
    → Sweeps now room t (sweep_all left now index room t)
unfolding sweep_all
sweep_all-Sweeps zero now index room t v le = Sweeps-refl now room t v
sweep_all-Sweeps (suc left) now index room t v le = elim (Bool-cases (ltb 0 room && ltb 0 t.size)) [
  | inr n ↦ rw (n, sweep_all) (Sweeps-refl now room t v)
  | inl y ↦
      let m = sweep_chain now index 0 (chain_at t index) room t in
      let c = chain-Sweeps now index room t v (omega arith) in
      rw (y, sweep_all)
        (Sweeps-trans m _ c (
          sweep_all-Sweeps left now (suc index) m.0 m.1 c.shrinks.valid
            (omega (arith, c.shrinks.width))))
]

-- The two numbers that a caller sees, and the table.
abbrev pub SweepDone : ℕ → ℕ → Table → ℕ × Table → Type 0
SweepDone now max_keys t x =
    IsValid x.1
    × (x.0 ≤ max_keys)
    × (x.1.size + x.0 ≡ t.size)
    × ((q : Bytes) → visible x.1 now q ≡ visible t now q)

swept :
    (now max_keys : ℕ) (t : Table) (x : ℕ × Table)
    → Sweeps now max_keys t x
    → SweepDone now max_keys t (max_keys - x.0, x.1)
swept now max_keys t x s =
    (s.shrinks.valid, omega arith, omega (arith, s.spent, s.shrinks.size), s.same)

-- A sweep of a valid table reports the number of entries that it deletes, which is at most
-- `max_keys`; the table stays valid, and nothing that is visible at the time of the sweep changes.
pub kv_expire_sample_sweep_lem :
    (sample_size max_keys now : ℕ) (w : World)
    → IsValid w.table
    → let x = kv_expire_sample_sweep sample_size max_keys now w in
      SweepDone now max_keys w.table (x.0, x.1.table)
unfolding kv_expire_sample_sweep
kv_expire_sample_sweep_lem sample_size max_keys now w v =
    let t = w.table in
    let tries = if ltb sample_size 16 then 16 else sample_size in
    let a = sweep_sampled-Sweeps tries now w.env.xorshift_state max_keys t v in
    let (room, rng, t₁) = sweep_sampled tries now w.env.xorshift_state max_keys t in
    if_both (λ (y : ℕ × World). SweepDone now max_keys t (y.0, y.1.table))
      (t.lock_initialized && ltb 0 t.size) _ _
      (λ _.
        if_both (λ (y : ℕ × Table). SweepDone now max_keys t (max_keys - y.0, y.1))
          (leb 100 sample_size || (room == max_keys && ltb 0 t₁.size)) _ _
          (λ _. swept now max_keys t _ (
            Sweeps-trans (room, t₁) _ a
              (sweep_all-Sweeps (length t₁.buckets) now 0 room t₁ a.shrinks.valid (omega arith))))
          (λ _. swept now max_keys t (room, t₁) a))
      (λ _. (v, omega arith, omega arith, λ q. refl))
