-- ===== src/Table/Evict/Laws.antt =====
-- What an eviction does to the table, and that the loop of evictions comes to its end.
use mini_kv_db_server.Prelude.{
  ℕ, zero, suc, ◌+◌, ◌≤◌, ◌<◌, ◌≡◌, ◌⊎◌, refl, ◌∙◌, Bool, false, ◌&&◌, none, arith, ◌==◌, ltb,
  length, Bool-cases, Option-cases, inl, inr,
}
use mini_kv_db_server.Prelude.Text.{Bytes}
use mini_kv_db_server.Status.{Status, ok, not_found, internal, is_ok}
use mini_kv_db_server.Table.Types.{Table, Found}
use mini_kv_db_server.Table.Ops.{expire_and_delete_unlocked}
use mini_kv_db_server.Table.Laws.{
  IsValid, Points, view, delete-IsValid, size-delete, allocated_bytes-delete, view-delete,
  delete-sum, delete-width,
}
use mini_kv_db_server.Table.Evict.{pick, kv_evict_lru_unlocked, or_break, evict_until}
use mini_kv_db_server.Table.Evict.Pick.{pick-PointsIn, pick_some, ageless, is_ageless}

-- Every entry has been accessed at a clock value below the largest.
abbrev pub IsAged : Table → Type 0
IsAged t = ageless t.buckets ≡ 0

-- One eviction deletes one entry of the table, or changes nothing in it, for which the table has
-- to be empty or to hold an entry of the largest clock value.
abbrev pub Evicts : Table → Status × Table × ℕ → Type 0
Evicts t x =
    ((f : Found) × (rng : ℕ) × Points t f × (x ≡ (ok, expire_and_delete_unlocked f t, rng)))
    ⊎ ((s : Status) × (rng : ℕ) × (is_ok s ≡ false)
        × (0 < t.size → IsAged t → ⊥)
        × (x ≡ (s, t, rng)))

pub kv_evict-Evicts : (t : Table) (rng : ℕ) → IsValid t → Evicts t (kv_evict_lru_unlocked t rng)
unfolding kv_evict_lru_unlocked
kv_evict-Evicts t rng v = elim (Bool-cases (t.size == 0)) [
  | inl e ↦ inr (not_found, rng, refl, λ h a. ground arith, rw e refl)
  | inr e ↦ elim (Option-cases (pick t.buckets rng).0) [
    | inl n ↦ inr (
      internal,
      (pick t.buckets rng).1,
      refl,
      λ h a. pick_some t.buckets rng a (omega (arith, v.counted)) n,
      rw (e, n, kv_evict_lru_unlocked) refl,
    )
    | inr (f, s) ↦ inl (
      f,
      (pick t.buckets rng).1,
      pick-PointsIn t.buckets rng f v.roomy s,
      rw (e, s, kv_evict_lru_unlocked) refl,
    )
  ]
]

-- Several deletions in a row.
pub data Evictions : Table → Table → Type 0 where
  none_left : (t : Table) → Evictions t t
  one_more :
      (t r : Table) (f : Found)
      → Points t f
      → Evictions (expire_and_delete_unlocked f t) r
      → Evictions t r

-- Only entries, the count and the bytes change.
pub record Shrinks (t r : Table) : Type 0 where
  pub valid : IsValid r
  pub bytes : r.allocated_bytes ≤ t.allocated_bytes
  pub size : r.size ≤ t.size
  pub aged : ageless r.buckets ≤ ageless t.buckets
  pub width : length r.buckets ≡ length t.buckets
  pub max_capacity : r.max_capacity ≡ t.max_capacity
  pub max_memory_budget : r.max_memory_budget ≡ t.max_memory_budget
  pub lru_clock : r.lru_clock ≡ t.lru_clock
  pub locks : r.lock_initialized ≡ t.lock_initialized
  pub peak : r.peak_allocated_bytes ≡ t.peak_allocated_bytes
  pub views : (q : Bytes) → (view r q ≡ none) ⊎ (view r q ≡ view t q)

pub Shrinks-refl : (t : Table) → IsValid t → Shrinks t t
Shrinks-refl t v = record {
  valid = v;
  bytes = omega arith;
  size = omega arith;
  aged = omega arith;
  width = refl;
  max_capacity = refl;
  max_memory_budget = refl;
  lru_clock = refl;
  locks = refl;
  peak = refl;
  views = λ q. inr refl;
}

pub Shrinks-trans : {t s r : Table} → Shrinks t s → Shrinks s r → Shrinks t r
Shrinks-trans a b = record {
  valid = b.valid;
  bytes = omega (arith, a.bytes, b.bytes);
  size = omega (arith, a.size, b.size);
  aged = omega (arith, a.aged, b.aged);
  width = b.width ∙ a.width;
  max_capacity = b.max_capacity ∙ a.max_capacity;
  max_memory_budget = b.max_memory_budget ∙ a.max_memory_budget;
  lru_clock = b.lru_clock ∙ a.lru_clock;
  locks = b.locks ∙ a.locks;
  peak = b.peak ∙ a.peak;
  views = λ q. ground (arith, a.views q, b.views q);
}

pub Shrinks-delete :
    (t : Table) (f : Found) → IsValid t → Points t f → Shrinks t (expire_and_delete_unlocked f t)
Shrinks-delete t f v h = record {
  valid = delete-IsValid t f v h;
  bytes = omega (arith, allocated_bytes-delete t f v h);
  size = omega (arith, size-delete t f v h);
  aged = omega (arith, delete-sum t f v h is_ageless);
  width = delete-width t f v h;
  max_capacity = unfold expire_and_delete_unlocked in refl;
  max_memory_budget = unfold expire_and_delete_unlocked in refl;
  lru_clock = unfold expire_and_delete_unlocked in refl;
  locks = unfold expire_and_delete_unlocked in refl;
  peak = unfold expire_and_delete_unlocked in refl;
  views = λ q. ground (arith, view-delete t f v h q);
}

pub Evictions-Shrinks : {t r : Table} → IsValid t → Evictions t r → Shrinks t r
Evictions-Shrinks v (none_left t) = Shrinks-refl t v
Evictions-Shrinks v (one_more t r f h e) =
    Shrinks-trans (Shrinks-delete t f v h) (Evictions-Shrinks (delete-IsValid t f v h) e)

-- The test of the loop.
abbrev pub over : ℕ → Table → Bool
over delta t = ltb t.max_memory_budget (t.allocated_bytes + delta) && ltb 0 t.size

-- With as much fuel as there are entries the loop ends by its test, or in a state of the clock
-- in which no entry can be chosen; it only deletes entries.
abbrev pub Ends : ℕ → Table → Table → Type 0
Ends delta t r = Evictions t r × (IsAged t → over delta r ≡ false)

after :
    (t : Table) (f : Found) (delta : ℕ) (r : Table)
    → IsValid t
    → Points t f
    → Ends delta (expire_and_delete_unlocked f t) r
    → Ends delta t r
after t f delta r v h e =
    (one_more t r f h e.0, λ a. e.1 (omega (arith, (Shrinks-delete t f v h).aged)))

or_break_stop :
    (again : Table → ℕ → Table × ℕ) (s : Status) (t : Table) (rng : ℕ)
    → is_ok s ≡ false
    → or_break again (s, t, rng) ≡ (t, rng)
unfolding or_break
or_break_stop again ok t rng h = ground arith
or_break_stop again _ t rng h = refl

-- With as much fuel as a valid table has entries, the loop of evictions only deletes entries and
-- ends by its test, unless an entry has the largest clock value.
pub evict_until-Ends :
    (fuel delta : ℕ) (t : Table) (rng : ℕ)
    → IsValid t
    → t.size ≤ fuel
    → Ends delta t (evict_until fuel delta t rng).0
unfolding evict_until
evict_until-Ends zero delta t rng v h = (none_left t, λ a. ground arith)
evict_until-Ends (suc fuel) delta t rng v h = elim (Bool-cases (over delta t)) [
  | inr e ↦ rw (e, evict_until) (none_left t, λ a. e)
  | inl e ↦ elim (kv_evict-Evicts t rng v) [
    | inl (f, rng', p, x) ↦
        rw (e, evict_until, x)
          (after t f delta _ v p (
            evict_until-Ends fuel delta (expire_and_delete_unlocked f t) rng'
              (delete-IsValid t f v p) (omega (arith, size-delete t f v p))))
    | inr (s, rng', b, no_way, x) ↦
        rw (e, evict_until, x, or_break_stop (evict_until fuel delta) s t rng' b)
          (none_left t, λ a. absurd (no_way (ground arith) a))
  ]
]
