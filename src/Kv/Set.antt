-- ===== src/Kv/Set.antt =====
-- `kv_set` of src/kv.c against the map that the table stands for.
use mathlib.Core.Path.{subst}
use mini_kv_db_server.Prelude.{
  ◌+◌, ◌≤◌, ◌<◌, ◌≡◌, ◌⊎◌, refl, ap, sym, ◌∙◌, true, false, none, some, List, arith, if_both, inl,
  inr,
}
use mini_kv_db_server.Prelude.Text.{Bytes, str_eq, str_eq_refl}
use mini_kv_db_server.Status.{Status, ok, invalid_param, is_ok}
use mini_kv_db_server.Key.{Validated, valid, invalid, validate_key, validate_value}
use mini_kv_db_server.Key.Laws.{validate_key-invalid, validate_value-invalid}
use mini_kv_db_server.World.{World}
use mini_kv_db_server.Table.Types.{Value, string, Entry, Table}
use mini_kv_db_server.Table.Bytes.{sizeof_entry}
use mini_kv_db_server.Table.Laws.{IsValid, view}
use mini_kv_db_server.Kv.{set_lock_phase, logged, set_parts, set_validated, kv_set_internal, kv_set}
use mini_kv_db_server.Kv.SetInternal.{Refused, SetOutcome, refuse}
use mini_kv_db_server.Kv.SetOutcome.{kv_set_internal-Outcome}
use mini_kv_db_server.Kv.Logged.{
  SameMap, SameMap-refl, set_lock_phase-SameMap, LoggedOutcome, logged-Outcome,
}

-- The outcomes of `kv_set`: the table `m` is that of `t`, perhaps over more buckets.
pub record SetDone (key : Bytes) (value : Value) (t : Table) (x : Status × World) : Type 0 where
  pub m : Table
  pub same : SameMap t m
  pub outcome : SetOutcome key value m x
  pub in_use : x.0 ≡ ok → t.lock_initialized ≡ true

logged-SetOutcome :
    (key value : Bytes) (parts : List Bytes) (w : World) (x : Status × World)
    → IsValid w.table
    → LoggedOutcome (kv_set_internal (some key) (some value)) w x
    → SetOutcome key (string value) w.table x
logged-SetOutcome key value parts w x v (inl (bad, same)) =
    inr (rw bad refl, subst (Refused w.table) (sym same) (refuse w.table v))
logged-SetOutcome key value parts w x v (inr (w₁, same, status, result)) =
    let o = kv_set_internal-Outcome key value w₁ (rw same v) in
    elim o [
      | inl (s, p) ↦ inl (status ∙ s, rw (result, ← same) p)
      | inr (s, p) ↦ inr (rw status s, rw (result, ← same) p)
    ]

kept :
    (key : Bytes) (value : Value) (e : Status) (w : World)
    → IsValid w.table
    → is_ok e ≡ false
    → SetDone key value w.table (e, w)
kept key value e w v bad = record {
  m = w.table;
  same = SameMap-refl w.table v;
  outcome = inr (bad, refuse w.table v);
  in_use = λ o. absurd (ground (arith, bad));
}

set_validated-SetDone :
    (x y : Validated) (key value : Bytes) (w : World)
    → validate_key (some key) ≡ x
    → validate_value (some value) ≡ y
    → w.table.lock_initialized ≡ true
    → IsValid w.table
    → SetDone key (string value) w.table (set_validated x y (some key) (some value) w)
unfolding set_validated
set_validated-SetDone (invalid e) y key value w k l i v =
    kept key (string value) e w v (validate_key-invalid (some key) e k)
set_validated-SetDone (valid n) (invalid e) key value w k l i v =
    kept key (string value) e w v (validate_value-invalid (some value) e l)
set_validated-SetDone (valid n) (valid m) key value w k l i v =
    let w₁ = set_lock_phase (sizeof_entry + n + 1 + m + 1) w in
    let s = set_lock_phase-SameMap (sizeof_entry + n + 1 + m + 1) w v in
    record {
      m = w₁.table;
      same = s;
      outcome =
          logged-SetOutcome key value (set_parts key value) w₁
            (logged (set_parts key value) (kv_set_internal (some key) (some value)) w₁) s.valid
            (logged-Outcome (set_parts key value) (kv_set_internal (some key) (some value)) w₁);
      in_use = λ _. i;
    }

pub kv_set-SetDone :
    (key value : Bytes) (w : World)
    → IsValid w.table
    → SetDone key (string value) w.table (kv_set (some key) (some value) w)
unfolding kv_set
kv_set-SetDone key value w v =
    if_both (SetDone key (string value) w.table) w.table.lock_initialized _ _
      (λ i. set_validated-SetDone _ _ key value w refl refl i v)
      (λ _. kept key (string value) invalid_param w v refl)

-- From a valid table, kv_set leads to a valid table, whatever its result: keys unique and in their
-- buckets, the counters of entries and bytes exact, the peak no smaller than the bytes.
pub kv_set-IsValid :
    (key value : Bytes) (w : World)
    → IsValid w.table
    → IsValid (kv_set (some key) (some value) w).1.table
kv_set-IsValid key value w v = elim (kv_set-SetDone key value w v).outcome [
  | inl (s, p) ↦ p.valid
  | inr (s, p) ↦ p.shrinks.valid
]

-- From a valid table, a SET that succeeds leaves an entry with the value under its key; every
-- other key has its entry, or none if that was evicted.
pub view-kv_set :
    (key value : Bytes) (w w' : World)
    → IsValid w.table
    → kv_set (some key) (some value) w ≡ (ok, w')
    → ((e : Entry) × (view w'.table key ≡ some e) × (e.value ≡ string value))
      × ((q : Bytes)
          → str_eq key q ≡ false
          → (view w'.table q ≡ none) ⊎ (view w'.table q ≡ view w.table q))
view-kv_set key value w w' v h =
    let d = kv_set-SetDone key value w v in
    elim d.outcome [
      | inl (s, p) ↦ (
        (p.entry, ground (arith, p.views key, str_eq_refl key, h), p.holds),
        λ q ne. ground (arith, p.views q, p.shrinks.views q, d.same.views q, h),
      )
      | inr (s, p) ↦ absurd (ground (arith, h))
    ]

-- From a valid table without a memory budget, a SET changes no other key, and one that fails
-- changes none.
pub kv_set_unbounded :
    (key value : Bytes) (w : World) (q : Bytes)
    → IsValid w.table
    → w.table.max_memory_budget ≡ 0
    → (is_ok (kv_set (some key) (some value) w).0 ≡ true → str_eq key q ≡ false)
    → view (kv_set (some key) (some value) w).1.table q ≡ view w.table q
kv_set_unbounded key value w q v z other =
    let d = kv_set-SetDone key value w v in
    let none_left : d.m.max_memory_budget ≡ 0 = d.same.max_memory_budget ∙ z in
    elim d.outcome [
      | inl (s, p) ↦
          let m : view p.mid q ≡ view d.m q =
            ap (λ (t : Table). view t q) (p.unbounded none_left) in
          let o : str_eq key q ≡ false = other (rw s refl) in
          ground (arith, p.views q, m, d.same.views q, o)
      | inr (s, p) ↦ ap (λ (t : Table). view t q) (p.unbounded none_left) ∙ d.same.views q
    ]

-- A valid store within its memory budget stays within it, whatever the result of the SET.
pub kv_set-budget :
    (key value : Bytes) (w : World)
    → IsValid w.table
    → 0 < w.table.max_memory_budget
    → w.table.allocated_bytes ≤ w.table.max_memory_budget
    → (kv_set (some key) (some value) w).1.table.allocated_bytes ≤ w.table.max_memory_budget
kv_set-budget key value w v pos h =
    let d = kv_set-SetDone key value w v in
    elim d.outcome [
      | inl (s, p) ↦ ground (arith, p.budget, d.same.budget, d.same.max_memory_budget)
      | inr (s, p) ↦ ground (arith, p.shrinks.bytes, d.same.budget)
    ]

-- A valid store within its capacity stays within it, whatever the result of the SET.
pub kv_set-capacity :
    (key value : Bytes) (w : World)
    → IsValid w.table
    → 0 < w.table.max_capacity
    → w.table.size ≤ w.table.max_capacity
    → (kv_set (some key) (some value) w).1.table.size ≤ w.table.max_capacity
kv_set-capacity key value w v pos h =
    let d = kv_set-SetDone key value w v in
    elim d.outcome [
      | inl (s, p) ↦ ground (arith, p.capacity, d.same.size, d.same.max_capacity)
      | inr (s, p) ↦ ground (arith, p.shrinks.size, d.same.size)
    ]
