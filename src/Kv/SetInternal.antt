-- ===== src/Kv/SetInternal.antt =====
-- What `kv_set_internal` does on each of its branches.
use mini_kv_db_server.Prelude.{
  ℕ, ◌+◌, ◌≤◌, ◌<◌, ◌≡◌, ◌⊎◌, refl, ◌∙◌, false, ◌&&◌, Option, none, some, arith, ltb, leb,
  if◌then◌else◌, length, Bool-cases, inl, inr,
}
use mini_kv_db_server.Prelude.Int.{pos}
use mini_kv_db_server.Prelude.Text.{Bytes, str_eq, str_eq→≡}
use mini_kv_db_server.Status.{Status, ok, is_ok}
use mini_kv_db_server.Key.{copy_string_bounded, max_value_len}
use mini_kv_db_server.Table.Types.{Value, string, Entry, Table, Found}
use mini_kv_db_server.Table.Bytes.{entry_bytes, value_bytes, sizeof_entry}
use mini_kv_db_server.Table.Laws.{IsValid, view}
use mini_kv_db_server.Table.Lookup.{Finds}
use mini_kv_db_server.Table.Evict.Laws.{Shrinks, Shrinks-refl, Shrinks-trans}
use mini_kv_db_server.World.{World}
use mini_kv_db_server.Kv.{
  tick, log_rewrite, make_room, value_delta, overwrite, replace_value, insert_entry, alloc_entry,
  fresh_entry, insert_new,
}
use mini_kv_db_server.Kv.Room.{make_room-Roomy}
use mini_kv_db_server.Kv.Writes.{
  tick-IsValid, overwritten, overwrite-IsValid, overwrite-fields, allocated_bytes-overwrite,
  view-overwrite, insert-IsValid, view-insert,
}

-- The expiry of the entry that a SET leaves: none, or that of the entry that it overwrote.
abbrev pub KeepsExpiry : Option Entry → Entry → Type 0
KeepsExpiry none e = e.expire_at_ms ≡ pos 0
KeepsExpiry (some e₀) e = (e.expire_at_ms ≡ pos 0) ⊎ (e.expire_at_ms ≡ e₀.expire_at_ms)

-- The table `r` comes from `t` by evicting entries, which leads to `mid`, and then writing one.
pub record Puts (key : Bytes) (value : Value) (t r : Table) : Type 0 where
  pub mid : Table
  pub shrinks : Shrinks t mid
  pub unbounded : t.max_memory_budget ≡ 0 → mid ≡ t
  pub entry : Entry
  pub holds : entry.value ≡ value
  pub expiry : KeepsExpiry (view mid key) entry
  pub views : (q : Bytes) → view r q ≡ (if str_eq key q then some entry else view mid q)
  pub valid : IsValid r
  pub locks : r.lock_initialized ≡ t.lock_initialized
  pub budget :
      (t.max_memory_budget ≡ 0)
      ⊎ ((r.allocated_bytes ≤ t.max_memory_budget) ⊎ (r.allocated_bytes ≤ t.allocated_bytes))
  pub capacity : (t.max_capacity ≡ 0) ⊎ ((r.size ≤ t.max_capacity) ⊎ (r.size ≤ t.size))

-- The change was refused, and only evictions have touched the table.
pub record Refused (t r : Table) : Type 0 where
  pub shrinks : Shrinks t r
  pub unbounded : t.max_memory_budget ≡ 0 → r ≡ t

abbrev pub SetOutcome : Bytes → Value → Table → Status × World → Type 0
SetOutcome key value t x =
    ((x.0 ≡ ok) × Puts key value t x.1.table) ⊎ ((is_ok x.0 ≡ false) × Refused t x.1.table)

pub refuse : (t : Table) → IsValid t → Refused t t
refuse t v = record { shrinks = Shrinks-refl t v; unbounded = λ z. refl }

-- Earlier evictions may be put in front.
pub SetOutcome-after :
    {key : Bytes} {value : Value} {t m : Table} (x : Status × World)
    → Shrinks t m
    → (t.max_memory_budget ≡ 0 → m ≡ t)
    → SetOutcome key value m x
    → SetOutcome key value t x
SetOutcome-after x s u (inl (o, p)) = inl (
  o,
  record {
    mid = p.mid;
    shrinks = Shrinks-trans s p.shrinks;
    unbounded = λ z. p.unbounded (s.max_memory_budget ∙ z) ∙ u z;
    entry = p.entry;
    holds = p.holds;
    expiry = p.expiry;
    views = p.views;
    valid = p.valid;
    locks = p.locks ∙ s.locks;
    budget = ground (arith, p.budget, s.max_memory_budget, s.bytes);
    capacity = ground (arith, p.capacity, s.max_capacity, s.size);
  },
)
SetOutcome-after x s u (inr (o, p)) = inr (
  o,
  record {
    shrinks = Shrinks-trans s p.shrinks;
    unbounded = λ z. p.unbounded (s.max_memory_budget ∙ z) ∙ u z;
  },
)

view-tick : (t : Table) (q : Bytes) → view (tick t) q ≡ view t q
unfolding tick
view-tick t q = refl

insert-Puts :
    (key : Bytes) (value : Value) (t m : Table) (n : ℕ)
    → Shrinks t m
    → (t.max_memory_budget ≡ 0 → m ≡ t)
    → view m key ≡ none
    → n ≡ sizeof_entry + length key + 1 + value_bytes value
    → (t.max_memory_budget ≡ 0) ⊎ (m.allocated_bytes + n ≤ t.max_memory_budget)
    → (t.max_capacity ≡ 0) ⊎ (t.size < t.max_capacity)
    → Puts key value t (insert_entry (fresh_entry key value (tick m)) n (tick m))
insert-Puts key value t m n s u absent size fits room =
    let e = fresh_entry key value (tick m) in
    let v = tick-IsValid m s.valid in
    record {
      mid = m;
      shrinks = s;
      unbounded = u;
      entry = e;
      holds = unfold fresh_entry in refl;
      expiry = rw absent (unfold fresh_entry in refl);
      views = λ q.
          unfold fresh_entry tick in
          view-insert e n (tick m) v absent (unfold entry_bytes in size) q;
      valid =
          unfold fresh_entry tick in
          insert-IsValid e n (tick m) v absent (unfold entry_bytes in size);
      budget = unfold insert_entry tick in ground (arith, fits);
      locks = unfold insert_entry tick in s.locks;
      capacity = unfold insert_entry tick in ground (arith, room, s.size);
    }

overwrite-Puts :
    (key old value : Bytes) (t m : Table) (f : Found)
    → Shrinks t m
    → (t.max_memory_budget ≡ 0 → m ≡ t)
    → Finds m key f
    → f.entry.value ≡ string old
    → (t.max_memory_budget ≡ 0)
      ⊎ ((m.allocated_bytes + value_delta (length value + 1) (length old + 1) ≤ t.max_memory_budget)
          ⊎ (length value ≤ length old))
    → Puts key (string value) t (overwrite f old value m)
overwrite-Puts key old value t m f s u h e fits =
    let fields = overwrite-fields f old value m s.valid h.points e in
    let bytes = allocated_bytes-overwrite f old value m s.valid h.points e in
    let same = str_eq→≡ f.entry.key key h.same_key in
    record {
      mid = m;
      shrinks = s;
      unbounded = u;
      entry = overwritten f value m;
      holds = refl;
      expiry = rw (h.viewed) (inr refl);
      views = λ q. rw (← same) (view-overwrite f old value m s.valid h.points e q);
      valid = overwrite-IsValid f old value m s.valid h.points e;
      budget = ground (arith, fits, bytes, s.bytes);
      locks = fields.8 ∙ s.locks;
      capacity = ground (arith, fields.1, s.size);
    }

-- The last part of an update.
pub replace_value-Outcome :
    (f : Found) (key old value : Bytes) (t : Table) (w : World)
    → Shrinks t w.table
    → (t.max_memory_budget ≡ 0 → w.table ≡ t)
    → Finds w.table key f
    → f.entry.value ≡ string old
    → (t.max_memory_budget ≡ 0)
      ⊎ ((w.table.allocated_bytes + value_delta (length value + 1) (length old + 1)
            ≤ t.max_memory_budget)
          ⊎ (length value ≤ length old))
    → SetOutcome key (string value) t (replace_value f old key value w)
unfolding replace_value log_rewrite
replace_value-Outcome f key old value t w s u h e fits =
    elim (Bool-cases (copy_string_bounded value max_value_len w.env).0) [
      | inl y ↦
          rw (y, replace_value) (inl (refl, overwrite-Puts key old value t w.table f s u h e fits))
      | inr n ↦ rw (n, replace_value) (inr (refl, record { shrinks = s; unbounded = u }))
    ]

-- A key that is not in the table.
pub insert_new-Outcome :
    (key value : Bytes) (w : World)
    → IsValid w.table
    → view w.table key ≡ none
    → SetOutcome key (string value) w.table (insert_new key value w)
unfolding insert_new
insert_new-Outcome key value w v absent =
    let n = sizeof_entry + length key + 1 + length value + 1 in
    let r = make_room-Roomy n w v in
    let w₁ = (make_room n w).1 in
    elim (Bool-cases (ltb 0 w.table.max_capacity && leb w.table.max_capacity w.table.size)) [
      | inl y ↦ rw (insert_new, y) (inr (refl, refuse w.table v))
      | inr full ↦ elim (Bool-cases (make_room n w).0) [
        | inr e ↦
            rw (insert_new, full, e)
              (inr (refl, record { shrinks = r.shrinks; unbounded = λ z. (r.unbounded z).0 }))
        | inl e ↦ elim (Bool-cases (alloc_entry key value w₁.env).0) [
          | inr a ↦
              rw (insert_new, full, e, a)
                (inr (refl, record { shrinks = r.shrinks; unbounded = λ z. (r.unbounded z).0 }))
          | inl a ↦
              rw (insert_new, full, e, a)
                (inl (
                  refl,
                  insert-Puts key (string value) w.table w₁.table n r.shrinks
                      (λ z. (r.unbounded z).0) (ground (arith, r.shrinks.views key))
                      (unfold value_bytes in omega arith) (r.fitting e) (ground arith),
                ))
        ]
      ]
    ]
