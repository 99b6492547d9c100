-- ===== src/Kv/Room.antt =====
-- Making room: `make_room` stands for the eviction loops of the writers.
use mini_kv_db_server.Prelude.{
  ℕ, ◌+◌, ◌≤◌, ◌≡◌, ◌⊎◌, refl, Bool, true, false, arith, ltb, Bool-cases, inl, inr,
}
use mini_kv_db_server.Table.Types.{Table}
use mini_kv_db_server.Table.Laws.{IsValid}
use mini_kv_db_server.Table.Evict.Laws.{
  Shrinks, Shrinks-refl, Evictions-Shrinks, evict_until-Ends, IsAged,
}
use mini_kv_db_server.World.{World}
use mini_kv_db_server.Kv.{make_room}

-- What asking for `delta` bytes in the table `t` has led to.
pub record Roomy (delta : ℕ) (t : Table) (fits : Bool) (r : Table) : Type 0 where
  pub shrinks : Shrinks t r
  pub unbounded : t.max_memory_budget ≡ 0 → (r ≡ t) × (fits ≡ true)
  pub fitting :
      fits ≡ true → (t.max_memory_budget ≡ 0) ⊎ (r.allocated_bytes + delta ≤ t.max_memory_budget)
  pub emptied : fits ≡ false → IsAged t → r.size ≡ 0

pub make_room-Roomy :
    (delta : ℕ) (w : World)
    → IsValid w.table
    → Roomy delta w.table (make_room delta w).0 (make_room delta w).1.table
unfolding make_room
make_room-Roomy delta w v = elim (Bool-cases (ltb 0 w.table.max_memory_budget)) [
  | inr n ↦
      rw (n, make_room)
        (record {
          shrinks = Shrinks-refl w.table v;
          unbounded = λ z. (refl, refl);
          fitting = λ _. inl (ground arith);
          emptied = λ f a. ground arith;
        })
  | inl y ↦
      let e = evict_until-Ends w.table.size delta w.table w.env.xorshift_state v (omega arith) in
      let s = Evictions-Shrinks v e.0 in
      rw (y, make_room)
        (record {
          shrinks = s;
          unbounded = λ z. absurd (ground arith);
          fitting = λ f. inr (ground (arith, s.max_memory_budget));
          emptied = λ f a. ground (arith, e.1 a);
        })
]
