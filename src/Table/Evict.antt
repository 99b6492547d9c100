-- ===== src/Table/Evict.antt =====
-- Eviction by approximate LRU: `xorshift32` and `kv_evict_lru_unlocked` of src/eviction.c, and the
-- loop of the writers that evicts until an allocation fits the budget.
pub mod Pick
pub mod Laws
use Prim.Native.Nat.{bit_xor}
use mini_kv_db_server.Prelude.{
  ℕ, zero, suc, ◌+◌, ◌-◌, ◌*◌, ◌/◌, ◌%◌, ◌^◌, Bool, true, false, ◌&&◌, Option, none, some, List, [],
  ◌∷◌, ◌==◌, ltb, if◌then◌else◌, length, get_or,
}
use mini_kv_db_server.Status.{Status, ok, not_found, internal, invalid_param, is_ok}
use mini_kv_db_server.Table.Types.{Entry, Table, Found}
use mini_kv_db_server.Table.Ops.{expire_and_delete_unlocked}

-- The seed is put in for a zero state; the shifts drop what passes 32 bits.
unfoldable pub xorshift32 : ℕ → ℕ
xorshift32 state =
    let x₀ = if state == 0 then 2463534242 else state in
    let x₁ = bit_xor x₀ ((x₀ * 2 ^ 13) % 2 ^ 32) in
    let x₂ = bit_xor x₁ (x₁ / 2 ^ 17) in bit_xor x₂ ((x₂ * 2 ^ 5) % 2 ^ 32)

-- The variables `min_clock` and `best_entry` with its place.
pub record Best : Type 0 where
  pub min_clock : ℕ
  pub best : Option Found

abbrev pub uint64_max : ℕ
uint64_max = 2 ^ 64 - 1

abbrev pub no_best : Best
no_best = record { min_clock = uint64_max; best = none }

-- The comparison with one entry.
unfoldable pub better : ℕ → ℕ → Entry → Best → Best
better index position curr b =
    if ltb curr.last_accessed_time b.min_clock
    then record {
      min_clock = curr.last_accessed_time;
      best = some (record { index = index; position = position; entry = curr });
    }
    else b

-- The walk along one chain.
unfoldable pub scan_chain : ℕ → ℕ → List Entry → Best → Best
unfolding better
scan_chain index position [] b = b
scan_chain index position (curr ∷ c) b =
    scan_chain index (suc position) c (better index position curr b)

-- One sampled bucket: only one that is not empty counts.
unfoldable pub visit : ℕ → List Entry → ℕ → Best → ℕ × Best
unfolding scan_chain
visit index [] samples_found b = (samples_found, b)
visit index (curr ∷ c) samples_found b = (samples_found + 1, scan_chain index 0 (curr ∷ c) b)

-- The sampling loop: `rounds` of the 64 are left, and `samples_found` chains had entries.
unfoldable pub sample : ℕ → ℕ → ℕ → List (List Entry) → Best → Best × ℕ
unfolding visit xorshift32
sample zero samples_found rng buckets b = (b, rng)
sample (suc rounds) samples_found rng buckets b = elim (ltb samples_found 16) [
  | false ↦ (b, rng)
  | true ↦
      let rng' = xorshift32 rng in
      let index = rng' % length buckets in
      let (found', b') = visit index (get_or buckets index []) samples_found b in
      sample rounds found' rng' buckets b'
]

-- The linear scan over all chains.
unfoldable pub scan_all : ℕ → List (List Entry) → Best → Best
unfolding scan_chain
scan_all index [] b = b
scan_all index (c ∷ buckets) b = scan_all (suc index) buckets (scan_chain index 0 c b)

-- The linear scan is made where sampling found no candidate.
unfoldable pub or_scan : List (List Entry) → Best → Best
or_scan buckets b = elim b.best [ some f ↦ b | none ↦ scan_all 0 buckets b ]

-- The candidate, and the generator's next state.
unfoldable pub pick : List (List Entry) → ℕ → Option Found × ℕ
pick buckets rng =
    let (b, rng') = sample 64 0 rng buckets no_best in ((or_scan buckets b).best, rng')

-- The status, the table, and the generator's next state.
unfoldable pub kv_evict_lru_unlocked : Table → ℕ → Status × Table × ℕ
kv_evict_lru_unlocked store rng =
    if store.size == 0
    then (not_found, store, rng)
    else let (chosen, rng') = pick store.buckets rng in
      elim chosen [
        | some f ↦ (ok, expire_and_delete_unlocked f store, rng')
        | none ↦ (internal, store, rng')
      ]

unfoldable pub kv_evict_lru : Table → ℕ → Status × Table × ℕ
unfolding kv_evict_lru_unlocked
kv_evict_lru store rng =
    if store.lock_initialized then kv_evict_lru_unlocked store rng else (invalid_param, store, rng)

-- if (kv_evict_lru_unlocked(store) != KV_OK) break;
unfoldable pub or_break : (Table → ℕ → Table × ℕ) → Status × Table × ℕ → Table × ℕ
or_break again (ok, store, rng) = again store rng
or_break again (status, store, rng) = (store, rng)

-- `while (allocated_bytes + delta > max_memory_budget && size > 0)`: evict, and break on failure.
unfoldable pub evict_until : ℕ → ℕ → Table → ℕ → Table × ℕ
unfolding or_break
evict_until zero delta store rng = (store, rng)
evict_until (suc fuel) delta store rng =
    elim (ltb store.max_memory_budget (store.allocated_bytes + delta) && ltb 0 store.size) [
      | false ↦ (store, rng)
      | true ↦ or_break (evict_until fuel delta) (kv_evict_lru_unlocked store rng)
    ]
