-- ===== src/Ttl.antt =====
-- The expiry commands of src/eviction.c. The clock's reading is an argument, and one more where a
-- function reads it twice.
pub mod Expire
pub mod Sweep
pub mod Persist
use mini_kv_db_server.Prelude.{
  ℕ, zero, suc, ◌+◌, ◌-◌, ◌*◌, ◌/◌, ◌%◌, ◌^◌, Bool, true, false, ◌&&◌, ◌||◌, Option, none, some,
  List, [], ◌∷◌, ◌==◌, leb, ltb, if◌then◌else◌, length, get_or,
}
use mini_kv_db_server.Prelude.Int.{ℤ, pos, negsuc, sub_ℕ, add_ℕ, scale, fits_int64}
use mini_kv_db_server.Prelude.Text.{Bytes, bytes}
use mini_kv_db_server.Status.{invalid_param}
use mini_kv_db_server.World.{World}
use mini_kv_db_server.Aof.{record₂, write_aof_record}
use mini_kv_db_server.Table.Types.{Entry, Table, Found}
use mini_kv_db_server.Table.Ops.{
  entry_is_expired, expire_and_delete_unlocked, find_raw, find_entry_unlocked, store_entry,
  chain_at,
}
use mini_kv_db_server.Table.Evict.{xorshift32}
use mini_kv_db_server.Kv.{log_rewrite}
use mini_kv_db_server.Payload.{Reply, failed, number}

-- Decimal digits of a number, as the format PRId64 prints them; `fuel` digits at most.
unfoldable pub digits : ℕ → ℕ → Bytes → Bytes
digits zero n acc = acc
digits (suc fuel) n acc =
    let rest = digits fuel (n / 10) ((n % 10 + 48) ∷ acc) in
    if n / 10 == 0 then (n % 10 + 48) ∷ acc else rest

-- 20 digits hold every 64-bit value.
unfoldable pub print_int64 : ℤ → Bytes
unfolding digits
print_int64 (pos n) = digits 20 n []
print_int64 (negsuc n) = b'-' ∷ digits 20 (n + 1) []

unfoldable pub with_expiry : ℤ → Found → Table → Table
with_expiry at f t = store_entry f (record f.entry { expire_at_ms = at }) t

-- The expiry of a key that is there, with no regard to whether it is due.
unfoldable pub kv_set_expire_at_ms_internal : Bytes → ℤ → Table → Table
unfolding with_expiry
kv_set_expire_at_ms_internal key at t = elim (find_raw key t) [
  | none ↦ t
  | some f ↦ with_expiry at f t
]

abbrev pub expiry_parts : Bytes → ℤ → List Bytes
expiry_parts key at = record₂ (bytes "PEXPIREAT") key (print_int64 at)

-- write_aof_pexpireat, whose result is not looked at, and the rewrite buffer.
unfoldable pub log_expiry : Bytes → ℤ → World → World
unfolding log_rewrite
log_expiry key at w = log_rewrite (expiry_parts key at) (write_aof_record (expiry_parts key at) w).2

unfoldable pub expire_found : Bytes → ℤ → Option Found → World → Reply × World
unfolding with_expiry log_expiry
expire_found key at none w = (number 0, w)
expire_found key at (some f) w =
    (number 1, log_expiry key at (record w { table = with_expiry at f w.table }))

unfoldable pub kv_pexpireat : Option Bytes → ℤ → ℕ → World → Reply × World
unfolding expire_found
kv_pexpireat none at now w = (failed invalid_param, w)
kv_pexpireat (some key) at now w =
    if w.table.lock_initialized
    then (let (found, t) = find_entry_unlocked key now w.table in
        expire_found key at found (record w { table = t }))
    else (failed invalid_param, w)

-- `now` is read for the sum, and `later` by the search. Arithmetic that leaves `int64_t` is undefined:
-- none.
unfoldable pub kv_expire : Option Bytes → ℤ → ℕ → ℕ → World → Option (Reply × World)
unfolding kv_pexpireat
kv_expire key seconds now later w =
    let milliseconds = scale seconds 1000 in
    let at = add_ℕ now milliseconds in
    if fits_int64 milliseconds && fits_int64 at then some (kv_pexpireat key at later w) else none

unfoldable pub kv_pexpire : Option Bytes → ℤ → ℕ → ℕ → World → Option (Reply × World)
unfolding kv_pexpireat
kv_pexpire key milliseconds now later w =
    let at = add_ℕ now milliseconds in
    if fits_int64 at then some (kv_pexpireat key at later w) else none

-- -1 for no expiry, 0 for one that has passed, else the time that is left; none where the difference
-- leaves `int64_t`, which is undefined.
unfoldable pub remaining : ℤ → ℕ → Option ℤ
remaining (pos zero) now = some (negsuc 0)
remaining (pos (suc t)) now = some (pos (suc t - now))
remaining (negsuc t) now = if ltb (t + now) (2 ^ 63) then some (pos 0) else none

unfoldable pub pttl_found : Option Found → ℕ → Option ℤ
unfolding remaining
pttl_found none now = some (negsuc 1)
pttl_found (some f) now = remaining f.entry.expire_at_ms now

-- The search reads the clock as `now`, and the difference as `later`.
unfoldable pub kv_pttl : Option Bytes → ℕ → ℕ → World → Option ℤ × World
unfolding pttl_found
kv_pttl none now later w = (some (negsuc 1), w)
kv_pttl (some key) now later w =
    if w.table.lock_initialized
    then (let (found, t) = find_entry_unlocked key now w.table in
        (pttl_found found later, record w { table = t }))
    else (some (negsuc 1), w)

-- Seconds, rounded up, where the sum before the division stays in `int64_t`.
unfoldable pub to_seconds : Option ℤ → Option ℤ
to_seconds none = none
to_seconds (some (pos t)) = if ltb (t + 999) (2 ^ 63) then some (pos ((t + 999) / 1000)) else none
to_seconds (some (negsuc t)) = some (negsuc t)

unfoldable pub kv_ttl : Option Bytes → ℕ → ℕ → World → Option ℤ × World
unfolding kv_pttl to_seconds
kv_ttl key now later w = let (t, w') = kv_pttl key now later w in (to_seconds t, w')

unfoldable pub has_no_expiry : ℤ → Bool
has_no_expiry (pos t) = t == 0
has_no_expiry (negsuc t) = false

unfoldable pub persist_found : Bytes → Option Found → World → Reply × World
unfolding with_expiry log_expiry has_no_expiry
persist_found key none w = (number 0, w)
persist_found key (some f) w =
    if has_no_expiry f.entry.expire_at_ms
    then (number 0, w)
    else (number 1, log_expiry key (pos 0) (record w { table = with_expiry (pos 0) f w.table }))

unfoldable pub kv_persist : Option Bytes → ℕ → World → Reply × World
unfolding persist_found
kv_persist none now w = (failed invalid_param, w)
kv_persist (some key) now w =
    if w.table.lock_initialized
    then (let (found, t) = find_entry_unlocked key now w.table in
        persist_found key found (record w { table = t }))
    else (failed invalid_param, w)

-- The inner loop of a sweep over one chain: the nodes that are still to be seen, of which
-- `position` precede the first in the chain, and the entries that may still be deleted.
unfoldable pub sweep_chain : ℕ → ℕ → ℕ → List Entry → ℕ → Table → ℕ × Table
sweep_chain now index position [] room t = (room, t)
sweep_chain now index position (e ∷ rest) room t =
    let f : Found = record { index = index; position = position; entry = e } in
    elim (ltb 0 room) [
      | false ↦ (room, t)
      | true ↦ elim (entry_is_expired e now) [
        | true ↦ sweep_chain now index position rest (room - 1) (expire_and_delete_unlocked f t)
        | false ↦ sweep_chain now index (suc position) rest room t
      ]
    ]

-- The sampled pass: `tries` rounds are left.
unfoldable pub sweep_sampled : ℕ → ℕ → ℕ → ℕ → Table → ℕ × ℕ × Table
unfolding sweep_chain
sweep_sampled zero now rng room t = (room, rng, t)
sweep_sampled (suc tries) now rng room t = elim (ltb 0 room && ltb 0 t.size) [
  | false ↦ (room, rng, t)
  | true ↦
      let rng' = xorshift32 rng in
      let index = rng' % length t.buckets in
      let (room', t') = sweep_chain now index 0 (chain_at t index) room t in
      sweep_sampled tries now rng' room' t'
]

-- The full pass: `left` buckets from `index` on.
unfoldable pub sweep_all : ℕ → ℕ → ℕ → ℕ → Table → ℕ × Table
unfolding sweep_chain
sweep_all zero now index room t = (room, t)
sweep_all (suc left) now index room t = elim (ltb 0 room && ltb 0 t.size) [
  | false ↦ (room, t)
  | true ↦
      let (room', t') = sweep_chain now index 0 (chain_at t index) room t in
      sweep_all left now (suc index) room' t'
]

-- The number of entries that were deleted.
unfoldable pub kv_expire_sample_sweep : ℕ → ℕ → ℕ → World → ℕ × World
unfolding sweep_sampled sweep_all
kv_expire_sample_sweep sample_size max_keys now w =
    if w.table.lock_initialized && ltb 0 w.table.size
    then (let tries = if ltb sample_size 16 then 16 else sample_size in
        let (room, rng, t) = sweep_sampled tries now w.env.xorshift_state max_keys w.table in
        let full = leb 100 sample_size || (room == max_keys && ltb 0 t.size) in
        let (room', t') = if full then sweep_all (length t.buckets) now 0 room t else (room, t) in
        (max_keys - room', record w { table = t'; env = record w.env { xorshift_state = rng } }))
    else (0, w)
