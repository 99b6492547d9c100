-- ===== src/Snapshot/Load/Restore.antt =====
-- `kv_load_snapshot` of src/snapshot.c on a file that `kv_save_internal_unlocked` has written.
use mathlib.Core.List.{append_assoc, append-nil}
use mini_kv_db_server.Prelude.{
  ℕ, zero, suc, ◌^◌, ◌≤◌, ◌<◌, ◌≡◌, refl, ap, sym, ◌∙◌, true, false, Option, none, some, List, [],
  ◌∷◌, ◌++◌, ◌==◌, arith, length, length-append, if◌then◌else◌, All,
}
use mini_kv_db_server.Prelude.Text.{Bytes, str_eq, str_eq_refl}
use mini_kv_db_server.Status.{Status, ok, io}
use mini_kv_db_server.Key.{max_key_len}
use mini_kv_db_server.World.{World}
use mini_kv_db_server.Payload.{Run, returned, use_after_free}
use mini_kv_db_server.Table.Types.{Value, string, list, set_of, Entry}
use mini_kv_db_server.Snapshot.{
  Output, snapshot_magic, end_marker, little_endian, adler32, type_byte, to_uint64, write_bytes,
  write_uint64, snapshot_of,
}
use mini_kv_db_server.Snapshot.Numbers.{
  text_bytes, text_sum, read_bytes_lem, read_number_lem, adler32_lt,
  from_little_endian-little_endian, length-little_endian,
}
use mini_kv_db_server.Snapshot.Load.{
  Input, Loaded, read_text, read_bytes, read_number, read_uint64, from_little_endian, load_value,
  load_typed, check_end, continue_with, load_entries, kv_load_snapshot,
}
use mini_kv_db_server.Snapshot.Load.RoundTrip.{
  value_bytes, value_sum, Restored, with_memory, at_input, IsStored,
}
use mini_kv_db_server.Snapshot.Load.RoundTrip.Entries.{
  memory_step, IsStorable, restore_value, load_value_lem,
}
use mini_kv_db_server.Snapshot.Load.Outcome.{take_value}
use mini_kv_db_server.Snapshot.Load.Outcome.Steps.{restore_value-take_value, with_memory_same}
use mini_kv_db_server.Prelude.Int.{pos}
use mini_kv_db_server.Snapshot.Load.File.{
  entry_bytes, entry_sum, entries_bytes, entries_sum, saved, one_byte, write_buckets-Appends,
}

-- Memory for the key, and then the payload.
unfoldable pub restore_entry : ℕ → Entry → World → Restored
unfolding with_memory take_value
restore_entry now_ms e w = with_memory (take_value now_ms e.expire_at_ms e.key e.value) w

unfoldable pub then_load : Restored → (World → Run (Status × World)) → Run (Status × World)
then_load (returned (true, w)) next = next w
then_load (returned (false, w)) next = returned (io, w)
then_load use_after_free next = use_after_free

-- One entry after the other; the first that fails ends it with KV_ERR_IO.
unfoldable pub restore_all : ℕ → List Entry → World → Run (Status × World)
unfolding then_load restore_entry
restore_all now_ms [] w = returned (ok, w)
restore_all now_ms (e ∷ entries) w =
    then_load (restore_entry now_ms e w) (restore_all now_ms entries)

-- An entry that the file can hold.
abbrev pub IsSaved : Entry → Type 0
IsSaved e =
    IsStored max_key_len e.key
    × IsStorable e.value
    × ((t : ℕ) × (e.expire_at_ms ≡ pos t) × (t < 2 ^ 63))

to_uint64_lem : (t : ℕ) → t < 2 ^ 63 → to_uint64 (pos t) ≡ t
unfolding to_uint64
to_uint64_lem t h = omega (arith, h)

saved_time :
    (e : Entry) (time : (t : ℕ) × (e.expire_at_ms ≡ pos t) × (t < 2 ^ 63))
    → to_uint64 e.expire_at_ms ≡ time.0
saved_time e (t, same, small) = ap to_uint64 same ∙ to_uint64_lem t small

-- What the loader does with the number that it has read is what the entry asks for.
saved_value :
    (now_ms : ℕ) (e : Entry) (time : (t : ℕ) × (e.expire_at_ms ≡ pos t) × (t < 2 ^ 63)) (w : World)
    → restore_value now_ms (to_uint64 e.expire_at_ms) e.key e.value w
      ≡ take_value now_ms e.expire_at_ms e.key e.value w
saved_value now_ms e (t, same, small) w =
    ap (λ n. restore_value now_ms n e.key e.value w) (saved_time e (t, same, small))
    ∙ restore_value-take_value t now_ms e.key e.value w small
    ∙ ap (λ at. take_value now_ms at e.key e.value w) (sym same)

type_small : (v : Value) → type_byte v < 256 ^ 1
unfolding type_byte
type_small (string v) = omega arith
type_small (list l) = omega arith
type_small (set_of s) = omega arith

-- The key, the type and the payload.
load_typed_lem :
    (now_ms expire_at_ms : ℕ) (key : Bytes) (v : Value) (rest : Bytes) (k : ℕ) (w : World)
    → IsStored max_key_len key
    → IsStorable v
    → load_typed now_ms expire_at_ms (
        read_text max_key_len
          (text_bytes key ++ (((type_byte v ∷ []) ++ value_bytes v) ++ rest), k)
          w)
      ≡ at_input
          (rest, value_sum v (adler32 (text_sum key k) (type_byte v ∷ [])))
          (with_memory (restore_value now_ms expire_at_ms key v) w)
unfolding load_typed
load_typed_lem now_ms expire_at_ms key v rest k w h s =
    let k₁ = text_sum key k in
    let more = ((type_byte v ∷ []) ++ value_bytes v) ++ rest in
    let end : Input = (rest, value_sum v (adler32 k₁ (type_byte v ∷ []))) in
    memory_step max_key_len key more k end w (load_typed now_ms expire_at_ms)
      (restore_value now_ms expire_at_ms key v) h (omega arith) (λ u. refl)
      (λ u.
        (let go = λ (o : Option (ℕ × Input)). elim o as (λ _. Loaded) [
          | none ↦ returned (none, u)
          | some (type, x) ↦ load_value now_ms expire_at_ms key type x u
        ] in
          ap (λ s. go (read_number 1 (s ++ (value_bytes v ++ rest), k₁))) (sym (one_byte v))
          ∙ ap go (read_number_lem 1 (type_byte v) (value_bytes v ++ rest) k₁ (type_small v))
          ∙ ap
              (λ s.
                load_value now_ms expire_at_ms key (type_byte v)
                  (value_bytes v ++ rest, adler32 k₁ s) u)
              (one_byte v)
          ∙ load_value_lem now_ms expire_at_ms key v rest (adler32 k₁ (type_byte v ∷ [])) u s))

continue-at_input :
    (input : Input) (r : Restored) (step : Input → World → Run (Status × World))
    (next : World → Run (Status × World))
    → ((w : World) → step input w ≡ next w)
    → continue_with (at_input input r) step ≡ then_load r next
unfolding continue_with at_input then_load
continue-at_input input (returned (true, w)) step next h = h w
continue-at_input input (returned (false, w)) step next h = refl
continue-at_input input use_after_free step next h = refl

-- The end of the file: the marker and the checksum of all that has been read.
abbrev tail_of : ℕ → Bytes
tail_of k = little_endian 8 end_marker ++ little_endian 4 (adler32 k (little_endian 8 end_marker))

check_end_lem :
    (checksum : ℕ) (w : World)
    → checksum < 2 ^ 32
    → check_end (little_endian 4 checksum, checksum) w ≡ returned (ok, w)
unfolding check_end
check_end_lem checksum w h =
    let buf = little_endian 4 checksum in
    let go = λ (o : Option (Bytes × Input)). elim o as (λ _. Run (Status × World)) [
      | none ↦ returned (io, w)
      | some (b, rest) ↦ returned (if checksum == from_little_endian b then ok else io, w)
    ] in
    let same : (checksum == from_little_endian buf) ≡ true =
      ground (arith, from_little_endian-little_endian 4 checksum (omega (arith, h))) in
    ap (λ s. go (read_bytes 4 (s, 0))) (sym (append-nil buf))
    ∙ ap go (read_bytes_lem 4 buf [] 0 (length-little_endian 4 checksum))
    ∙ ap (λ b. returned (if b then ok else io, w)) same

-- A round, with the number that starts it.
abbrev load_round : ℕ → ℕ → World → Option (ℕ × Input) → Run (Status × World)
load_round fuel now_ms w none = returned (io, w)
load_round fuel now_ms w (some (at, rest)) =
    if at == end_marker
    then check_end rest w
    else continue_with (load_typed now_ms at (read_text max_key_len rest w))
        (load_entries fuel now_ms)

abbrev load_after_magic : ℕ → ℕ → World → Option (Bytes × Input) → Run (Status × World)
load_after_magic fuel now_ms w none = returned (io, w)
load_after_magic fuel now_ms w (some (magic, rest)) =
    if str_eq magic snapshot_magic then load_entries fuel now_ms rest w else returned (io, w)

regroup_entry : (a b c d e : Bytes) → ((a ++ (b ++ c)) ++ d) ++ e ≡ a ++ (b ++ (c ++ (d ++ e)))
regroup_entry a b c d e = simp append_assoc

regroup_tail : (a b c d : Bytes) → ((a ++ b) ++ c) ++ d ≡ a ++ (b ++ (c ++ d))
regroup_tail a b c d = simp append_assoc

-- The loop, with more rounds than there are entries.
load_entries_lem :
    (fuel now_ms : ℕ) (entries : List Entry) (k : ℕ) (w : World)
    → All IsSaved entries
    → length entries < fuel
    → load_entries fuel now_ms (entries_bytes entries ++ tail_of (entries_sum entries k), k) w
      ≡ restore_all now_ms entries w
unfolding load_entries restore_all
load_entries_lem zero now_ms entries k w h n = absurd (omega (arith, n))
load_entries_lem (suc fuel) now_ms [] k w h n =
    let k₁ = adler32 k (little_endian 8 end_marker) in
    let go = load_round fuel now_ms w in
    ap go (read_number_lem 8 end_marker (little_endian 4 k₁) k (omega arith))
    ∙ check_end_lem k₁ w (adler32_lt k (little_endian 8 end_marker))
load_entries_lem (suc fuel) now_ms (e ∷ entries) k w h n =
    let at = to_uint64 e.expire_at_ms in
    let head = little_endian 8 at in
    let body = (type_byte e.value ∷ []) ++ value_bytes e.value in
    let tail = entries_bytes entries ++ tail_of (entries_sum entries (entry_sum e k)) in
    let k₁ = adler32 k head in
    let rest = text_bytes e.key ++ (body ++ tail) in
    let go = load_round fuel now_ms w in
    let not_end : (at == end_marker) ≡ false = ground (arith, saved_time e h.0.2, h.0.2.2) in
    ap (λ s. go (read_uint64 (s, k)))
      (regroup_entry head (text_bytes e.key) body (entries_bytes entries)
        (tail_of (entries_sum entries (entry_sum e k))))
    ∙ ap go (read_number_lem 8 at rest k (omega (arith, saved_time e h.0.2, h.0.2.2)))
    ∙ ap
        (λ b.
          if b
          then check_end (rest, k₁) w
          else continue_with (load_typed now_ms at (read_text max_key_len (rest, k₁) w))
              (load_entries fuel now_ms))
        not_end
    ∙ ap (λ r. continue_with r (load_entries fuel now_ms))
        (load_typed_lem now_ms at e.key e.value tail k₁ w h.0.0 h.0.1)
    ∙ ap (λ r. continue_with (at_input (tail, entry_sum e k) r) (load_entries fuel now_ms))
        (with_memory_same (restore_value now_ms at e.key e.value)
          (take_value now_ms e.expire_at_ms e.key e.value) w (λ u. saved_value now_ms e h.0.2 u))
    ∙ continue-at_input (tail, entry_sum e k) (restore_entry now_ms e w) (load_entries fuel now_ms)
        (restore_all now_ms entries)
        (λ u. load_entries_lem fuel now_ms entries (entry_sum e k) u h.1 (omega (arith, n)))

entries_long : (entries : List Entry) → length entries ≤ length (entries_bytes entries)
entries_long [] = omega arith
entries_long (e ∷ entries) = omega (
  arith,
  entries_long entries,
  length-append (entry_bytes e) (entries_bytes entries),
  length-append (little_endian 8 (to_uint64 e.expire_at_ms))
      (text_bytes e.key ++ ((type_byte e.value ∷ []) ++ value_bytes e.value)),
  length-little_endian 8 (to_uint64 e.expire_at_ms),
)

snapshot_of_lem :
    (now_ms : ℕ) (buckets : List (List Entry))
    → let entries = saved now_ms buckets in
      snapshot_of now_ms buckets
      ≡ snapshot_magic
        ++ (entries_bytes entries ++ tail_of (entries_sum entries (adler32 1 snapshot_magic)))
unfolding snapshot_of write_uint64 write_bytes
snapshot_of_lem now_ms buckets =
    let entries = saved now_ms buckets in
    let finish =
      λ (out : Output). (let (c, k) = write_uint64 end_marker out in c ++ little_endian 4 k) in
    let k = entries_sum entries (adler32 1 snapshot_magic) in
    ap finish (write_buckets-Appends now_ms buckets snapshot_magic (adler32 1 snapshot_magic))
    ∙ regroup_tail snapshot_magic (entries_bytes entries) (little_endian 8 end_marker)
        (little_endian 4 (adler32 k (little_endian 8 end_marker)))

-- Loading the file that a save writes, if its texts are within their bounds and without a NUL, its
-- counts right and its expiries from 0 to 2^63 - 1, does with the entries that had not expired at
-- the save, one after the other: SET for a string, LPUSH for each element of a list from its tail
-- on, SADD for each member of a set, whatever these reply, and then the expiry of the entry, if it
-- has one, unless SET was refused or there was no element. An entry that has expired at the load
-- is read and passed over. The result is KV_OK, or KV_ERR_IO from the first allocation on that
-- fails for a text, unless a command follows a pointer to freed memory.
pub kv_load_snapshot-snapshot_of :
    (saved_at now_ms : ℕ) (buckets : List (List Entry)) (w : World)
    → All IsSaved (saved saved_at buckets)
    → kv_load_snapshot now_ms (some (snapshot_of saved_at buckets)) w
      ≡ restore_all now_ms (saved saved_at buckets) w
unfolding kv_load_snapshot
kv_load_snapshot-snapshot_of saved_at now_ms buckets w h =
    let entries = saved saved_at buckets in
    let k = adler32 1 snapshot_magic in
    let body = entries_bytes entries ++ tail_of (entries_sum entries k) in
    let rounds = suc (length (snapshot_magic ++ body)) in
    let enough : length entries < rounds = omega (
      arith,
      entries_long entries,
      length-append (entries_bytes entries) (tail_of (entries_sum entries k)),
    ) in
    let go = load_after_magic rounds now_ms w in
    ap (λ s. kv_load_snapshot now_ms (some s) w) (snapshot_of_lem saved_at buckets)
    ∙ ap go (read_bytes_lem 8 snapshot_magic body 1 refl)
    ∙ ap (λ b. if b then load_entries rounds now_ms (body, k) w else returned (io, w))
        (str_eq_refl snapshot_magic)
    ∙ load_entries_lem rounds now_ms entries k w h enough
