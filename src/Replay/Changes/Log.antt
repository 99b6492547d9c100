-- ===== src/Replay/Changes/Log.antt =====
-- The replay of a log that consists of records makes the changes that the records stand for.
use mathlib.Core.List.{append_assoc}
use mini_kv_db_server.Prelude.{
  ℕ, zero, suc, ◌≤◌, ◌≡◌, refl, ap, ◌∙◌, some, List, [], ◌∷◌, ◌++◌, arith, length, length-append,
  All,
}
use mini_kv_db_server.Prelude.Int.{ℤ}
use mini_kv_db_server.Prelude.Text.{Bytes, bytes}
use mini_kv_db_server.World.{World}
use mini_kv_db_server.Aof.{join}
use mini_kv_db_server.CString.{strip_prefix}
use mini_kv_db_server.CString.Laws.{strchr-append, strtoll-print_int64, IsInt64}
use mini_kv_db_server.Kv.{kv_set_internal, kv_delete_internal}
use mini_kv_db_server.Lists.{kv_lpush, kv_rpop}
use mini_kv_db_server.Sets.{kv_sadd, kv_srem}
use mini_kv_db_server.Payload.{Run, returned, use_after_free}
use mini_kv_db_server.Ttl.{print_int64, kv_set_expire_at_ms_internal}
use mini_kv_db_server.Replay.{
  ignore_reply, and_then, after_verb, replay_expiry, replay_set, replay_delete, replay_lpush,
  replay_rpop, replay_sadd, replay_srem, replay_line, replay_lines, replay_aof_log,
}
use mini_kv_db_server.Replay.Changes.{
  Change, set, lpush, sadd, srem, delete, rpop, expire_at, parts_of, apply, apply_all, log_of,
  IsKey, IsLoggable,
}
use mini_kv_db_server.Replay.Changes.RoundTrip.{
  upper-IsVerb, Fits, pair_line, key_line, pair_line-Fits, key_line-Fits, no_tab, value_length,
  length-print_int64, print-IsLine, replay_one, replay_pair_lem, replay_key_lem,
}

-- The line of a record.
abbrev line_of : Change → Bytes
line_of (set key value) = pair_line (bytes "SET") key value
line_of (lpush key value) = pair_line (bytes "LPUSH") key value
line_of (sadd key value) = pair_line (bytes "SADD") key value
line_of (srem key value) = pair_line (bytes "SREM") key value
line_of (delete key) = key_line (bytes "DELETE") key
line_of (rpop key) = key_line (bytes "RPOP") key
line_of (expire_at key at) = pair_line (bytes "PEXPIREAT") key (print_int64 at)

replay_expiry_lem :
    (key : Bytes) (at : ℤ) (w : World)
    → IsKey key
    → IsInt64 at
    → replay_expiry (b'\t', key ++ b'\t' ∷ print_int64 at) w
      ≡ returned (record w { table = kv_set_expire_at_ms_internal key at w.table })
unfolding replay_expiry
replay_expiry_lem key at w k h =
    rw (strchr-append b'\t' key (print_int64 at) (no_tab key k), replay_expiry)
      (ground (arith, k.0, strtoll-print_int64 at h))

-- The verb of a line selects its branch.
replay_line_lem :
    (c : Change) (now : ℕ) (w : World)
    → IsLoggable c
    → replay_line (line_of c) now w ≡ apply c now w
unfolding replay_line after_verb strip_prefix replay_set replay_delete replay_lpush replay_rpop
    replay_sadd replay_srem
replay_line_lem (set key value) now w h =
    replay_pair_lem (λ key val w. returned (kv_set_internal (some key) (some val) w).1) key value w
      h.0 h.1.0
replay_line_lem (lpush key value) now w h =
    replay_pair_lem (λ key val w. ignore_reply (kv_lpush (some key) (some val) now w)) key value w
      h.0 h.1.0
replay_line_lem (sadd key value) now w h =
    replay_pair_lem (λ key val w. ignore_reply (kv_sadd (some key) (some val) now w)) key value w
      h.0 h.1.0
replay_line_lem (srem key value) now w h =
    replay_pair_lem (λ key val w. returned (kv_srem (some key) (some val) now w).1) key value w h.0
      h.1.0
replay_line_lem (delete key) now w h =
    replay_key_lem (λ key w. (kv_delete_internal (some key) w).1) key w h
replay_line_lem (rpop key) now w h = replay_key_lem (λ key w. (kv_rpop (some key) now w).2) key w h
replay_line_lem (expire_at key at) now w h = replay_expiry_lem key at w h.0 h.1

-- A record is its line with a newline.
join_pair :
    (verb key value : Bytes)
    → join ((verb ++ b'\t' ∷ []) ∷ key ∷ (b'\t' ∷ []) ∷ value ∷ (b'\n' ∷ []) ∷ [])
      ≡ pair_line verb key value ++ b'\n' ∷ []
unfolding join
join_pair verb key value = simp append_assoc

join_key :
    (verb key : Bytes)
    → join ((verb ++ b'\t' ∷ []) ∷ key ∷ (b'\n' ∷ []) ∷ []) ≡ key_line verb key ++ b'\n' ∷ []
unfolding join
join_key verb key = simp append_assoc

join-line_of : (c : Change) → join (parts_of c) ≡ line_of c ++ b'\n' ∷ []
join-line_of (set key value) = join_pair (bytes "SET") key value
join-line_of (lpush key value) = join_pair (bytes "LPUSH") key value
join-line_of (sadd key value) = join_pair (bytes "SADD") key value
join-line_of (srem key value) = join_pair (bytes "SREM") key value
join-line_of (delete key) = join_key (bytes "DELETE") key
join-line_of (rpop key) = join_key (bytes "RPOP") key
join-line_of (expire_at key at) = join_pair (bytes "PEXPIREAT") key (print_int64 at)

line-Fits : (c : Change) → IsLoggable c → Fits (line_of c)
line-Fits (set key value) (k, v) =
    pair_line-Fits (bytes "SET") key value (upper-IsVerb (bytes "SET") refl (omega arith)) k v.1 v.2
      (value_length value v)
line-Fits (lpush key value) (k, v) =
    pair_line-Fits (bytes "LPUSH") key value (upper-IsVerb (bytes "LPUSH") refl (omega arith)) k v.1
      v.2 (value_length value v)
line-Fits (sadd key value) (k, v) =
    pair_line-Fits (bytes "SADD") key value (upper-IsVerb (bytes "SADD") refl (omega arith)) k v.1
      v.2 (value_length value v)
line-Fits (srem key value) (k, v) =
    pair_line-Fits (bytes "SREM") key value (upper-IsVerb (bytes "SREM") refl (omega arith)) k v.1
      v.2 (value_length value v)
line-Fits (delete key) k =
    key_line-Fits (bytes "DELETE") key (upper-IsVerb (bytes "DELETE") refl (omega arith)) k
line-Fits (rpop key) k =
    key_line-Fits (bytes "RPOP") key (upper-IsVerb (bytes "RPOP") refl (omega arith)) k
line-Fits (expire_at key at) (k, h) =
    let p = print-IsLine at in
    pair_line-Fits (bytes "PEXPIREAT") key (print_int64 at)
      (upper-IsVerb (bytes "PEXPIREAT") refl (omega arith)) k p.0 p.1
      (omega (arith, length-print_int64 at))

-- A round for a line that is known to have a first character.
replay_round :
    (line rest : Bytes) (fuel now : ℕ) (w : World)
    → Fits line
    → 1 ≤ length line
    → replay_lines (suc fuel) (line ++ b'\n' ∷ rest) now w
      ≡ and_then (replay_line line now w) (replay_lines fuel rest now)
replay_round [] rest fuel now w f h = absurd (omega (arith, h))
replay_round (c ∷ line) rest fuel now w f h = replay_one c line rest fuel now w f

line_starts : (c : Change) → 1 ≤ length (line_of c)
line_starts (set key value) = omega arith
line_starts (lpush key value) = omega arith
line_starts (sadd key value) = omega arith
line_starts (srem key value) = omega arith
line_starts (delete key) = omega arith
line_starts (rpop key) = omega arith
line_starts (expire_at key at) = omega arith

log_step :
    (c : Change) (changes : List Change)
    → log_of (c ∷ changes) ≡ line_of c ++ b'\n' ∷ log_of changes
unfolding log_of
log_step c changes = ap (λ s. s ++ log_of changes) (join-line_of c) ∙ simp append_assoc

pub and_then_ext :
    (r : Run World) (f g : World → Run World)
    → ((w : World) → f w ≡ g w)
    → and_then r f ≡ and_then r g
unfolding and_then
and_then_ext (returned w) f g h = h w
and_then_ext use_after_free f g h = refl

nothing_left : (fuel now : ℕ) (w : World) → replay_lines fuel (log_of []) now w ≡ returned w
unfolding replay_lines log_of
nothing_left zero now w = refl
nothing_left (suc fuel) now w = refl

replay_lines-log_of :
    (changes : List Change) (fuel now : ℕ) (w : World)
    → All IsLoggable changes
    → length (log_of changes) ≤ fuel
    → replay_lines fuel (log_of changes) now w ≡ apply_all changes now w
unfolding apply_all
replay_lines-log_of [] fuel now w h n = nothing_left fuel now w
replay_lines-log_of (c ∷ changes) zero now w h n = absurd (
    omega (
      arith,
      n,
      ap length (log_step c changes),
      length-append (line_of c) (b'\n' ∷ log_of changes),
    ))
replay_lines-log_of (c ∷ changes) (suc fuel) now w h n =
    let split = log_step c changes in
    let enough : length (log_of changes) ≤ fuel =
      omega (arith, n, ap length split, length-append (line_of c) (b'\n' ∷ log_of changes)) in
    ap (λ s. replay_lines (suc fuel) s now w) split
    ∙ replay_round (line_of c) (log_of changes) fuel now w (line-Fits c h.0) (line_starts c)
    ∙ ap (λ r. and_then r (replay_lines fuel (log_of changes) now)) (replay_line_lem c now w h.0)
    ∙ and_then_ext (apply c now w) (replay_lines fuel (log_of changes) now) (apply_all changes now)
        (λ w₁. replay_lines-log_of changes fuel now w₁ h.1 enough)

-- The replay of a log that consists of the records of some changes makes these changes in their
-- order, if their keys and values pass their checks, no value has a newline or ends in a carriage
-- return, no text has a NUL, and the times are 64-bit numbers.
pub replay_aof_log-log_of :
    (changes : List Change) (now : ℕ) (w : World)
    → All IsLoggable changes
    → replay_aof_log (some (log_of changes)) now w ≡ apply_all changes now w
unfolding replay_aof_log
replay_aof_log-log_of changes now w h =
    replay_lines-log_of changes (length (log_of changes)) now w h (omega arith)
