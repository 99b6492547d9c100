-- ===== src/Rewrite/Merge.antt =====
-- What the rewrite of the log in src/aof.c puts in its place, and what the replay makes of it.
use mini_kv_db_server.Prelude.{
  ℕ, ◌≡◌, ◌⊎◌, refl, ap, sym, ◌∙◌, Option, none, some, List, [], ◌∷◌, ◌++◌, take, All,
}
use mini_kv_db_server.Prelude.Text.{Bytes}
use mini_kv_db_server.Status.{Status, ok, io}
use mini_kv_db_server.World.{World}
use mini_kv_db_server.Table.Types.{Entry}
use mini_kv_db_server.Payload.{Run, returned, use_after_free}
use mini_kv_db_server.Replay.{and_then, replay_aof_log}
use mini_kv_db_server.Replay.Changes.{Change, apply, apply_all, log_of, IsLoggable}
use mini_kv_db_server.Replay.Changes.Log.{and_then_ext, replay_aof_log-log_of}
use mini_kv_db_server.Rewrite.{rewrite_dump}
use mini_kv_db_server.Rewrite.Dump.{dump_changes, log_of-append, rewrite_dump-log_of}

-- How a merge may end; the rewrite is over in any case, and the log is either open with its new text, or as
-- it was, or closed.
abbrev pub Merged : Bytes → World → Status × World → Type 0
Merged content w r =
    (r.1.table ≡ w.table)
    × (r.1.aof.aof_rewrite_pid ≡ 0)
    × (r.1.aof.aof_rewrite_buf_len ≡ 0)
    × (((position : ℕ) × (r.0 ≡ ok)
          × (r.1.aof.aof_fp ≡ some (record { content = content; position = position })))
        ⊎ ((r.0 ≡ io) × ((r.1.aof.aof_fp ≡ w.aof.aof_fp) ⊎ (r.1.aof.aof_fp ≡ none))))

-- What the rewrite buffer holds.
abbrev pub buffered : Option Bytes → ℕ → Bytes
buffered none len = []
buffered (some buf) len = take len buf

and_then_assoc :
    (r : Run World) (f g : World → Run World)
    → and_then r (λ w. and_then (f w) g) ≡ and_then (and_then r f) g
unfolding and_then
and_then_assoc (returned w) f g = refl
and_then_assoc use_after_free f g = refl

apply_all-append :
    (a b : List Change) (now : ℕ) (w : World)
    → apply_all (a ++ b) now w ≡ and_then (apply_all a now w) (apply_all b now)
unfolding apply_all and_then
apply_all-append [] b now w = refl
apply_all-append (c ∷ a) b now w =
    and_then_ext (apply c now w) (apply_all (a ++ b) now)
      (λ x. and_then (apply_all a now x) (apply_all b now)) (apply_all-append a b now)
    ∙ and_then_assoc (apply c now w) (apply_all a now) (apply_all b now)

All-append : (a b : List Change) → All IsLoggable a → All IsLoggable b → All IsLoggable (a ++ b)
All-append [] b h k = k
All-append (c ∷ a) b h k = (h.0, All-append a b h.1 k)

-- The file that a rewrite of the log writes for a table, followed by the records of the changes
-- made meanwhile, is replayed as the changes that make the entries of the table that are not due,
-- lists from their tails on, and then those changes; the texts have to be such that a record can
-- carry them.
pub replay_aof_log-rewrite_dump :
    (now_ms now : ℕ) (buckets : List (List Entry)) (later : List Change) (w : World)
    → All IsLoggable (dump_changes now_ms buckets)
    → All IsLoggable later
    → replay_aof_log (some (rewrite_dump now_ms buckets ++ log_of later)) now w
      ≡ and_then (apply_all (dump_changes now_ms buckets) now w) (apply_all later now)
replay_aof_log-rewrite_dump now_ms now buckets later w h k =
    let changes = dump_changes now_ms buckets in
    ap (λ s. replay_aof_log (some (s ++ log_of later)) now w) (rewrite_dump-log_of now_ms buckets)
    ∙ ap (λ s. replay_aof_log (some s) now w) (sym (log_of-append changes later))
    ∙ replay_aof_log-log_of (changes ++ later) now w (All-append changes later h k)
    ∙ apply_all-append changes later now w
