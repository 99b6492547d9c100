-- ===== src/Kv/Rollback.antt =====
-- What a SET or DELETE leaves in the log: `write_aof_record` and `rollback_aof_record` of src/aof.c as
-- `kv_set` and `kv_delete` of src/kv.c call them.
use mini_kv_db_server.Prelude.{
  ℕ, ◌≡◌, refl, ap, sym, ◌∙◌, true, false, Option, none, some, List, ◌++◌, arith, length, take, ltb,
  ◌&&◌, if◌then◌else◌, if_both, Bool-cases, inl, inr,
}
use mini_kv_db_server.Prelude.Text.{Bytes}
use mini_kv_db_server.Status.{Status, ok, is_ok}
use mini_kv_db_server.World.{Stream, Aof, World}
use mini_kv_db_server.Aof.{
  join, record_buf_size, replication_broadcast, write_aof_record, write_stream, rollback_aof_record,
}
use mini_kv_db_server.Aof.Laws.{take-append, write_stream_lem}
use mini_kv_db_server.Kv.{after_record, logged}
use mini_kv_db_server.Kv.Logged.{logged-some}

-- A record that is written follows the text of the log, and its position is the log's.
record Wrote (parts : List Bytes) (fp : Stream) (x : Status × Option ℕ × World) : Type 0 where
  stream : Stream
  open_log : x.2.aof.aof_fp ≡ some stream
  position : x.1 ≡ some fp.position
  content : stream.content ≡ fp.content ++ join parts

write_aof_record-Wrote :
    (parts : List Bytes) (w : World) (fp : Stream)
    → w.aof.aof_fp ≡ some fp
    → (write_aof_record parts w).0 ≡ ok
    → Wrote parts fp (write_aof_record parts w)
unfolding write_aof_record
write_aof_record-Wrote parts w fp h =
    let text = join parts in
    let b =
      (if ltb 0 (length text) && ltb (length text) record_buf_size
        then replication_broadcast text w.replication w.env
        else (w.replication, w.env)) in
    let l = write_stream_lem w.aof.durability_level text fp b.1 in
    rw (h, write_aof_record)
      (if_both (λ (y : Status × Option ℕ × World). y.0 ≡ ok → Wrote parts fp y) b.1.io_fail _ _
        (λ _ s. absurd (ground (arith, s)))
        (λ _ s. record {
          stream = (write_stream w.aof.durability_level text fp b.1).2;
          open_log = refl;
          position = (l.2 s).0;
          content = (l.2 s).1;
        }))

abbrev stream_at : ℕ → Bytes → Option Stream
stream_at pos text = some (record { content = text; position = pos })

cut_at :
    (pos : ℕ) (a : Aof) (fp : Stream)
    → a.aof_fp ≡ some fp
    → (rollback_aof_record (some pos) a).aof_fp ≡ stream_at pos (take pos fp.content)
unfolding rollback_aof_record
cut_at pos a fp h =
    ap
      (λ o.
        (elim o as (λ _. Aof) [
          | none ↦ a
          | some fp ↦ record a {
            aof_fp = some (record { content = take pos fp.content; position = pos });
          }
        ]).aof_fp)
      h
    ∙ refl

rolled_back :
    (parts : List Bytes) (fp : Stream) (a : Aof) (x : Status × Option ℕ × World)
    → Wrote parts fp x
    → a ≡ x.2.aof
    → fp.position ≡ length fp.content
    → (rollback_aof_record x.1 a).aof_fp ≡ some fp
rolled_back parts fp a x o e p =
    let t : take fp.position o.stream.content ≡ fp.content =
      ap (λ n. take n o.stream.content) p
      ∙ ap (take (length fp.content)) o.content
      ∙ take-append fp.content (join parts) in
    ap (λ n. (rollback_aof_record n a).aof_fp) o.position
    ∙ cut_at fp.position a o.stream (ap (λ (a : Aof). a.aof_fp) e ∙ o.open_log)
    ∙ ap (stream_at fp.position) t

-- A change that is refused after its record was written.
after_record_refused :
    (x : Status × Option ℕ × World) (change : World → Status × World)
    → is_ok x.0 ≡ true
    → is_ok (after_record x change).0 ≡ false
    → (is_ok (change x.2).0 ≡ false)
      × ((after_record x change).1.aof ≡ rollback_aof_record x.1 (change x.2).1.aof)
unfolding after_record
after_record_refused x change a b = elim (Bool-cases (is_ok (change x.2).0)) [
  | inl g ↦ absurd (ground (arith, a, b, g))
  | inr g ↦ (g, ground (arith, a, g))
]

-- If the position of an open log is its end, then a change that is refused after its record was written,
-- and that leaves the log alone when it is refused, leaves the log with the text and the position that it had.
pub logged-refused :
    (parts : List Bytes) (change : World → Status × World) (w : World) (fp : Stream)
    → w.aof.aof_fp ≡ some fp
    → fp.position ≡ length fp.content
    → ((m : World) → is_ok (change m).0 ≡ false → (change m).1.aof ≡ m.aof)
    → (write_aof_record parts w).0 ≡ ok
    → is_ok (logged parts change w).0 ≡ false
    → (logged parts change w).1.aof.aof_fp ≡ some fp
logged-refused parts change w fp h p keeps s bad =
    let x = write_aof_record parts w in
    let l : logged parts change w ≡ after_record x change = logged-some parts change w fp h in
    let r =
      after_record_refused x change (ap is_ok s)
        (sym (ap (λ (y : Status × World). is_ok y.0) l) ∙ bad) in
    ap (λ (y : Status × World). y.1.aof.aof_fp) l
    ∙ ap (λ (a : Aof). a.aof_fp) r.1
    ∙ rolled_back parts fp (change x.2).1.aof x (write_aof_record-Wrote parts w fp h s)
        (keeps x.2 r.0) p

-- A refusal that left the log alone.
abbrev KeepsLog : World → Status × World → Type 0
KeepsLog w x = is_ok x.0 ≡ false → x.1.aof ≡ w.aof
