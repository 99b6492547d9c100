-- ===== src/Snapshot/Load/Outcome/Steps.antt =====
-- The steps of `kv_load_snapshot` of src/snapshot.c are the commands that Snapshot.Load.Outcome names.
use mini_kv_db_server.Prelude.{
  ℕ, zero, suc, ◌^◌, ◌<◌, ◌≡◌, refl, ap, ◌∙◌, Bool, true, false, ◌&&◌, not, some, List, [], ◌∷◌,
  ◌==◌, arith, length, ltb, if_both, if◌then◌else◌,
}
use mini_kv_db_server.Prelude.Int.{pos}
use mini_kv_db_server.Prelude.Text.{Bytes}
use mini_kv_db_server.Status.{is_ok}
use mini_kv_db_server.Env.{library_call}
use mini_kv_db_server.World.{World}
use mini_kv_db_server.Payload.{Reply, Run, returned, use_after_free}
use mini_kv_db_server.Kv.{kv_set}
use mini_kv_db_server.Lists.{kv_lpush}
use mini_kv_db_server.Sets.{kv_sadd, members_of}
use mini_kv_db_server.Ttl.{kv_set_expire_at_ms_internal}
use mini_kv_db_server.Replay.{ignore_reply}
use mini_kv_db_server.Table.Types.{Value, string, list, set_of}
use mini_kv_db_server.Snapshot.{is_current}
use mini_kv_db_server.Snapshot.Load.{to_int64, restore_string, restore_element, set_expiry}
use mini_kv_db_server.Snapshot.Load.RoundTrip.{
  Restored, backwards, then_restore, succeed, with_memory, restore_texts,
}
use mini_kv_db_server.Snapshot.Load.RoundTrip.Entries.{restore_value, restore_elements}
use mini_kv_db_server.Snapshot.Load.Outcome.{
  has_passed, is_current-has_passed, give_expiry, set_string, then_command, add_texts, skip_texts,
  add_elements, add_value, texts_of, take_value,
}

pub with_memory_same :
    (f g : World → Restored) (w : World)
    → ((u : World) → f u ≡ g u)
    → with_memory f w ≡ with_memory g w
unfolding with_memory
with_memory_same f g w h =
    let (given, env) = library_call w.env in
    let w₁ = record w { env = env } in ap (λ r. if given then r else returned (false, w₁)) (h w₁)

then_command_lem :
    (r : Run (Reply × World)) (f g : World → Restored)
    → ((u : World) → f u ≡ g u)
    → then_restore (succeed (ignore_reply r)) f ≡ then_command r g
unfolding then_restore succeed ignore_reply then_command
then_command_lem (returned (reply, w)) f g h = h w
then_command_lem use_after_free f g h = refl

restore_texts-add_texts :
    (restore : Bytes → World → Run World) (command : Bytes → World → Run (Reply × World))
    (texts : List Bytes) (w : World)
    → ((v : Bytes) (u : World) → restore v u ≡ ignore_reply (command v u))
    → restore_texts restore texts w ≡ add_texts command texts w
unfolding restore_texts add_texts
restore_texts-add_texts restore command [] w h = refl
restore_texts-add_texts restore command (v ∷ texts) w h = with_memory_same _ _ w (λ u.
    ap (λ r. then_restore (succeed r) (restore_texts restore texts)) (h v u)
    ∙ then_command_lem (command v u) (restore_texts restore texts) (add_texts command texts)
        (λ x. restore_texts-add_texts restore command texts x h))

restore_texts-skip_texts :
    (restore : Bytes → World → Run World) (texts : List Bytes) (w : World)
    → ((v : Bytes) (u : World) → restore v u ≡ returned u)
    → restore_texts restore texts w ≡ skip_texts texts w
unfolding restore_texts skip_texts
restore_texts-skip_texts restore [] w h = refl
restore_texts-skip_texts restore (v ∷ texts) w h = with_memory_same _ _ w (λ u.
    ap (λ r. then_restore (succeed r) (restore_texts restore texts)) (h v u)
    ∙ (unfold then_restore succeed in restore_texts-skip_texts restore texts u h))

-- A time of `int64_t` comes back from the file.
to_int64_lem : (t : ℕ) → t < 2 ^ 63 → to_int64 t ≡ pos t
unfolding to_int64
to_int64_lem t h = ground (arith, h)

set_expiry-give_expiry :
    (t : ℕ) (key : Bytes) (w : World)
    → t < 2 ^ 63
    → (if not (t == 0) then set_expiry key t w else w) ≡ give_expiry key (pos t) w
unfolding give_expiry
set_expiry-give_expiry zero key w h = refl
set_expiry-give_expiry (suc t) key w h =
    let timed : (suc t == 0) ≡ false = ground arith in
    ap (λ b. if not b then set_expiry key (suc t) w else w) timed
    ∙ ap (λ at. record w { table = kv_set_expire_at_ms_internal key at w.table })
        (to_int64_lem (suc t) h)

restore_string-set_string :
    (t : ℕ) (key val : Bytes) (w : World)
    → t < 2 ^ 63
    → restore_string key t true val w ≡ set_string key (pos t) val w
unfolding restore_string set_string
restore_string-set_string t key val w h =
    let r = kv_set (some key) (some val) w in
    elim (is_ok r.0)
      as (λ b.
        (if b && not (t == 0) then set_expiry key t r.1 else r.1)
        ≡ (if b then give_expiry key (pos t) r.1 else r.1)) [
          | true ↦ set_expiry-give_expiry t key r.1 h
          | false ↦ refl
        ]

-- The tests of the loader on the number that it has read.
valid_passed :
    (t now_ms : ℕ) → t < 2 ^ 63 → is_current (to_int64 t) now_ms ≡ not (has_passed (pos t) now_ms)
valid_passed t now_ms h =
    ap (λ at. is_current at now_ms) (to_int64_lem t h) ∙ is_current-has_passed (pos t) now_ms

-- The elements of a list or a set whose time has not come.
elements_added :
    (t type now_ms : ℕ) (key : Bytes) (command : Bytes → World → Run (Reply × World))
    (texts : List Bytes) (w : World)
    → t < 2 ^ 63
    → is_current (to_int64 t) now_ms ≡ true
    → ((v : Bytes) (u : World)
        → restore_element type key true v now_ms u ≡ ignore_reply (command v u))
    → restore_elements now_ms t key type texts w ≡ add_elements key (pos t) command texts w
unfolding restore_elements add_elements
elements_added t type now_ms key command [] w h valid same =
    ap
      (λ b.
        then_restore (restore_texts (λ val. restore_element type key b val now_ms) [] w)
          (λ u. returned (true, if b && (ltb 0 0 && not (t == 0)) then set_expiry key t u else u)))
      valid
    ∙ (unfold then_restore restore_texts in refl)
elements_added t type now_ms key command (v ∷ texts) w h valid same =
    let all =
      restore_texts-add_texts (λ val. restore_element type key true val now_ms) command (v ∷ texts)
        w same in
    let some_texts : ltb 0 (length (v ∷ texts)) ≡ true = ground arith in
    let finish : Bool → Bool → World → Restored =
      λ b c u. returned (true, if b && (c && not (t == 0)) then set_expiry key t u else u) in
    ap
      (λ b.
        then_restore (restore_texts (λ val. restore_element type key b val now_ms) (v ∷ texts) w)
          (finish b (ltb 0 (length (v ∷ texts)))))
      valid
    ∙ ap
        (λ c.
          then_restore
            (restore_texts (λ val. restore_element type key true val now_ms) (v ∷ texts) w)
            (finish true c))
        some_texts
    ∙ ap (λ r. then_restore r (finish true true)) all
    ∙ ap (then_restore (add_texts command (v ∷ texts) w))
        (λ i u. returned (true, set_expiry-give_expiry t key u h i))

then_restore_end : (r : Restored) → then_restore r (λ u. returned (true, u)) ≡ r
unfolding then_restore
then_restore_end (returned (true, w)) = refl
then_restore_end (returned (false, w)) = refl
then_restore_end use_after_free = refl

-- Those of one whose time has come.
elements_skipped :
    (t type now_ms : ℕ) (key : Bytes) (texts : List Bytes) (w : World)
    → is_current (to_int64 t) now_ms ≡ false
    → restore_elements now_ms t key type texts w ≡ skip_texts texts w
unfolding restore_elements
elements_skipped t type now_ms key texts w valid =
    let all =
      restore_texts-skip_texts (λ val. restore_element type key false val now_ms) texts w
        (λ v u. unfold restore_element in refl) in
    ap
      (λ b.
        then_restore (restore_texts (λ val. restore_element type key b val now_ms) texts w) (λ u.
          returned
            (true, if b && (ltb 0 (length texts) && not (t == 0)) then set_expiry key t u else u)))
      valid
    ∙ ap (λ r. then_restore r (λ u. returned (true, u))) all
    ∙ then_restore_end (skip_texts texts w)

value_skipped :
    (t now_ms : ℕ) (key : Bytes) (v : Value) (w : World)
    → is_current (to_int64 t) now_ms ≡ false
    → restore_value now_ms t key v w ≡ skip_texts (texts_of v) w
unfolding restore_value skip_texts
value_skipped t now_ms key (string v) w valid = with_memory_same _ _ w (λ u.
    ap (λ b. returned (true, restore_string key t b v u)) valid ∙ (unfold restore_string in refl))
value_skipped t now_ms key (list l) w valid =
    elements_skipped t 1 now_ms key (backwards l.nodes) w valid
value_skipped t now_ms key (set_of s) w valid =
    elements_skipped t 2 now_ms key (members_of s.buckets) w valid

value_added :
    (t now_ms : ℕ) (key : Bytes) (v : Value) (w : World)
    → t < 2 ^ 63
    → is_current (to_int64 t) now_ms ≡ true
    → restore_value now_ms t key v w ≡ add_value now_ms (pos t) key v w
unfolding restore_value add_value
value_added t now_ms key (string v) w h valid = with_memory_same _ _ w (λ u.
    ap (λ b. returned (true, restore_string key t b v u)) valid
    ∙ ap (λ x. returned (true, x)) (restore_string-set_string t key v u h))
value_added t now_ms key (list l) w h valid =
    elements_added t 1 now_ms key (λ val. kv_lpush (some key) (some val) now_ms) (backwards l.nodes)
      w h valid (λ v u. unfold restore_element in refl)
value_added t now_ms key (set_of s) w h valid =
    elements_added t 2 now_ms key (λ val. kv_sadd (some key) (some val) now_ms)
      (members_of s.buckets) w h valid (λ v u. unfold restore_element in refl)

-- The payload of an entry, as the loader takes it.
pub restore_value-take_value :
    (t now_ms : ℕ) (key : Bytes) (v : Value) (w : World)
    → t < 2 ^ 63
    → restore_value now_ms t key v w ≡ take_value now_ms (pos t) key v w
unfolding take_value
restore_value-take_value t now_ms key v w h =
    let valid = valid_passed t now_ms h in
    if_both (λ r. restore_value now_ms t key v w ≡ r) (has_passed (pos t) now_ms)
      (skip_texts (texts_of v) w) (add_value now_ms (pos t) key v w)
      (λ e. value_skipped t now_ms key v w (valid ∙ ap not e))
      (λ e. value_added t now_ms key v w h (valid ∙ ap not e))
