-- ===== src/Snapshot/Load/RoundTrip/Entries.antt =====
-- The entries of a snapshot file of src/snapshot.c, read back one by one.
use mathlib.Core.List.{append_assoc}
use mini_kv_db_server.Prelude.{
  ℕ, ◌%◌, ◌^◌, ◌<◌, ◌≡◌, refl, ap, ◌∙◌, true, false, ◌&&◌, not, Option, none, some, List, [], ◌∷◌,
  ◌++◌, ◌==◌, arith, length, ltb, if_both, if◌then◌else◌, All,
}
use mini_kv_db_server.Prelude.Text.{Bytes}
use mini_kv_db_server.Key.{max_value_len}
use mini_kv_db_server.Env.{library_call}
use mini_kv_db_server.World.{World}
use mini_kv_db_server.Payload.{Run, returned, use_after_free}
use mini_kv_db_server.Table.Types.{Value, string, list, set_of}
use mini_kv_db_server.Sets.{members_of}
use mini_kv_db_server.Snapshot.{little_endian, adler32, type_byte, is_current}
use mini_kv_db_server.Snapshot.Numbers.{text_bytes, text_sum, read_text_lem, read_number_lem}
use mini_kv_db_server.Snapshot.Load.{
  Input, Loaded, load_failed, read_text, read_uint32, to_int64, set_expiry, restore_string,
  restore_element, after_element, load_element, bind_loaded, load_elements, load_string,
  finish_elements, load_value,
}
use mini_kv_db_server.Snapshot.Load.RoundTrip.{
  backwards, texts_bytes, texts_sum, value_bytes, value_sum, Restored, then_restore, succeed,
  with_memory, restore_texts, at_input, bind_loaded-at_input, IsStored,
}

-- Reading a text, whatever is done with it then.
pub memory_step :
    (max : ℕ) (s rest : Bytes) (k : ℕ) (end : Input) (w : World)
    (step : Option (Bytes × Input) × World → Loaded) (next : World → Restored)
    → IsStored max s
    → max < 2 ^ 32
    → ((u : World) → step (none, u) ≡ returned (none, u))
    → ((u : World) → step (some (s, (rest, text_sum s k)), u) ≡ at_input end (next u))
    → step (read_text max (text_bytes s ++ rest, k) w) ≡ at_input end (with_memory next w)
unfolding with_memory at_input
memory_step max s rest k end w step next h m fails goes_on =
    let (given, env) = library_call w.env in
    let w₁ = record w { env = env } in
    let input : Input = (rest, text_sum s k) in
    ap step (read_text_lem max s rest k w h.0 m h.1)
    ∙ if_both (λ r. step (if given then some (s, input) else none, w₁) ≡ at_input end r) given
        (next w₁) (returned (false, w₁))
        (λ e. ap (λ b. step (if b then some (s, input) else none, w₁)) e ∙ goes_on w₁)
        (λ e. ap (λ b. step (if b then some (s, input) else none, w₁)) e ∙ fails w₁)

after_element-at_input :
    (r : Run World) (input : Input) → after_element r input ≡ at_input input (succeed r)
unfolding after_element at_input succeed
after_element-at_input (returned w) input = refl
after_element-at_input use_after_free input = refl

load_elements_lem :
    (restore : Bytes → World → Run World) (texts : List Bytes) (rest : Bytes) (k : ℕ) (w : World)
    → All (IsStored max_value_len) texts
    → load_elements (length texts) restore (texts_bytes texts ++ rest, k) w
      ≡ at_input (rest, texts_sum texts k) (restore_texts restore texts w)
unfolding load_elements restore_texts
load_elements_lem restore [] rest k w h = unfold at_input in refl
load_elements_lem restore (v ∷ texts) rest k w h =
    let more = texts_bytes texts ++ rest in
    let input : Input = (more, text_sum v k) in
    let end : Input = (rest, texts_sum texts (text_sum v k)) in
    let step = λ (r : Option (Bytes × Input) × World).
      bind_loaded (load_element restore r) (load_elements (length texts) restore) in
    ap (λ s. step (read_text max_value_len (s, k) w))
      (append_assoc (text_bytes v) (texts_bytes texts) rest)
    ∙ memory_step max_value_len v more k end w step
        (λ u. then_restore (succeed (restore v u)) (restore_texts restore texts)) h.0 (omega arith)
        (λ u. unfold bind_loaded load_element in refl)
        (λ u.
          (unfold load_element in
            ap (λ r. bind_loaded r (load_elements (length texts) restore))
              (after_element-at_input (restore v u) input))
          ∙ bind_loaded-at_input input end (succeed (restore v u))
              (load_elements (length texts) restore) (restore_texts restore texts)
              (λ x. load_elements_lem restore texts rest (text_sum v k) x h.1))

-- A payload whose texts fit, and whose count is right.
abbrev pub IsStorable : Value → Type 0
IsStorable (string v) = IsStored max_value_len v
IsStorable (list l) =
    All (IsStored max_value_len) (backwards l.nodes)
    × (l.count ≡ length (backwards l.nodes))
    × (l.count < 2 ^ 32)
IsStorable (set_of s) =
    All (IsStored max_value_len) (members_of s.buckets)
    × (s.count ≡ length (members_of s.buckets))
    × (s.count < 2 ^ 32)

-- The elements of a list or a set, and then the expiry if there is an element and a time.
unfoldable pub restore_elements : ℕ → ℕ → Bytes → ℕ → List Bytes → World → Restored
unfolding is_current to_int64 then_restore restore_texts restore_element
restore_elements now_ms expire_at_ms key type texts w =
    let valid = is_current (to_int64 expire_at_ms) now_ms in
    then_restore (restore_texts (λ val. restore_element type key valid val now_ms) texts w) (λ u.
      returned (
        true,
        if valid && (ltb 0 (length texts) && not (expire_at_ms == 0))
            then set_expiry key expire_at_ms u
            else u,
      ))

unfoldable pub restore_value : ℕ → ℕ → Bytes → Value → World → Restored
unfolding is_current to_int64 with_memory restore_string restore_elements
restore_value now_ms expire_at_ms key (string v) w =
    with_memory
      (λ u.
        returned
          (true, restore_string key expire_at_ms (is_current (to_int64 expire_at_ms) now_ms) v u))
      w
restore_value now_ms expire_at_ms key (list l) w =
    restore_elements now_ms expire_at_ms key 1 (backwards l.nodes) w
restore_value now_ms expire_at_ms key (set_of s) w =
    restore_elements now_ms expire_at_ms key 2 (members_of s.buckets) w

-- The branch for a list or a set.
abbrev load_counted : ℕ → ℕ → Bytes → ℕ → World → Option (ℕ × Input) → Loaded
load_counted now_ms expire_at_ms key type w none = load_failed w
load_counted now_ms expire_at_ms key type w (some (count, rest)) =
    let valid = is_current (to_int64 expire_at_ms) now_ms in
    bind_loaded (load_elements count (λ val. restore_element type key valid val now_ms) rest w)
      (finish_elements key expire_at_ms valid count)

load_counted_lem :
    (now_ms expire_at_ms count type : ℕ) (key : Bytes) (texts : List Bytes) (rest : Bytes) (k : ℕ)
    (w : World)
    → All (IsStored max_value_len) texts
    → count ≡ length texts
    → count < 2 ^ 32
    → let head = little_endian 4 (count % 2 ^ 32) in
      load_counted now_ms expire_at_ms key type w
        (read_uint32 ((head ++ texts_bytes texts) ++ rest, k))
      ≡ at_input
          (rest, texts_sum texts (adler32 k head))
          (restore_elements now_ms expire_at_ms key type texts w)
unfolding restore_elements
load_counted_lem now_ms expire_at_ms count type key texts rest k w h e lt =
    let head = little_endian 4 (count % 2 ^ 32) in
    let valid = is_current (to_int64 expire_at_ms) now_ms in
    let k₁ = adler32 k head in
    let input : Input = (texts_bytes texts ++ rest, k₁) in
    let end : Input = (rest, texts_sum texts k₁) in
    let same : count % 2 ^ 32 ≡ length texts = omega (arith, e, lt) in
    let restore : Bytes → World → Run World = λ val. restore_element type key valid val now_ms in
    ap (λ s. load_counted now_ms expire_at_ms key type w (read_uint32 (s, k)))
      (append_assoc head (texts_bytes texts) rest)
    ∙ ap (load_counted now_ms expire_at_ms key type w)
        (read_number_lem 4 (count % 2 ^ 32) (texts_bytes texts ++ rest) k (omega arith))
    ∙ ap (λ n. load_counted now_ms expire_at_ms key type w (some (n, input))) same
    ∙ ap (λ r. bind_loaded r (finish_elements key expire_at_ms valid (length texts)))
        (load_elements_lem restore texts rest k₁ w h)
    ∙ bind_loaded-at_input end end (restore_texts restore texts w)
        (finish_elements key expire_at_ms valid (length texts))
        (λ u. returned (
          true,
          if valid && (ltb 0 (length texts) && not (expire_at_ms == 0))
              then set_expiry key expire_at_ms u
              else u,
        ))
        (λ u. unfold finish_elements at_input in refl)

pub load_value_lem :
    (now_ms expire_at_ms : ℕ) (key : Bytes) (v : Value) (rest : Bytes) (k : ℕ) (w : World)
    → IsStorable v
    → load_value now_ms expire_at_ms key (type_byte v) (value_bytes v ++ rest, k) w
      ≡ at_input (rest, value_sum v k) (restore_value now_ms expire_at_ms key v w)
unfolding load_value restore_value type_byte
load_value_lem now_ms expire_at_ms key (string v) rest k w h =
    let restore = restore_string key expire_at_ms (is_current (to_int64 expire_at_ms) now_ms) in
    memory_step max_value_len v rest k (rest, text_sum v k) w (load_string restore)
      (λ u. returned (true, restore v u)) h (omega arith) (λ u. unfold load_string in refl)
      (λ u. unfold load_string at_input in refl)
load_value_lem now_ms expire_at_ms key (list l) rest k w h =
    load_counted_lem now_ms expire_at_ms l.count 1 key (backwards l.nodes) rest k w h.0 h.1 h.2
load_value_lem now_ms expire_at_ms key (set_of s) rest k w h =
    load_counted_lem now_ms expire_at_ms s.count 2 key (members_of s.buckets) rest k w h.0 h.1 h.2
