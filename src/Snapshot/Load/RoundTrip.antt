-- ===== src/Snapshot/Load/RoundTrip.antt =====
-- What `kv_save_internal_unlocked` of src/snapshot.c writes is what `kv_load_snapshot` takes apart.
pub mod Entries
use mathlib.Core.List.{append_assoc, append-nil}
use mini_kv_db_server.Prelude.{
  ℕ, zero, suc, ◌+◌, ◌-◌, ◌%◌, ◌^◌, ◌≤◌, ◌<◌, ◌≡◌, ◌≢◌, refl, ap, sym, ◌∙◌, Bool, true, false, ◌&&◌,
  ◌||◌, not, Option, none, some, List, [], ◌∷◌, ◌++◌, ◌==◌, arith, length, length-append, ltb,
  if_both, if◌then◌else◌, All,
}
use mini_kv_db_server.Prelude.Int.{ℤ, pos, negsuc}
use mini_kv_db_server.Prelude.Text.{Bytes}
use mini_kv_db_server.Key.{max_value_len}
use mini_kv_db_server.Env.{library_call}
use mini_kv_db_server.World.{World}
use mini_kv_db_server.Payload.{Run, returned, use_after_free}
use mini_kv_db_server.Table.Types.{Value, string, list, set_of, Entry}
use mini_kv_db_server.Sets.{members_of}
use mini_kv_db_server.Snapshot.{
  Output, little_endian, adler32, write_bytes, write_uint64, write_uint32, write_text, write_list,
  write_set, write_value, type_byte,
}
use mini_kv_db_server.Snapshot.Numbers.{
  text_bytes, text_sum, write_text_lem, read_text_lem, read_number_lem,
}
use mini_kv_db_server.Snapshot.Load.{
  Input, Loaded, load_failed, read_text, after_element, load_element, bind_loaded, load_elements,
  restore_element,
}

-- From the tail to the head.
abbrev pub backwards : List Bytes → List Bytes
backwards [] = []
backwards (v ∷ nodes) = backwards nodes ++ v ∷ []

write_set-append :
    (a b : List Bytes) (out : Output) → write_set (a ++ b) out ≡ write_set b (write_set a out)
unfolding write_set
write_set-append [] b out = refl
write_set-append (v ∷ a) b out = write_set-append a b (write_text v out)

write_list-backwards :
    (nodes : List Bytes) (out : Output) → write_list nodes out ≡ write_set (backwards nodes) out
unfolding write_list write_set
write_list-backwards [] out = refl
write_list-backwards (v ∷ nodes) out =
    ap (write_text v) (write_list-backwards nodes out)
    ∙ sym (write_set-append (backwards nodes) (v ∷ []) out)

-- The bytes of some texts, and the checksum after them.
abbrev pub texts_bytes : List Bytes → Bytes
texts_bytes [] = []
texts_bytes (v ∷ texts) = text_bytes v ++ texts_bytes texts

abbrev pub texts_sum : List Bytes → ℕ → ℕ
texts_sum [] k = k
texts_sum (v ∷ texts) k = texts_sum texts (text_sum v k)

write_set_lem :
    (texts : List Bytes) (content : Bytes) (k : ℕ)
    → write_set texts (content, k) ≡ (content ++ texts_bytes texts, texts_sum texts k)
unfolding write_set
write_set_lem [] content k = ap (λ c. (c, k)) (sym (append-nil content))
write_set_lem (v ∷ texts) content k =
    ap (write_set texts) (write_text_lem v content k)
    ∙ write_set_lem texts (content ++ text_bytes v) (text_sum v k)
    ∙ ap (λ c. (c, texts_sum texts (text_sum v k)))
        (append_assoc content (text_bytes v) (texts_bytes texts))

-- The elements of a payload in the order of the file, and how many the payload says that it has.
abbrev pub elements : Value → List Bytes
elements (string v) = v ∷ []
elements (list l) = backwards l.nodes
elements (set_of s) = members_of s.buckets

abbrev pub value_bytes : Value → Bytes
value_bytes (string v) = text_bytes v
value_bytes (list l) = little_endian 4 (l.count % 2 ^ 32) ++ texts_bytes (backwards l.nodes)
value_bytes (set_of s) = little_endian 4 (s.count % 2 ^ 32) ++ texts_bytes (members_of s.buckets)

abbrev pub value_sum : Value → ℕ → ℕ
value_sum (string v) k = text_sum v k
value_sum (list l) k =
    texts_sum (backwards l.nodes) (adler32 k (little_endian 4 (l.count % 2 ^ 32)))
value_sum (set_of s) k =
    texts_sum (members_of s.buckets) (adler32 k (little_endian 4 (s.count % 2 ^ 32)))

pub write_value_lem :
    (v : Value) (content : Bytes) (k : ℕ)
    → write_value v (content, k) ≡ (content ++ value_bytes v, value_sum v k)
unfolding write_value write_uint32 write_bytes
write_value_lem (string v) content k = write_text_lem v content k
write_value_lem (list l) content k =
    let head = little_endian 4 (l.count % 2 ^ 32) in
    let texts = backwards l.nodes in
    write_list-backwards l.nodes (content ++ head, adler32 k head)
    ∙ write_set_lem texts (content ++ head) (adler32 k head)
    ∙ ap (λ c. (c, texts_sum texts (adler32 k head)))
        (append_assoc content head (texts_bytes texts))
write_value_lem (set_of s) content k =
    let head = little_endian 4 (s.count % 2 ^ 32) in
    let texts = members_of s.buckets in
    write_set_lem texts (content ++ head) (adler32 k head)
    ∙ ap (λ c. (c, texts_sum texts (adler32 k head)))
        (append_assoc content head (texts_bytes texts))

-- A step of the load, told apart by whether it succeeds.
abbrev pub Restored : Type 0
Restored = Run (Bool × World)

unfoldable pub then_restore : Restored → (World → Restored) → Restored
then_restore (returned (true, w)) next = next w
then_restore (returned (false, w)) next = returned (false, w)
then_restore use_after_free next = use_after_free

unfoldable pub succeed : Run World → Restored
succeed (returned w) = returned (true, w)
succeed use_after_free = use_after_free

-- Memory for one text, and then the step.
unfoldable pub with_memory : (World → Restored) → World → Restored
with_memory next w =
    let (given, env) = library_call w.env in
    let w₁ = record w { env = env } in if given then next w₁ else returned (false, w₁)

unfoldable pub restore_texts : (Bytes → World → Run World) → List Bytes → World → Restored
unfolding then_restore succeed with_memory
restore_texts restore [] w = returned (true, w)
restore_texts restore (v ∷ texts) w =
    with_memory (λ w₁. then_restore (succeed (restore v w₁)) (restore_texts restore texts)) w

-- The state of the file after such a step.
unfoldable pub at_input : Input → Restored → Loaded
at_input input (returned (true, w)) = returned (some input, w)
at_input input (returned (false, w)) = returned (none, w)
at_input input use_after_free = use_after_free

pub bind_loaded-at_input :
    (input end : Input) (r : Restored) (step : Input → World → Loaded) (next : World → Restored)
    → ((w : World) → step input w ≡ at_input end (next w))
    → bind_loaded (at_input input r) step ≡ at_input end (then_restore r next)
unfolding bind_loaded at_input then_restore
bind_loaded-at_input input end (returned (true, w)) step next h = h w
bind_loaded-at_input input end (returned (false, w)) step next h = refl
bind_loaded-at_input input end use_after_free step next h = refl

-- A text that fits and has no NUL.
abbrev pub IsStored : ℕ → Bytes → Type 0
IsStored max s = (length s ≤ max) × All (λ c. c ≢ 0) s
