-- ===== src/Snapshot/Load/File.antt =====
-- The whole of a snapshot file of src/snapshot.c: its entries one after the other, and its end.
use mathlib.Core.List.{append_assoc, append-nil}
use mini_kv_db_server.Prelude.{
  ℕ, ◌≡◌, refl, ap, ap₂, sym, ◌∙◌, not, true, false, List, [], ◌∷◌, ◌++◌, if◌then◌else◌,
}
use mini_kv_db_server.Prelude.Text.{Bytes}
use mini_kv_db_server.Table.Types.{Value, string, list, set_of, Entry}
use mini_kv_db_server.Snapshot.{
  Output, little_endian, adler32, type_byte, to_uint64, write_bytes, write_uint64, write_text,
  write_value, write_chain, write_buckets,
}
use mini_kv_db_server.Snapshot.Numbers.{text_bytes, text_sum, write_text_lem}
use mathlib.Core.Path.{subst}
use mini_kv_db_server.Snapshot.Load.Outcome.{has_passed, is_current-has_passed}
use mini_kv_db_server.Snapshot.Load.RoundTrip.{value_bytes, value_sum, write_value_lem}

-- The bytes of an entry, and the checksum after them.
abbrev pub entry_bytes : Entry → Bytes
entry_bytes e =
    little_endian 8 (to_uint64 e.expire_at_ms)
    ++ (text_bytes e.key ++ ((type_byte e.value ∷ []) ++ value_bytes e.value))

abbrev pub entry_sum : Entry → ℕ → ℕ
entry_sum e k = value_sum e.value (
    adler32 (text_sum e.key (adler32 k (little_endian 8 (to_uint64 e.expire_at_ms))))
      (type_byte e.value ∷ []))

-- The entries whose time has not come.
abbrev pub saved_chain : ℕ → List Entry → List Entry
saved_chain now_ms [] = []
saved_chain now_ms (e ∷ chain) =
    if has_passed e.expire_at_ms now_ms
    then saved_chain now_ms chain
    else e ∷ saved_chain now_ms chain

abbrev pub saved : ℕ → List (List Entry) → List Entry
saved now_ms [] = []
saved now_ms (chain ∷ buckets) = saved_chain now_ms chain ++ saved now_ms buckets

abbrev pub entries_bytes : List Entry → Bytes
entries_bytes [] = []
entries_bytes (e ∷ entries) = entry_bytes e ++ entries_bytes entries

abbrev pub entries_sum : List Entry → ℕ → ℕ
entries_sum [] k = k
entries_sum (e ∷ entries) k = entries_sum entries (entry_sum e k)

pub one_byte : (v : Value) → little_endian 1 (type_byte v) ≡ type_byte v ∷ []
unfolding little_endian type_byte
one_byte (string v) = refl
one_byte (list l) = refl
one_byte (set_of s) = refl

regroup : (a b c d e : Bytes) → (((a ++ b) ++ c) ++ d) ++ e ≡ a ++ (b ++ (c ++ (d ++ e)))
regroup a b c d e = simp append_assoc

write_one :
    (e : Entry) (content : Bytes) (k : ℕ)
    → write_value e.value (
        write_bytes
          (type_byte e.value ∷ [])
          (write_text e.key (write_uint64 (to_uint64 e.expire_at_ms) (content, k))))
      ≡ (content ++ entry_bytes e, entry_sum e k)
unfolding write_uint64 write_bytes
write_one e content k =
    let head = little_endian 8 (to_uint64 e.expire_at_ms) in
    let k₁ = text_sum e.key (adler32 k head) in
    ap (λ out. write_value e.value (write_bytes (type_byte e.value ∷ []) out))
      (write_text_lem e.key (content ++ head) (adler32 k head))
    ∙ write_value_lem e.value (((content ++ head) ++ text_bytes e.key) ++ type_byte e.value ∷ [])
        (adler32 k₁ (type_byte e.value ∷ []))
    ∙ ap (λ c. (c, entry_sum e k))
        (regroup content head (text_bytes e.key) (type_byte e.value ∷ []) (value_bytes e.value))

-- A step that appends the bytes of some entries.
abbrev Appends : (Output → Output) → List Entry → Type 0
Appends f entries =
    (content : Bytes) (k : ℕ)
    → f (content, k) ≡ (content ++ entries_bytes entries, entries_sum entries k)

entries_bytes-append :
    (a b : List Entry) → entries_bytes (a ++ b) ≡ entries_bytes a ++ entries_bytes b
entries_bytes-append [] b = refl
entries_bytes-append (e ∷ a) b =
    ap (λ s. entry_bytes e ++ s) (entries_bytes-append a b)
    ∙ sym (append_assoc (entry_bytes e) (entries_bytes a) (entries_bytes b))

entries_sum-append :
    (a b : List Entry) (k : ℕ) → entries_sum (a ++ b) k ≡ entries_sum b (entries_sum a k)
entries_sum-append [] b k = refl
entries_sum-append (e ∷ a) b k = entries_sum-append a b (entry_sum e k)

-- One step after another.
Appends-append :
    (f g : Output → Output) (a b : List Entry)
    → Appends f a
    → Appends g b
    → Appends (λ out. g (f out)) (a ++ b)
Appends-append f g a b x y content k =
    ap g (x content k)
    ∙ y (content ++ entries_bytes a) (entries_sum a k)
    ∙ ap₂ (λ c n. (c, n))
        (append_assoc content (entries_bytes a) (entries_bytes b)
          ∙ ap (λ s. content ++ s) (sym (entries_bytes-append a b)))
        (sym (entries_sum-append a b k))

Appends-nothing : Appends (λ out. out) []
Appends-nothing content k = ap (λ c. (c, k)) (sym (append-nil content))

Appends-one :
    (e : Entry)
    → Appends
        (λ out. write_value e.value (
          write_bytes
            (type_byte e.value ∷ [])
            (write_text e.key (write_uint64 (to_uint64 e.expire_at_ms) out))))
        (e ∷ [])
Appends-one e content k =
    write_one e content k
    ∙ ap (λ c. (content ++ c, entry_sum e k)) (sym (append-nil (entry_bytes e)))

write_chain-Appends :
    (now_ms : ℕ) (chain : List Entry)
    → Appends (write_chain now_ms chain) (saved_chain now_ms chain)
unfolding write_chain
write_chain-Appends now_ms [] = Appends-nothing
write_chain-Appends now_ms (e ∷ chain) =
    let rest = write_chain-Appends now_ms chain in
    let passed = has_passed e.expire_at_ms now_ms in
    let one = λ (out : Output). write_value e.value (
      write_bytes (type_byte e.value ∷ [])
        (write_text e.key (write_uint64 (to_uint64 e.expire_at_ms) out))) in
    subst
      (λ c.
        Appends (λ out. write_chain now_ms chain (if c then one out else out))
          (saved_chain now_ms (e ∷ chain)))
      (sym (is_current-has_passed e.expire_at_ms now_ms))
      (elim passed
        as (λ b.
          Appends (λ out. write_chain now_ms chain (if not b then one out else out))
            (if b then saved_chain now_ms chain else e ∷ saved_chain now_ms chain)) [
              | true ↦ rest
              | false ↦
                  Appends-append one (write_chain now_ms chain) (e ∷ []) (saved_chain now_ms chain)
                    (Appends-one e) rest
            ])

pub write_buckets-Appends :
    (now_ms : ℕ) (buckets : List (List Entry))
    → Appends (write_buckets now_ms buckets) (saved now_ms buckets)
unfolding write_buckets
write_buckets-Appends now_ms [] = Appends-nothing
write_buckets-Appends now_ms (chain ∷ buckets) =
    Appends-append (write_chain now_ms chain) (write_buckets now_ms buckets)
      (saved_chain now_ms chain) (saved now_ms buckets) (write_chain-Appends now_ms chain)
      (write_buckets-Appends now_ms buckets)
