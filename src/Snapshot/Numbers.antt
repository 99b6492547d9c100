-- ===== src/Snapshot/Numbers.antt =====
-- Numbers and texts as src/snapshot.c writes them, and as it reads them back.
use mathlib.Core.List.{append_assoc}
use mini_kv_db_server.Prelude.{
  ℕ, zero, suc, ◌+◌, ◌*◌, ◌/◌, ◌%◌, ◌^◌, ◌≤◌, ◌<◌, ◌≡◌, ◌≢◌, refl, ap, ◌∙◌, Bool, false, Option,
  none, some, [], ◌∷◌, ◌++◌, arith, length, length-append, take, drop, ltb, if_both, if◌then◌else◌,
  All,
}
use mini_kv_db_server.Prelude.Text.{Bytes}
use mini_kv_db_server.Env.{library_call}
use mini_kv_db_server.World.{World}
use mini_kv_db_server.CString.{c_string}
use mini_kv_db_server.CString.Laws.{c_string-All}
use mini_kv_db_server.Snapshot.{
  adler_sums, adler32, little_endian, write_bytes, write_uint32, write_text,
}
use mini_kv_db_server.Snapshot.Load.{
  Input, read_bytes, from_little_endian, read_number, read_body, read_text,
}

take_front : (s rest : Bytes) → take (length s) (s ++ rest) ≡ s
take_front [] rest = refl
take_front (c ∷ s) rest = ap (λ x. c ∷ x) (take_front s rest)

drop_front : (s rest : Bytes) → drop (length s) (s ++ rest) ≡ rest
drop_front [] rest = refl
drop_front (c ∷ s) rest = drop_front s rest

pub read_bytes_lem :
    (len : ℕ) (s rest : Bytes) (checksum : ℕ)
    → length s ≡ len
    → read_bytes len (s ++ rest, checksum) ≡ some (s, (rest, adler32 checksum s))
unfolding read_bytes
read_bytes_lem len s rest checksum h =
    let enough : ltb (length (s ++ rest)) len ≡ false = ground (arith, h, length-append s rest) in
    rw enough (rw (← h) (rw (take_front s rest, drop_front s rest) refl))

pub length-little_endian : (count v : ℕ) → length (little_endian count v) ≡ count
unfolding little_endian
length-little_endian zero v = refl
length-little_endian (suc count) v = ap suc (length-little_endian count (v / 256))

pub from_little_endian-little_endian :
    (count v : ℕ) → v < 256 ^ count → from_little_endian (little_endian count v) ≡ v
unfolding little_endian from_little_endian
from_little_endian-little_endian zero v h = omega (arith, h)
from_little_endian-little_endian (suc count) v h =
    let pow : 256 ^ suc count ≡ 256 * 256 ^ count = omega arith in
    let rest = from_little_endian-little_endian count (v / 256) (omega (arith, h, pow)) in
    omega (arith, rest)

-- A number that fits in its bytes is read back.
pub read_number_lem :
    (count v : ℕ) (rest : Bytes) (checksum : ℕ)
    → v < 256 ^ count
    → read_number count (little_endian count v ++ rest, checksum)
      ≡ some (v, (rest, adler32 checksum (little_endian count v)))
unfolding read_number
read_number_lem count v rest checksum h =
    let e =
      read_bytes_lem count (little_endian count v) rest checksum (length-little_endian count v) in
    rw (e, read_number)
      (ap (λ n. some (n, (rest, adler32 checksum (little_endian count v))))
        (from_little_endian-little_endian count v h))

-- The sums of a checksum stay below their bound.
sums_small : (s1 s2 : ℕ) (buf : Bytes) → s1 < 65536 → (adler_sums s1 s2 buf).0 < 65536
unfolding adler_sums
sums_small s1 s2 [] h = h
sums_small s1 s2 (b ∷ buf) h =
    sums_small ((s1 + b) % 65521) ((s2 + (s1 + b) % 65521) % 65521) buf (omega arith)

pub adler32_lt : (checksum : ℕ) (buf : Bytes) → adler32 checksum buf < 2 ^ 32
unfolding adler32
adler32_lt checksum buf =
    let s = adler_sums (checksum % 65536) (checksum / 65536 % 65536) buf in
    let h : s.0 < 65536 =
      sums_small (checksum % 65536) (checksum / 65536 % 65536) buf (omega arith) in
    omega (arith, h)

-- The bytes of a text with its length, and the checksum after them.
abbrev pub text_bytes : Bytes → Bytes
text_bytes s = little_endian 4 (length s % 2 ^ 32) ++ s

abbrev pub text_sum : Bytes → ℕ → ℕ
text_sum s k = adler32 (adler32 k (little_endian 4 (length s % 2 ^ 32))) s

pub write_text_lem :
    (s content : Bytes) (k : ℕ)
    → write_text s (content, k) ≡ (content ++ text_bytes s, text_sum s k)
unfolding write_text write_uint32 write_bytes
write_text_lem s content k =
    ap (λ c. (c, text_sum s k)) (append_assoc content (little_endian 4 (length s % 2 ^ 32)) s)

read_body_lem :
    (len : ℕ) (s rest : Bytes) (k : ℕ) (w : World)
    → length s ≡ len
    → All (λ c. c ≢ 0) s
    → read_body len (s ++ rest, k) w ≡ (
      if (library_call w.env).0 then some (s, (rest, adler32 k s)) else none,
      record w { env = (library_call w.env).1 },
    )
unfolding read_body
read_body_lem len s rest k w h z =
    let (given, env) = library_call w.env in
    let w₁ = record w { env = env } in
    let text = λ (o : Option (Bytes × Input)). elim o as (λ _. Option (Bytes × Input)) [
      | none ↦ none
      | some (buf, more) ↦ some (c_string buf, more)
    ] in
    let read : text (read_bytes len (s ++ rest, k)) ≡ some (s, (rest, adler32 k s)) =
      ap text (read_bytes_lem len s rest k h)
      ∙ ap (λ b. some (b, (rest, adler32 k s))) (c_string-All s z) in
    let body : Bool → Option (Bytes × Input) × World =
      λ b. if b then (text (read_bytes len (s ++ rest, k)), w₁) else (none, w₁) in
    if_both (λ o. ◌≡◌ {A = Option (Bytes × Input) × World} (body given) (o, w₁)) given
      (some (s, (rest, adler32 k s))) none (λ e. ap body e ∙ ap (λ o. (o, w₁)) read)
      (λ e. ap body e)

-- A text without a NUL, no longer than is allowed, is read back if malloc gives memory.
pub read_text_lem :
    (max : ℕ) (s rest : Bytes) (k : ℕ) (w : World)
    → length s ≤ max
    → max < 2 ^ 32
    → All (λ c. c ≢ 0) s
    → read_text max (text_bytes s ++ rest, k) w ≡ (
      if (library_call w.env).0 then some (s, (rest, text_sum s k)) else none,
      record w { env = (library_call w.env).1 },
    )
unfolding read_text read_body
read_text_lem max s rest k w h m z =
    let len = length s % 2 ^ 32 in
    let k₁ = adler32 k (little_endian 4 len) in
    let whole : length s ≡ len = omega (arith, h, m) in
    let result = λ (o : Option (ℕ × Input)). elim o as (λ _. Option (Bytes × Input) × World) [
      | none ↦ (none, w)
      | some (n, more) ↦ if ltb max n then (none, w) else read_body n more w
    ] in
    let small : ltb max len ≡ false = ground (arith, h, whole) in
    ap (λ t. result (read_number 4 (t, k))) (append_assoc (little_endian 4 len) s rest)
    ∙ ap result (read_number_lem 4 len (s ++ rest) k (omega arith))
    ∙ ap (λ b. if b then (none, w) else read_body len (s ++ rest, k₁) w) small
    ∙ read_body_lem len s rest k₁ w whole z
