-- ===== src/Key.antt =====
-- The checks on keys and values of src/kv.c, and its hash.
pub mod Laws
use Prim.Native.Nat.{bit_xor}
use mini_kv_db_server.Prelude.{
  ℕ, zero, suc, ◌+◌, ◌*◌, ◌%◌, ◌^◌, Bool, true, false, ◌||◌, ◌&&◌, Option, none, some, List, [],
  ◌∷◌, ◌==◌, leb, ltb, if◌then◌else◌,
}
use mini_kv_db_server.Prelude.Text.{Bytes}
use mini_kv_db_server.Status.{
  Status, invalid_param, key_too_long, val_too_long, empty_key, key_whitespace,
}
use mini_kv_db_server.Env.{Env, tracked_malloc}

abbrev pub max_key_len : ℕ
max_key_len = 256

abbrev pub max_value_len : ℕ
max_value_len = 4096

strlen_from : ℕ → ℕ → Bytes → ℕ
strlen_from len max_len [] = len
strlen_from len max_len (c ∷ str) =
    if leb len max_len then strlen_from (len + 1) max_len str else len

unfoldable pub bounded_strlen : Bytes → ℕ → ℕ
unfolding strlen_from
bounded_strlen str max_len = strlen_from 0 max_len str

-- isspace in the C locale.
unfoldable pub isspace : ℕ → Bool
isspace c = c == b' ' || (leb 9 c && leb c 13)

unfoldable pub has_space : Bytes → Bool
unfolding isspace
has_space [] = false
has_space (c ∷ key) = isspace c || has_space key

-- KV_OK with the length that goes to `out_len`, or the error.
pub data Validated : Type 0 where
  valid : ℕ → Validated
  invalid : Status → Validated

unfoldable pub validate_key : Option Bytes → Validated
validate_key none = invalid invalid_param
validate_key (some key) =
    let len = bounded_strlen key max_key_len in
    if len == 0
    then invalid empty_key
    else if ltb max_key_len len
    then invalid key_too_long
    else if has_space key
    then invalid key_whitespace
    else valid len

unfoldable pub validate_value : Option Bytes → Validated
validate_value none = invalid invalid_param
validate_value (some value) =
    let len = bounded_strlen value max_value_len in
    if ltb max_value_len len then invalid val_too_long else valid len

-- FNV-1a over 64 bits.
unfoldable pub fnv : ℕ → Bytes → ℕ
fnv hash [] = hash
fnv hash (c ∷ key) = fnv ((bit_xor hash c * 1099511628211) % 2 ^ 64) key

unfoldable pub hash_key : Bytes → ℕ → ℕ
unfolding fnv
hash_key key bucket_count = fnv 1469598103934665603 key % bucket_count

-- The copy has the same bytes; the flag says whether there is one.
unfoldable pub copy_string_bounded : Bytes → ℕ → Env → Bool × Env
copy_string_bounded src max_len env =
    if ltb max_len (bounded_strlen src max_len) then (false, env) else tracked_malloc env
