-- ===== src/CString.antt =====
-- What src/aof.c and src/protocol.c call of the C library's string functions.
pub mod Laws
use mini_kv_db_server.Prelude.{
  ℕ, zero, suc, ◌+◌, ◌-◌, ◌*◌, ◌^◌, Bool, true, false, ◌&&◌, ◌||◌, Option, none, some, List, [],
  ◌∷◌, ◌==◌, leb, ltb, if◌then◌else◌,
}
use mini_kv_db_server.Prelude.Int.{ℤ, pos, negsuc}
use mini_kv_db_server.Prelude.Text.{Bytes}
use mini_kv_db_server.Key.{isspace}

-- The C string that starts a buffer: what stands before its first NUL.
unfoldable pub c_string : Bytes → Bytes
c_string [] = []
c_string (c ∷ buf) = let rest = c_string buf in if c == 0 then [] else c ∷ rest

-- strchr for a character that is not NUL: the text before its first occurrence, and the text behind it.
unfoldable pub strchr : ℕ → Bytes → Option (Bytes × Bytes)
strchr d [] = none
strchr d (c ∷ s) =
    let rest = strchr d s in
    if c == d
    then some ([], s)
    else elim rest [ none ↦ none | some (front, back) ↦ some (c ∷ front, back) ]

-- strncmp(s, prefix, strlen(prefix)) == 0: the text behind the prefix.
unfoldable pub strip_prefix : Bytes → Bytes → Option Bytes
strip_prefix [] s = some s
strip_prefix (p ∷ prefix) [] = none
strip_prefix (p ∷ prefix) (c ∷ s) = if p == c then strip_prefix prefix s else none

unfoldable pub isdigit : ℕ → Bool
isdigit c = leb 48 c && leb c 57

unfoldable pub skip_space : Bytes → Bytes
skip_space [] = []
skip_space (c ∷ s) = if isspace c then skip_space s else c ∷ s

-- The digits that follow: the number with them, and what is left.
unfoldable pub scan_digits : ℕ → Bytes → ℕ × Bytes
scan_digits n [] = (n, [])
scan_digits n (c ∷ s) =
    let rest = scan_digits (n * 10 + (c - 48)) s in if isdigit c then rest else (n, c ∷ s)

unfoldable pub starts_with_digit : Bytes → Bool
starts_with_digit [] = false
starts_with_digit (c ∷ s) = isdigit c

-- The bounds of `long long`.
unfoldable pub clamp_pos : ℕ → ℤ
clamp_pos n = pos (if ltb (2 ^ 63 - 1) n then 2 ^ 63 - 1 else n)

unfoldable pub clamp_neg : ℕ → ℤ
clamp_neg zero = pos 0
clamp_neg (suc n) = negsuc (if ltb (2 ^ 63 - 1) n then 2 ^ 63 - 1 else n)

-- The sign, and the text behind it.
unfoldable pub sign : Bytes → Bool × Bytes
sign [] = (false, [])
sign (c ∷ s) = if c == b'-' then (true, s) else if c == b'+' then (false, s) else (false, c ∷ s)

-- strtoll in base ten: the value and the text at `endptr`, which is the whole text if it has no number.
unfoldable pub strtoll : Bytes → ℤ × Bytes
unfolding skip_space scan_digits starts_with_digit clamp_pos clamp_neg sign isdigit
strtoll s =
    let (negative, rest) = sign (skip_space s) in
    if starts_with_digit rest
    then (let (n, end) = scan_digits 0 rest in (if negative then clamp_neg n else clamp_pos n, end))
    else (pos 0, s)
