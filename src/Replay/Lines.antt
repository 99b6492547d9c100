-- ===== src/Replay/Lines.antt =====
-- Reading a line that a record was written as: `fgets` and `strip_line_endings` of src/aof.c.
use mini_kv_db_server.Prelude.{
  ℕ, zero, suc, ◌<◌, ◌≡◌, ◌≢◌, refl, Bool, true, false, [], ◌∷◌, ◌++◌, if◌then◌else◌, arith, length,
  All,
}
use mini_kv_db_server.Prelude.Text.{Bytes}
use mini_kv_db_server.Replay.{fgets, strip_line_endings, is_line_ending}

-- The text of a line: no NUL and no newline.
abbrev pub IsLine : Bytes → Type 0
IsLine = All (λ c. (c ≢ 0) × (c ≢ b'\n'))

-- The text does not end in a line ending.
abbrev pub ends_well : Bytes → Bool
ends_well [] = true
ends_well (c ∷ []) = if is_line_ending c then false else true
ends_well (c ∷ d ∷ s) = ends_well (d ∷ s)

pub IsLine-append : (a b : Bytes) → IsLine a → IsLine b → IsLine (a ++ b)
IsLine-append [] b h k = k
IsLine-append (c ∷ a) b h k = (h.0, IsLine-append a b h.1 k)

pub ends_well-append :
    (a b : Bytes) → ends_well a ≡ true → ends_well b ≡ true → ends_well (a ++ b) ≡ true
ends_well-append [] b h k = k
ends_well-append (c ∷ []) [] h k = h
ends_well-append (c ∷ []) (d ∷ b) h k = k
ends_well-append (c ∷ d ∷ a) b h k = ends_well-append (d ∷ a) b h k

pub IsLine-zero : (s : Bytes) → IsLine s → All (λ c. c ≢ 0) s
IsLine-zero [] h = tt
IsLine-zero (c ∷ s) h = (h.0.0, IsLine-zero s h.1)

-- A line that fits the buffer is read whole, with its newline.
pub fgets-line :
    (line rest : Bytes) (room : ℕ)
    → IsLine line
    → length line < room
    → fgets room (line ++ b'\n' ∷ rest) ≡ (line ++ b'\n' ∷ [], rest)
unfolding fgets
fgets-line line rest zero h lt = absurd (omega (arith, lt))
fgets-line [] rest (suc room) h lt = refl
fgets-line (c ∷ line) rest (suc room) h lt =
    ground (arith, h.0, fgets-line line rest room h.1 (omega (arith, lt)))

strip_self : (s : Bytes) → ends_well s ≡ true → strip_line_endings s ≡ s
unfolding strip_line_endings
strip_self [] h = refl
strip_self (c ∷ []) h = ground (arith, h)
strip_self (c ∷ d ∷ s) h = ground (arith, strip_self (d ∷ s) h)

-- The newline goes, and nothing else of a text that does not end in a line ending.
pub strip_line_endings-newline :
    (s : Bytes) → ends_well s ≡ true → strip_line_endings (s ++ b'\n' ∷ []) ≡ s
unfolding strip_line_endings
strip_line_endings-newline [] h = refl
strip_line_endings-newline (c ∷ []) h = ground (arith, h)
strip_line_endings-newline (c ∷ d ∷ s) h = ground (arith, strip_line_endings-newline (d ∷ s) h)
