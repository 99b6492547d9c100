-- ===== src/Replay/Changes/RoundTrip.antt =====
-- The replay of a log that consists of records makes the changes that the records stand for.
use mini_kv_db_server.Prelude.{
  ℕ, zero, suc, ◌+◌, ◌≤◌, ◌<◌, ◌/◌, ◌%◌, inl, inr, ◌≡◌, ◌≢◌, refl, ap, ◌∙◌, Bool, true, false, ◌&&◌,
  some, [], ◌∷◌, ◌++◌, ◌==◌, ltb, arith, length, length-append, All, if_both,
}
use mini_kv_db_server.Prelude.Int.{ℤ, pos, negsuc}
use mini_kv_db_server.Prelude.Text.{Bytes}
use mini_kv_db_server.Key.{validate_key, validate_value, isspace, has_space}
use mini_kv_db_server.Key.Laws.{Validated-cases, validate_key_iff, validate_value-valid}
use mini_kv_db_server.World.{World}
use mini_kv_db_server.CString.{c_string}
use mini_kv_db_server.CString.Laws.{strchr-append, strchr-none, has_space-All}
use mini_kv_db_server.Payload.{Run, returned}
use mini_kv_db_server.Ttl.{digits, print_int64}
use mini_kv_db_server.Replay.{
  and_then, is_valid, strip_line_endings, replay_pair, first_field, replay_key, replay_line,
  line_room, replay_text, replay_lines,
}
use mini_kv_db_server.Replay.Lines.{
  IsLine, ends_well, IsLine-append, ends_well-append, IsLine-zero, fgets-line,
  strip_line_endings-newline,
}
use mini_kv_db_server.Replay.Changes.{IsKey, IsText}

pub key_facts :
    (key : Bytes) → IsKey key → (1 ≤ length key) × (length key ≤ 256) × (has_space key ≡ false)
key_facts key h = elim (Validated-cases (validate_key (some key))) [
  | inl (e, x) ↦ absurd (ground (arith, h.0, x))
  | inr (n, x) ↦ let r = (validate_key_iff key n).0 x in (r.0, r.1, r.2)
]

pub value_length : (value : Bytes) → IsText value → length value ≤ 4096
value_length value h = elim (Validated-cases (validate_value (some value))) [
  | inl (e, x) ↦ absurd (ground (arith, h.0, x))
  | inr (n, x) ↦ (validate_value-valid value n x).0
]

pub no_tab : (key : Bytes) → IsKey key → All (λ c. c ≢ b'\t') key
no_tab key h = has_space-All key b'\t' (key_facts key h).2 (unfold isspace in refl)

both : (s : Bytes) → All (λ c. c ≢ 0) s → All (λ c. c ≢ b'\n') s → IsLine s
both [] h k = tt
both (c ∷ s) h k = ((h.0, k.0), both s h.1 k.1)

key-IsLine : (key : Bytes) → IsKey key → IsLine key
key-IsLine key h =
    both key h.1 (has_space-All key b'\n' (key_facts key h).2 (unfold isspace in refl))

-- A text without line endings does not end in one.
ends_well-All : (s : Bytes) → All (λ c. c ≢ b'\n') s → All (λ c. c ≢ b'\r') s → ends_well s ≡ true
ends_well-All [] h k = refl
ends_well-All (c ∷ []) h k = ground (arith, h.0, k.0)
ends_well-All (c ∷ d ∷ s) h k = ends_well-All (d ∷ s) h.1 k.1

ends_well-key : (key : Bytes) → IsKey key → ends_well key ≡ true
ends_well-key key h =
    let s = (key_facts key h).2 in
    ends_well-All key (has_space-All key b'\n' s (unfold isspace in refl))
      (has_space-All key b'\r' s (unfold isspace in refl))

-- The text of a time: a sign and digits.
abbrev IsDigitOrSign : ℕ → Type 0
IsDigitOrSign c = 45 ≤ c

digits-All :
    (fuel n : ℕ) (acc : Bytes) → All IsDigitOrSign acc → All IsDigitOrSign (digits fuel n acc)
unfolding digits
digits-All zero n acc h = h
digits-All (suc fuel) n acc h =
    if_both (All IsDigitOrSign) (n / 10 == 0) _ _ (λ _. (omega arith, h))
      (λ _. digits-All fuel (n / 10) ((n % 10 + 48) ∷ acc) (omega arith, h))

length-digits : (fuel n : ℕ) (acc : Bytes) → length (digits fuel n acc) ≤ fuel + length acc
unfolding digits
length-digits zero n acc = omega arith
length-digits (suc fuel) n acc =
    if_both (λ s. length s ≤ suc fuel + length acc) (n / 10 == 0) ((n % 10 + 48) ∷ acc)
      (digits fuel (n / 10) ((n % 10 + 48) ∷ acc)) (λ _. omega arith)
      (λ _. omega (arith, length-digits fuel (n / 10) ((n % 10 + 48) ∷ acc)))

print-All : (at : ℤ) → All IsDigitOrSign (print_int64 at)
unfolding print_int64
print-All (pos n) = digits-All 20 n [] tt
print-All (negsuc n) = (omega arith, digits-All 20 (n + 1) [] tt)

pub length-print_int64 : (at : ℤ) → length (print_int64 at) ≤ 21
unfolding print_int64
length-print_int64 (pos n) = omega (arith, length-digits 20 n [])
length-print_int64 (negsuc n) = omega (arith, length-digits 20 (n + 1) [])

above : (d : ℕ) (s : Bytes) → d < 45 → All IsDigitOrSign s → All (λ c. c ≢ d) s
above d [] lt h = tt
above d (c ∷ s) lt h = (λ e. omega (arith, e, lt, h.0), above d s lt h.1)

pub print-IsLine : (at : ℤ) → IsLine (print_int64 at) × (ends_well (print_int64 at) ≡ true)
print-IsLine at =
    let a = print-All at in
    (
      both (print_int64 at) (above 0 (print_int64 at) (omega arith) a)
          (above b'\n' (print_int64 at) (omega arith) a),
      ends_well-All (print_int64 at) (above b'\n' (print_int64 at) (omega arith) a)
          (above b'\r' (print_int64 at) (omega arith) a),
    )

-- What a line has to be for the replay to read it whole.
pub record Fits (line : Bytes) : Type 0 where
  text : IsLine line
  ending : ends_well line ≡ true
  short : length line < line_room

abbrev pub pair_line : Bytes → Bytes → Bytes → Bytes
pair_line verb key value = verb ++ (b'\t' ∷ (key ++ (b'\t' ∷ value)))

abbrev pub key_line : Bytes → Bytes → Bytes
key_line verb key = verb ++ (b'\t' ∷ key)

-- A verb is short text.
abbrev pub IsVerb : Bytes → Type 0
IsVerb verb = IsLine verb × (ends_well verb ≡ true) × (length verb ≤ 16)

-- The test of a verb that computes.
abbrev pub upper : Bytes → Bool
upper [] = true
upper (c ∷ s) = ltb 45 c && upper s

upper-All : (s : Bytes) → upper s ≡ true → All IsDigitOrSign s
upper-All [] h = tt
upper-All (c ∷ s) h = (ground (arith, h), upper-All s (ground (arith, h)))

pub upper-IsVerb : (verb : Bytes) → upper verb ≡ true → length verb ≤ 16 → IsVerb verb
upper-IsVerb verb h n =
    let a = upper-All verb h in
    (
      both verb (above 0 verb (omega arith) a) (above b'\n' verb (omega arith) a),
      ends_well-All verb (above b'\n' verb (omega arith) a) (above b'\r' verb (omega arith) a),
      n,
    )

tab_first : (s : Bytes) → ends_well s ≡ true → ends_well (b'\t' ∷ s) ≡ true
tab_first [] h = refl
tab_first (c ∷ s) h = h

pub pair_line-Fits :
    (verb key value : Bytes)
    → IsVerb verb
    → IsKey key
    → IsLine value
    → ends_well value ≡ true
    → length value ≤ 4096
    → Fits (pair_line verb key value)
pair_line-Fits verb key value v k t e n =
    let back = key ++ (b'\t' ∷ value) in
    record {
      text = IsLine-append verb (b'\t' ∷ back) v.0 (
        (omega arith, omega arith),
        IsLine-append key (b'\t' ∷ value) (key-IsLine key k) ((omega arith, omega arith), t),
      );
      ending = ends_well-append verb (b'\t' ∷ back) v.1 (
          tab_first back
            (ends_well-append key (b'\t' ∷ value) (ends_well-key key k) (tab_first value e)));
      short = omega (
        arith,
        length-append verb (b'\t' ∷ back),
        length-append key (b'\t' ∷ value),
        v.2,
        n,
        (key_facts key k).1,
      );
    }

pub key_line-Fits : (verb key : Bytes) → IsVerb verb → IsKey key → Fits (key_line verb key)
key_line-Fits verb key v k = record {
  text = IsLine-append verb (b'\t' ∷ key) v.0 ((omega arith, omega arith), key-IsLine key k);
  ending = ends_well-append verb (b'\t' ∷ key) v.1 (tab_first key (ends_well-key key k));
  short = omega (arith, length-append verb (b'\t' ∷ key), v.2, (key_facts key k).1);
}

c_string-newline : (s : Bytes) → All (λ c. c ≢ 0) s → c_string (s ++ b'\n' ∷ []) ≡ s ++ b'\n' ∷ []
unfolding c_string
c_string-newline [] h = refl
c_string-newline (c ∷ s) h = ground (arith, h.0, c_string-newline s h.1)

-- One round of the loop.
pub replay_one :
    (c : ℕ) (line rest : Bytes) (fuel now : ℕ) (w : World)
    → Fits (c ∷ line)
    → replay_lines (suc fuel) ((c ∷ line) ++ b'\n' ∷ rest) now w
      ≡ and_then (replay_line (c ∷ line) now w) (replay_lines fuel rest now)
unfolding replay_lines replay_text
replay_one c line rest fuel now w f =
    let s = c ∷ line in
    let read = fgets-line s rest line_room f.text f.short in
    let text : strip_line_endings (c_string (s ++ b'\n' ∷ [])) ≡ s =
      ap strip_line_endings (c_string-newline s (IsLine-zero s f.text))
      ∙ strip_line_endings-newline s f.ending in
    ap
      (λ (l : Bytes × Bytes).
        replay_text (replay_lines fuel l.1 now) (strip_line_endings (c_string l.0)) now w)
      read
    ∙ ap (λ t. replay_text (replay_lines fuel rest now) t now w) text

-- The arguments of a record are taken apart as they were put together.
pub replay_pair_lem :
    (command : Bytes → Bytes → World → Run World) (key value : Bytes) (w : World)
    → IsKey key
    → is_valid (validate_value (some value)) ≡ true
    → replay_pair command (b'\t', key ++ b'\t' ∷ value) w ≡ command key value w
unfolding replay_pair
replay_pair_lem command key value w k v =
    rw (strchr-append b'\t' key value (no_tab key k), replay_pair) (ground (arith, k.0, v))

pub replay_key_lem :
    (command : Bytes → World → World) (key : Bytes) (w : World)
    → IsKey key
    → replay_key command (b'\t', key) w ≡ returned (command key w)
unfolding replay_key first_field
replay_key_lem command key w k =
    rw (strchr-none b'\t' key (no_tab key k), first_field) (ground (arith, k.0))
