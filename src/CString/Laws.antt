-- ===== src/CString/Laws.antt =====
-- Laws of the C library's string functions.
use mini_kv_db_server.Prelude.{
  ℕ, zero, suc, ◌+◌, ◌-◌, ◌*◌, ◌/◌, ◌%◌, ◌^◌, ◌<◌, ◌≡◌, ◌≢◌, refl, ap, ◌∙◌, true, false, none, some,
  [], ◌∷◌, ◌++◌, ◌==◌, if◌then◌else◌, arith, All, if_both,
}
use mini_kv_db_server.Prelude.Int.{ℤ, pos, negsuc}
use mini_kv_db_server.Prelude.Text.{Bytes}
use mini_kv_db_server.Key.{isspace, has_space}
use mini_kv_db_server.CString.{
  c_string, strchr, isdigit, scan_digits, strtoll, starts_with_digit, clamp_pos, clamp_neg,
}
use mini_kv_db_server.Ttl.{digits, print_int64}

pub c_string-All : (s : Bytes) → All (λ c. c ≢ 0) s → c_string s ≡ s
unfolding c_string
c_string-All [] h = refl
c_string-All (c ∷ s) h = ground (arith, c_string-All s h.1, h.0)

-- The first delimiter ends the first field.
pub strchr-append :
    (d : ℕ) (front back : Bytes)
    → All (λ c. c ≢ d) front
    → strchr d (front ++ d ∷ back) ≡ some (front, back)
unfolding strchr
strchr-append d [] back h = ground arith
strchr-append d (c ∷ front) back h = ground (arith, strchr-append d front back h.1, h.0)

pub strchr-none : (d : ℕ) (s : Bytes) → All (λ c. c ≢ d) s → strchr d s ≡ none
unfolding strchr
strchr-none d [] h = refl
strchr-none d (c ∷ s) h = ground (arith, strchr-none d s h.1, h.0)

-- A text with no white space has no character that is one.
pub has_space-All :
    (s : Bytes) (d : ℕ) → has_space s ≡ false → isspace d ≡ true → All (λ c. c ≢ d) s
unfolding has_space
has_space-All [] d h e = tt
has_space-All (c ∷ s) d h e =
    (λ x. ground (arith, ap isspace x, h, e), has_space-All s d (ground (arith, h)) e)

one_digit :
    (m d : ℕ) (acc : Bytes) → d < 10 → scan_digits m ((d + 48) ∷ acc) ≡ scan_digits (m * 10 + d) acc
unfolding scan_digits isdigit
one_digit m d acc h =
    let e : m * 10 + (d + 48 - 48) ≡ m * 10 + d = omega arith in
    if_both (λ (x : ℕ × Bytes). x ≡ scan_digits (m * 10 + d) acc) (isdigit (d + 48)) _ _
      (λ _. ap (λ x. scan_digits x acc) e) (λ q. absurd (ground (arith, q, h)))

digits_step :
    (fuel n : ℕ) (acc : Bytes)
    → digits (suc fuel) n acc
      ≡ (if n / 10 == 0 then (n % 10 + 48) ∷ acc else digits fuel (n / 10) ((n % 10 + 48) ∷ acc))
unfolding digits
digits_step fuel n acc = refl

-- Reading the digits that are printed before `acc`, and then those of `acc`.
scan_digits-digits :
    (fuel n : ℕ) (acc : Bytes)
    → n < 10 ^ suc fuel
    → scan_digits 0 (digits (suc fuel) n acc) ≡ scan_digits n acc
scan_digits-digits zero n acc h =
    let small : n < 10 = h in
    let e : 0 * 10 + n % 10 ≡ n = omega arith in
    let last : scan_digits 0 ((n % 10 + 48) ∷ acc) ≡ scan_digits n acc =
      one_digit 0 (n % 10) acc (omega arith) ∙ ap (λ x. scan_digits x acc) e in
    rw (digits_step 0 n acc) (
      if_both (λ x. scan_digits 0 x ≡ scan_digits n acc) (n / 10 == 0) _ _ (λ _. last)
        (λ q. absurd (ground (arith, q))))
scan_digits-digits (suc fuel) n acc h =
    let pow : 10 ^ suc (suc fuel) ≡ 10 * 10 ^ suc fuel = omega arith in
    let e : n / 10 * 10 + n % 10 ≡ n = omega arith in
    let next : scan_digits (n / 10) ((n % 10 + 48) ∷ acc) ≡ scan_digits n acc =
      one_digit (n / 10) (n % 10) acc (omega arith) ∙ ap (λ x. scan_digits x acc) e in
    let z : n / 10 ≡ 0 → scan_digits 0 ((n % 10 + 48) ∷ acc) ≡ scan_digits n acc =
      λ q. ap (λ x. scan_digits x ((n % 10 + 48) ∷ acc)) (omega (arith, q)) ∙ next in
    rw (digits_step (suc fuel) n acc) (
      if_both (λ x. scan_digits 0 x ≡ scan_digits n acc) (n / 10 == 0) _ _
        (λ q. z (ground (arith, q)))
        (λ _.
          scan_digits-digits fuel (n / 10) ((n % 10 + 48) ∷ acc) (omega (arith, pow, h)) ∙ next))

digits_done : (n : ℕ) (acc : Bytes) → digits 0 n acc ≡ acc
unfolding digits
digits_done n acc = refl

starts-digits : (fuel n : ℕ) (acc : Bytes) → starts_with_digit (digits (suc fuel) n acc) ≡ true
unfolding starts_with_digit isdigit
starts-digits zero n acc = rw (digits_step 0 n acc) (
    if_both (λ x. starts_with_digit x ≡ true) (n / 10 == 0) _ _ (λ _. ground arith)
      (λ q. rw (digits_done (n / 10) ((n % 10 + 48) ∷ acc)) (ground arith)))
starts-digits (suc fuel) n acc = rw (digits_step (suc fuel) n acc) (
    if_both (λ x. starts_with_digit x ≡ true) (n / 10 == 0) _ _ (λ _. ground arith)
      (λ q. starts-digits fuel (n / 10) _))

-- A digit is neither white space nor a sign.
strtoll_digits :
    (s : Bytes)
    → starts_with_digit s ≡ true
    → (strtoll s ≡ (clamp_pos (scan_digits 0 s).0, (scan_digits 0 s).1))
      × (strtoll (b'-' ∷ s) ≡ (clamp_neg (scan_digits 0 s).0, (scan_digits 0 s).1))
unfolding strtoll isspace starts_with_digit isdigit
strtoll_digits [] h = absurd (ground (arith, h))
strtoll_digits (c ∷ s) h = (ground (arith, h), ground (arith, h))

print_pos : (n : ℕ) → print_int64 (pos n) ≡ digits 20 n []
unfolding print_int64
print_pos n = refl

print_negsuc : (n : ℕ) → print_int64 (negsuc n) ≡ b'-' ∷ digits 20 (n + 1) []
unfolding print_int64
print_negsuc n = refl

scan_end : (n : ℕ) → scan_digits n [] ≡ (n, [])
unfolding scan_digits
scan_end n = refl

-- The values of `int64_t`.
abbrev pub IsInt64 : ℤ → Type 0
IsInt64 (pos n) = n < 2 ^ 63
IsInt64 (negsuc n) = n < 2 ^ 63

-- A 64-bit number is read back from its print.
pub strtoll-print_int64 : (at : ℤ) → IsInt64 at → (strtoll (print_int64 at)).0 ≡ at
strtoll-print_int64 (pos n) h =
    let s = digits 20 n [] in
    let fits : clamp_pos n ≡ pos n = unfold clamp_pos in ground (arith, h) in
    ap (λ s. (strtoll s).0) (print_pos n)
    ∙ ap (λ (r : ℤ × Bytes). r.0) (strtoll_digits s (starts-digits 19 n [])).0
    ∙ ap (λ (r : ℕ × Bytes). clamp_pos r.0)
        (scan_digits-digits 19 n [] (omega (arith, h)) ∙ scan_end n)
    ∙ fits
strtoll-print_int64 (negsuc n) h =
    let s = digits 20 (n + 1) [] in
    let fits : clamp_neg (n + 1) ≡ negsuc n = unfold clamp_neg in ground (arith, h) in
    ap (λ s. (strtoll s).0) (print_negsuc n)
    ∙ ap (λ (r : ℤ × Bytes). r.0) (strtoll_digits s (starts-digits 19 (n + 1) [])).1
    ∙ ap (λ (r : ℕ × Bytes). clamp_neg r.0)
        (scan_digits-digits 19 (n + 1) [] (omega (arith, h)) ∙ scan_end (n + 1))
    ∙ fits
