-- ===== src/Sync/Stream.antt =====
-- The records that a replica reads from its master: the inner loop of `replica_thread_main` of
-- src/replication.c. A chunk is what the connection has for one call of recv, which copies as much of it as
-- the buffer has room for.
use mini_kv_db_server.Prelude.{
  ℕ, zero, suc, ◌+◌, ◌-◌, ◌≤◌, ◌<◌, ◌≡◌, refl, ap, sym, ◌∙◌, Option, ◌==◌, if◌then◌else◌, if_both,
  take, none, some, [], ◌∷◌, ◌++◌, arith, length, length-append, Option-cases, inl, inr,
}
use mathlib.Core.List.{append_assoc}
use mini_kv_db_server.Prelude.Text.{Bytes, bytes}
use mini_kv_db_server.World.{World}
use mini_kv_db_server.CString.{strchr, strip_prefix}
use mini_kv_db_server.Kv.{kv_set_internal, kv_delete_internal}

-- Only SET and DELETE are known; the texts are not checked here.
unfoldable pub stream_line : Bytes → World → World
stream_line p w = elim (strip_prefix (bytes "SET" ++ b'\t' ∷ []) p) [
  | some args ↦ elim (strchr b'\t' args) [
    | none ↦ w
    | some (key, val) ↦ (kv_set_internal (some key) (some val) w).1
  ]
  | none ↦ elim (strip_prefix (bytes "DELETE" ++ b'\t' ∷ []) p) [
    | some key ↦ (kv_delete_internal (some key) w).1
    | none ↦ w
  ]
]

-- strchr for a newline in what is left of the buffer, where it also stops at a NUL: the line before the
-- newline, and the bytes after it.
unfoldable pub next_line : Bytes → Option (Bytes × Bytes)
next_line [] = none
next_line (c ∷ p) =
    let found = next_line p in
    if c == b'\n'
    then some ([], p)
    else if c == 0
    then none
    else elim found [ none ↦ none | some (line, rest) ↦ some (c ∷ line, rest) ]

-- The lines of the buffer, and what is left of it; each round takes a newline away.
unfoldable pub stream_lines : ℕ → Bytes → World → Bytes × World
unfolding stream_line next_line
stream_lines zero p w = (p, w)
stream_lines (suc fuel) p w = elim (next_line p) [
  | none ↦ (p, w)
  | some (line, rest) ↦ stream_lines fuel rest (stream_line line w)
]

-- sizeof(cmdbuf)
abbrev pub cmdbuf_size : ℕ
cmdbuf_size = 4096

-- One call of recv, and the lines that are then in the buffer. The state is what the buffer holds, and the
-- store; it is none after the end of the loop, to which a call leads that gives nothing. That is so at the
-- end of the connection, and where the buffer is full but for the NUL.
unfoldable pub receive : Bytes → Option (Bytes × World) → Option (Bytes × World)
unfolding stream_lines
receive chunk none = none
receive chunk (some (cmdbuf, w)) =
    let given = take (cmdbuf_size - length cmdbuf - 1) chunk in
    let all = cmdbuf ++ given in
    if length given == 0 then none else some (stream_lines (length all) all w)

next_line_shorter :
    (s front back : Bytes) → next_line s ≡ some (front, back) → length back < length s
unfolding next_line
next_line_shorter [] front back h = absurd (ground (arith, h))
next_line_shorter (c ∷ s) front back h = elim (Option-cases (next_line s)) [
  | inl e ↦ ground (arith, h, e)
  | inr (r, e) ↦ let n = next_line_shorter s r.0 r.1 e in ground (arith, h, e, n)
]

next_line_more :
    (s more front back : Bytes)
    → next_line s ≡ some (front, back)
    → next_line (s ++ more) ≡ some (front, back ++ more)
unfolding next_line
next_line_more [] more front back h = absurd (ground (arith, h))
next_line_more (c ∷ s) more front back h = elim (Option-cases (next_line s)) [
  | inl e ↦ ground (arith, h, e)
  | inr (r, e) ↦ let n = next_line_more s more r.0 r.1 e in ground (arith, h, e, n)
]

-- One line of a buffer that has one.
stream_step :
    (fuel : ℕ) (p line rest : Bytes) (w : World)
    → next_line p ≡ some (line, rest)
    → stream_lines (suc fuel) p w ≡ stream_lines fuel rest (stream_line line w)
unfolding stream_lines
stream_step fuel p line rest w e = rw (e, stream_lines) refl

stream_stop :
    (fuel : ℕ) (p : Bytes) (w : World) → next_line p ≡ none → stream_lines fuel p w ≡ (p, w)
unfolding stream_lines
stream_stop zero p w e = refl
stream_stop (suc fuel) p w e = rw (e, stream_lines) refl

-- More fuel than there are bytes changes nothing.
fuel_enough :
    (n m : ℕ) (p : Bytes) (w : World)
    → length p ≤ n
    → length p ≤ m
    → stream_lines n p w ≡ stream_lines m p w
fuel_enough zero m p w hn hm = elim (Option-cases (next_line p)) [
  | inl e ↦ stream_stop zero p w e ∙ sym (stream_stop m p w e)
  | inr (r, e) ↦ absurd (omega (arith, next_line_shorter p r.0 r.1 e, hn))
]
fuel_enough (suc n) zero p w hn hm = elim (Option-cases (next_line p)) [
  | inl e ↦ stream_stop (suc n) p w e ∙ sym (stream_stop zero p w e)
  | inr (r, e) ↦ absurd (omega (arith, next_line_shorter p r.0 r.1 e, hm))
]
fuel_enough (suc n) (suc m) p w hn hm = elim (Option-cases (next_line p)) [
  | inl e ↦ stream_stop (suc n) p w e ∙ sym (stream_stop (suc m) p w e)
  | inr (r, e) ↦
      let lt = next_line_shorter p r.0 r.1 e in
      stream_step n p r.0 r.1 w e
      ∙ fuel_enough n m r.1 (stream_line r.0 w) (omega (arith, lt, hn)) (omega (arith, lt, hm))
      ∙ sym (stream_step m p r.0 r.1 w e)
]

-- What is left is no longer than what was there.
length-stream_lines : (n : ℕ) (p : Bytes) (w : World) → length (stream_lines n p w).0 ≤ length p
length-stream_lines zero p w = unfold stream_lines in omega arith
length-stream_lines (suc n) p w = elim (Option-cases (next_line p)) [
  | inl e ↦ omega (arith, ap (λ (r : Bytes × World). length r.0) (stream_stop (suc n) p w e))
  | inr (r, e) ↦ omega (
    arith,
    ap (λ (x : Bytes × World). length x.0) (stream_step n p r.0 r.1 w e),
    length-stream_lines n r.1 (stream_line r.0 w),
    next_line_shorter p r.0 r.1 e,
  )
]

-- The lines of a first part, and then those that a second part ends.
stream_lines-append :
    (n m : ℕ) (p more : Bytes) (w : World)
    → length p ≤ n
    → length (p ++ more) ≤ m
    → (let r = stream_lines n p w in stream_lines m (r.0 ++ more) r.1)
      ≡ stream_lines m (p ++ more) w
stream_lines-append zero m p more w hn hm =
    ap (λ (r : Bytes × World). stream_lines m (r.0 ++ more) r.1) (unfold stream_lines in refl)
stream_lines-append (suc n) zero p more w hn hm =
    let none_left : length p ≤ 0 = omega (arith, hm, length-append p more) in
    ap (λ (r : Bytes × World). stream_lines zero (r.0 ++ more) r.1)
      (fuel_enough (suc n) zero p w hn none_left ∙ (unfold stream_lines in refl))
stream_lines-append (suc n) (suc m) p more w hn hm = elim (Option-cases (next_line p)) [
  | inl e ↦
      ap (λ (r : Bytes × World). stream_lines (suc m) (r.0 ++ more) r.1) (stream_stop (suc n) p w e)
  | inr (r, e) ↦
      let lt = next_line_shorter p r.0 r.1 e in
      let w₁ = stream_line r.0 w in
      let l = length-append r.1 more in
      let x = stream_lines n r.1 w₁ in
      let left = length-stream_lines n r.1 w₁ in
      let l₁ = length-append x.0 more in
      ap (λ (r : Bytes × World). stream_lines (suc m) (r.0 ++ more) r.1)
        (stream_step n p r.0 r.1 w e)
      ∙ fuel_enough (suc m) m (x.0 ++ more) x.1
          (omega (arith, left, l₁, lt, hm, length-append p more))
          (omega (arith, left, l₁, lt, hm, length-append p more))
      ∙ stream_lines-append n m r.1 more w₁ (omega (arith, lt, hn))
          (omega (arith, lt, hm, l, length-append p more))
      ∙ sym (stream_step m (p ++ more) r.0 (r.1 ++ more) w (next_line_more p more r.0 r.1 e))
]

take_all : (n : ℕ) (s : Bytes) → length s ≤ n → take n s ≡ s
take_all zero [] h = refl
take_all zero (c ∷ s) h = absurd (omega (arith, h))
take_all (suc n) [] h = refl
take_all (suc n) (c ∷ s) h = ap (λ r. c ∷ r) (take_all n s (omega (arith, h)))

-- A chunk for which there is room.
receive_room :
    (chunk cmdbuf : Bytes) (w : World)
    → 0 < length chunk
    → length cmdbuf + length chunk ≤ 4095
    → receive chunk (some (cmdbuf, w))
      ≡ some (stream_lines (length (cmdbuf ++ chunk)) (cmdbuf ++ chunk) w)
unfolding receive
receive_room chunk cmdbuf w some_bytes room =
    let all = take_all (cmdbuf_size - length cmdbuf - 1) chunk (omega (arith, room)) in
    rw (all) (
      if_both (λ r. r ≡ some (stream_lines (length (cmdbuf ++ chunk)) (cmdbuf ++ chunk) w))
        (length chunk == 0) none _ (λ h. absurd (ground (arith, h, some_bytes))) (λ _. refl))

-- If two chunks from its master are not empty and fit, with what the buffer holds, the 4095 bytes
-- that the buffer has beside the NUL, a replica does the same whether they come as one chunk or as
-- two.
pub receive-append :
    (a b cmdbuf : Bytes) (w : World)
    → 0 < length a
    → 0 < length b
    → length cmdbuf + length a + length b ≤ 4095
    → receive b (receive a (some (cmdbuf, w))) ≡ receive (a ++ b) (some (cmdbuf, w))
receive-append a b cmdbuf w ha hb room =
    let all = cmdbuf ++ a in
    let r = stream_lines (length all) all w in
    let m = length (all ++ b) in
    let left = length-stream_lines (length all) all w in
    let before = length-append cmdbuf a in
    let short : length (r.0 ++ b) ≤ m =
      omega (arith, left, length-append r.0 b, length-append all b) in
    ap (receive b) (receive_room a cmdbuf w ha (omega (arith, room)))
    ∙ receive_room b r.0 r.1 hb (omega (arith, room, left, before))
    ∙ ap (λ (x : Bytes × World). some x)
        (fuel_enough (length (r.0 ++ b)) m (r.0 ++ b) r.1 (omega arith) short
          ∙ stream_lines-append (length all) m all b w (omega arith) (omega arith)
          ∙ ap (λ s. stream_lines (length s) s w) (append_assoc cmdbuf a b))
    ∙ sym (
        receive_room (a ++ b) cmdbuf w (omega (arith, length-append a b, ha))
          (omega (arith, length-append a b, room)))
