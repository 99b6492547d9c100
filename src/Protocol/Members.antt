-- ===== src/Protocol/Members.antt =====
-- The reply of SMEMBERS of src/protocol.c, which is written piece by piece.
use mathlib.Core.List.{append_assoc, append-nil}
use mini_kv_db_server.Prelude.{
  ℕ, zero, suc, ◌+◌, ◌-◌, ◌≤◌, ◌<◌, ◌≡◌, refl, ap, ◌∙◌, Option, none, some, List, [], ◌∷◌, ◌++◌,
  arith, length, length-append, take, ltb, ◌==◌, if_both,
}
use mini_kv_db_server.Prelude.Text.{Bytes}
use mini_kv_db_server.World.{World}
use mini_kv_db_server.Protocol.Replies.{
  Executed, undefined_behaviour, respond, append_formatted, append_members, members_reply,
  member_text, count_text,
}

-- The lengths and the texts of all members, one after the other.
abbrev pub all_members : List Bytes → Bytes
all_members [] = []
all_members (m ∷ members) = member_text m ++ all_members members

abbrev pub whole_reply : List Bytes → Bytes
whole_reply members = count_text (length members) ++ all_members members

length-take : (n : ℕ) (s : Bytes) → n ≤ length s → length (take n s) ≡ n
length-take zero s h = refl
length-take (suc n) [] h = absurd (omega (arith, h))
length-take (suc n) (c ∷ s) h = ap suc (length-take n s (omega (arith, h)))

fits_piece :
    (size : ℕ) (text buf : Bytes)
    → length buf + length text < size
    → append_formatted size text (some buf) ≡ some (buf ++ text)
unfolding append_formatted
fits_piece size text buf h = ground (arith, h)

append_members-fits :
    (size : ℕ) (members : List Bytes) (buf : Bytes)
    → length buf + length (all_members members) < size
    → append_members size members (some buf) ≡ some (buf ++ all_members members)
unfolding append_members
append_members-fits size [] buf h = ap some (simp append-nil)
append_members-fits size (m ∷ members) buf h =
    let text = member_text m in
    let n = length-append text (all_members members) in
    ap (append_members size members) (fits_piece size text buf (omega (arith, h, n)))
    ∙ append_members-fits size members (buf ++ text) (omega (arith, h, n, length-append buf text))
    ∙ ap some (simp append_assoc)

append_members-none : (size : ℕ) (members : List Bytes) → append_members size members none ≡ none
unfolding append_members append_formatted
append_members-none size [] = refl
append_members-none size (m ∷ members) = append_members-none size members

-- A piece that does not fit either fills the buffer to its end or is too long for it.
abbrev Overruns : ℕ → List Bytes → Option Bytes → Type 0
Overruns size members out = append_members size members out ≡ none

-- One piece, if the theorem holds for what comes after it.
piece-Overruns :
    (size : ℕ) (members : List Bytes) (text buf : Bytes)
    → ((b : Bytes)
        → length b ≤ size
        → size < length b + length (all_members members)
        → Overruns size members (some b))
    → 1 ≤ length text
    → size < length buf + (length text + length (all_members members))
    → Overruns size members (append_formatted size text (some buf))
unfolding append_formatted
piece-Overruns size members text buf rest one h =
    let written = length buf + length text in
    let b = length-append buf text in
    let last = take (size - 1) (buf ++ text) ++ 0 ∷ [] in
    if_both (Overruns size members) (ltb written size) (some (buf ++ text)) _
      (λ lt.
        (let l : written < size = ground (arith, lt) in
          rest (buf ++ text) (omega (arith, b, l)) (omega (arith, h, b))))
      (λ ge.
        if_both (Overruns size members) (written == size) (some last) none
          (λ e.
            (let w : written ≡ size = ground (arith, e) in
              let k : length last ≡ size =
                length-append (take (size - 1) (buf ++ text)) (0 ∷ [])
                ∙ ap (λ x. x + 1) (length-take (size - 1) (buf ++ text) (omega (arith, b, w)))
                ∙ omega (arith, w, one) in
              rest last (omega (arith, k)) (omega (arith, h, k, w))))
          (λ _. append_members-none size members))

append_members-Overruns :
    (size : ℕ) (members : List Bytes) (buf : Bytes)
    → length buf ≤ size
    → size < length buf + length (all_members members)
    → Overruns size members (some buf)
unfolding append_members
append_members-Overruns size [] buf le h = absurd (omega (arith, le, h))
append_members-Overruns size (m ∷ members) buf le h =
    let n = length-append (member_text m) (all_members members) in
    piece-Overruns size members (member_text m) buf (append_members-Overruns size members)
      (omega arith) (omega (arith, h, n))

-- The reply of SMEMBERS is the count and the members with their lengths, if that is shorter than
-- the buffer; if it is longer than the buffer, the code leaves the buffer.
pub members_reply_lem :
    (size : ℕ) (members : List Bytes) (w : World)
    → (length (whole_reply members) < size
        → members_reply size (some members, w) ≡ respond (whole_reply members) w)
      × (size < length (whole_reply members)
          → members_reply size (some members, w) ≡ undefined_behaviour)
unfolding members_reply
members_reply_lem size members w =
    let head = count_text (length members) in
    let n = length-append head (all_members members) in
    let result = λ (o : Option Bytes). elim o as (λ _. Executed) [
      | none ↦ undefined_behaviour
      | some text ↦ respond text w
    ] in
    (
      λ h.
          ap (λ o. result (append_members size members o))
            (fits_piece size head [] (omega (arith, h, n)))
          ∙ ap result (append_members-fits size members head (omega (arith, h, n))),
      λ h. ap result (
          piece-Overruns size members head [] (append_members-Overruns size members) (omega arith)
            (omega (arith, h, n))),
    )
