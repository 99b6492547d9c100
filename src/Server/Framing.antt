-- ===== src/Server/Framing.antt =====
-- The requests that `client_handle_read` of src/server.c takes out of what a client sends.
use mathlib.Core.List.{append_assoc, append-nil}
use mathlib.Core.Path.{subst}
use mini_kv_db_server.Prelude.{
  ℕ, zero, suc, ◌≤◌, ◌<◌, ◌≡◌, ◌≢◌, refl, ap, sym, ◌∙◌, Bool, true, false, ◌&&◌, not, Option, none,
  some, List, [], ◌∷◌, ◌++◌, ◌==◌, arith, length, length-append, ltb, if_both, if◌then◌else◌, All,
}
use mini_kv_db_server.Prelude.Text.{Bytes}
use mini_kv_db_server.Status.{is_ok}
use mini_kv_db_server.Env.{Env, library_call, take_outcome}
use mini_kv_db_server.CString.{strchr}
use mini_kv_db_server.CString.Laws.{strchr-append, strchr-none}
use mini_kv_db_server.ThreadPool.{thread_pool_submit}
use mini_kv_db_server.Server.{
  Serving, server_read_buf_size, server_max_line_len, receive_all, strip_cr, submit_client, enqueue,
  split_lines, client_handle_read,
}

-- A request has no newline, and fits in a line with its carriage return.
abbrev pub IsRequest : Bytes → Type 0
IsRequest r = All (λ c. c ≢ b'\n') r × (length r < server_max_line_len)

-- Requests as a client sends them.
abbrev pub lines_of : List Bytes → Bytes
lines_of [] = []
lines_of (r ∷ requests) = (r ++ b'\r' ∷ []) ++ b'\n' ∷ lines_of requests

abbrev pub concat : List Bytes → Bytes
concat [] = []
concat (c ∷ chunks) = c ++ concat chunks

strip_cr_lem : (r : Bytes) → strip_cr (r ++ b'\r' ∷ []) ≡ r
unfolding strip_cr
strip_cr_lem [] = refl
strip_cr_lem (c ∷ []) = refl
strip_cr_lem (c ∷ d ∷ r) = ap (λ s. c ∷ s) (strip_cr_lem (d ∷ r))

no_newline : (r : Bytes) → All (λ c. c ≢ b'\n') r → All (λ c. c ≢ b'\n') (r ++ b'\r' ∷ [])
no_newline [] h = (omega arith, tt)
no_newline (c ∷ r) h = (h.0, no_newline r h.1)

-- What a submission leaves alone.
record Same (s t : Serving) : Type 0 where
  buf : t.client.read_buf ≡ s.client.read_buf
  queue : t.client.cmd_queue ≡ s.client.cmd_queue
  outcomes : t.env.outcomes ≡ s.env.outcomes

submit-Same : (s : Serving) → Same s (submit_client s)
unfolding submit_client
submit-Same s =
    if_both (Same s) (not s.client.task_in_flight && not s.client.closed) _ s
      (λ _.
        if_both (Same s) (is_ok (thread_pool_submit (some s.client.fd) s.pool).0) _ _
          (λ _. record { buf = refl; queue = refl; outcomes = refl })
          (λ _. record { buf = refl; queue = refl; outcomes = refl }))
      (λ _. record { buf = refl; queue = refl; outcomes = refl })

enqueue-Same :
    (command rest : Bytes) (s : Serving)
    → Same
        (record s {
          client = record s.client {
            read_buf = rest;
            cmd_queue = s.client.cmd_queue ++ command ∷ [];
          };
        })
        (enqueue command rest s)
unfolding enqueue
enqueue-Same command rest s = submit-Same (record s {
  client = record s.client { read_buf = rest; cmd_queue = s.client.cmd_queue ++ command ∷ [] };
})

-- A call succeeds if no failure is to come.
call_given : (env : Env) → env.outcomes ≡ [] → (library_call env).0 ≡ true
unfolding library_call take_outcome
call_given env h = rw h refl

call_outcomes : (env : Env) → env.outcomes ≡ [] → (library_call env).1.outcomes ≡ []
unfolding library_call take_outcome
call_outcomes env h = rw h refl

abbrev pub Queued : List Bytes → Bytes → Serving → Bool × Serving → Type 0
Queued requests rest s r =
    (r.0 ≡ true)
    × (r.1.client.read_buf ≡ rest)
    × (r.1.client.cmd_queue ≡ s.client.cmd_queue ++ requests)

-- A round, with what strchr has found.
abbrev round : ℕ → Serving → Option (Bytes × Bytes) → Bool × Serving
round fuel s none = (ltb (length s.client.read_buf) server_max_line_len, s)
round fuel s (some (line, rest)) =
    if ltb server_max_line_len (length line)
    then (false, s)
    else if (library_call s.env).0
    then split_lines fuel (enqueue (strip_cr line) rest (record s { env = (library_call s.env).1 }))
    else (false, record s { env = (library_call s.env).1 })

round_lem :
    (fuel : ℕ) (s : Serving)
    → split_lines (suc fuel) s ≡ round fuel s (strchr b'\n' s.client.read_buf)
unfolding split_lines
round_lem fuel s =
    elim (strchr b'\n' s.client.read_buf)
      as (λ o.
        (elim o as (λ _. Bool × Serving) [
          | none ↦ (ltb (length s.client.read_buf) server_max_line_len, s)
          | some (line, rest) ↦
              if ltb server_max_line_len (length line)
              then (false, s)
              else let (given, env) = library_call s.env in
                let s₁ = record s { env = env } in
                if given then split_lines fuel (enqueue (strip_cr line) rest s₁) else (false, s₁)
        ])
        ≡ round fuel s o) [ none ↦ refl | some x ↦ refl ]

split_lines-Queued :
    (fuel : ℕ) (requests : List Bytes) (rest : Bytes) (s : Serving)
    → s.client.read_buf ≡ lines_of requests ++ rest
    → s.env.outcomes ≡ []
    → All IsRequest requests
    → All (λ c. c ≢ b'\n') rest
    → length rest < server_max_line_len
    → length requests < fuel
    → Queued requests rest s (split_lines fuel s)
split_lines-Queued zero requests rest s b o h n l f = absurd (omega (arith, f))
split_lines-Queued (suc fuel) [] rest s b o h n l f =
    let e : split_lines (suc fuel) s ≡ (ltb (length s.client.read_buf) server_max_line_len, s) =
      round_lem fuel s ∙ ap (round fuel s) (ap (strchr b'\n') b ∙ strchr-none b'\n' rest n) in
    subst (Queued [] rest s) (sym e)
      (ground (arith, ap length b, l), b, sym (append-nil s.client.cmd_queue))
split_lines-Queued (suc fuel) (r ∷ requests) rest s b o h n l f =
    let line = r ++ b'\r' ∷ [] in
    let more = lines_of requests ++ rest in
    let s₁ = record s { env = (library_call s.env).1 } in
    let s₂ = enqueue r more s₁ in
    let found : strchr b'\n' s.client.read_buf ≡ some (line, more) =
      ap (strchr b'\n') (b ∙ append_assoc line (b'\n' ∷ lines_of requests) rest)
      ∙ strchr-append b'\n' line more (no_newline r h.0.0) in
    let short : ltb server_max_line_len (length line) ≡ false =
      ground (arith, h.0.1, length-append r (b'\r' ∷ [])) in
    let step : Bool → Bool × Serving =
      λ b. if b then split_lines fuel (enqueue (strip_cr line) more s₁) else (false, s₁) in
    let e : split_lines (suc fuel) s ≡ split_lines fuel s₂ =
      round_lem fuel s
      ∙ ap (round fuel s) found
      ∙ ap (λ b. if b then (false, s) else step (library_call s.env).0) short
      ∙ ap step (call_given s.env o)
      ∙ ap (λ c. split_lines fuel (enqueue c more s₁)) (strip_cr_lem r) in
    let same = enqueue-Same r more s₁ in
    let i =
      split_lines-Queued fuel requests rest s₂ same.buf (same.outcomes ∙ call_outcomes s.env o) h.1
        n l (omega (arith, f)) in
    subst (Queued (r ∷ requests) rest s) (sym e) (
      i.0,
      i.1,
      i.2 ∙ ap (λ q. q ++ requests) same.queue ∙ append_assoc s.client.cmd_queue (r ∷ []) requests,
    )

receive_all_lem :
    (chunks : List Bytes) (buf : Bytes)
    → length (buf ++ concat chunks) < server_read_buf_size
    → receive_all chunks true buf ≡ some (buf ++ concat chunks)
unfolding receive_all
receive_all_lem [] buf h =
    let n = length-append buf [] in
    if_both (λ o. o ≡ some (buf ++ [])) (length buf == server_read_buf_size) none (some buf)
      (λ e. absurd (ground (arith, e, h, n))) (λ _. ap some (sym (append-nil buf)))
receive_all_lem (c ∷ chunks) buf h =
    let n = length-append buf (c ++ concat chunks) in
    let a = append_assoc buf c (concat chunks) in
    if_both (λ o. o ≡ some (buf ++ (c ++ concat chunks))) (length buf == server_read_buf_size) none
      (receive_all chunks true (buf ++ c)) (λ e. absurd (ground (arith, e, h, n)))
      (λ _. receive_all_lem chunks (buf ++ c) (omega (arith, h, ap length a)) ∙ ap some a)

enough_rounds :
    (requests : List Bytes) (rest : Bytes) → length requests ≤ length (lines_of requests ++ rest)
enough_rounds [] rest = omega arith
enough_rounds (r ∷ requests) rest =
    let line = r ++ b'\r' ∷ [] in
    omega (
      arith,
      enough_rounds requests rest,
      ap length (append_assoc line (b'\n' ∷ lines_of requests) rest),
      length-append line (b'\n' ∷ (lines_of requests ++ rest)),
    )

-- If what a client has sent, in whatever chunks, is some requests, each ended by a carriage return
-- and a newline and short enough for a line, and the beginning of one more, and the whole fits the
-- read buffer and no allocation fails, then reading it succeeds, appends exactly these requests to
-- the client queue in their order, and keeps the beginning in the buffer.
pub client_handle_read-Queued :
    (chunks requests : List Bytes) (rest : Bytes) (s : Serving)
    → s.client.read_buf ++ concat chunks ≡ lines_of requests ++ rest
    → length (lines_of requests ++ rest) < server_read_buf_size
    → s.env.outcomes ≡ []
    → All IsRequest requests
    → All (λ c. c ≢ b'\n') rest
    → length rest < server_max_line_len
    → Queued requests rest s (client_handle_read chunks true s)
unfolding client_handle_read
client_handle_read-Queued chunks requests rest s b room o h n l =
    let buf = s.client.read_buf ++ concat chunks in
    let s₁ = record s { client = record s.client { read_buf = buf } } in
    let go = λ (r : Option Bytes). elim r as (λ _. Bool × Serving) [
      | none ↦ (false, s)
      | some x ↦
          split_lines (suc (length x)) (record s { client = record s.client { read_buf = x } })
    ] in
    let e : client_handle_read chunks true s ≡ split_lines (suc (length buf)) s₁ =
      ap go (receive_all_lem chunks s.client.read_buf (omega (arith, ap length b, room))) in
    let rounds : length requests < suc (length buf) =
      omega (arith, enough_rounds requests rest, ap length b) in
    subst (Queued requests rest s) (sym e)
      (split_lines-Queued (suc (length buf)) requests rest s₁ b o h n l rounds)
