-- ===== src/Aof/Laws.antt =====
-- Writing a record and rolling it back.
use mini_kv_db_server.Prelude.{
  ℕ, zero, suc, ◌+◌, ◌*◌, ◌≤◌, ◌<◌, ◌≡◌, ◌⊎◌, refl, ap, none, some, [], ◌∷◌, ◌++◌, arith, length,
  take,
}
use mini_kv_db_server.Prelude.Text.{Bytes}
use mini_kv_db_server.Status.{ok}
use mini_kv_db_server.Env.{Env}
use mini_kv_db_server.World.{Stream}
use mini_kv_db_server.Aof.{grow_cap, write_stream, record_buf_size}

pub take-append : (xs ys : Bytes) → take (length xs) (xs ++ ys) ≡ xs
take-append [] ys = refl
take-append (x ∷ xs) ys = ap (λ r. x ∷ r) (take-append xs ys)

pub take-all : (xs : Bytes) → take (length xs) xs ≡ xs
take-all [] = refl
take-all (x ∷ xs) = ap (λ r. x ∷ r) (take-all xs)

-- As many doublings as bytes are asked for make the buffer large enough.
pub grow_cap_enough :
    (fuel need cap : ℕ) → 0 < cap → need ≤ cap + fuel → need ≤ grow_cap fuel need cap
unfolding grow_cap
grow_cap_enough zero need cap p h = omega arith
grow_cap_enough (suc fuel) need cap p h = ground (arith, grow_cap_enough fuel need (cap * 2))

-- Whatever the outcome, the stream holds what it held or the text more, and the position that is
-- reported is the one before the write; KV_OK means that the text was written.
pub write_stream_lem :
    (level : ℕ) (text : Bytes) (fp : Stream) (env : Env)
    → let r = write_stream level text fp env in
      ((r.2 ≡ fp)
        ⊎ (r.2 ≡ record { content = fp.content ++ text; position = length (fp.content ++ text) }))
      × ((r.1 ≡ none) ⊎ (r.1 ≡ some fp.position))
      × (r.0 ≡ ok
          → (r.1 ≡ some fp.position)
            × (r.2.content ≡ fp.content ++ text)
            × (length text < record_buf_size))
unfolding write_stream
write_stream_lem level text fp env = ground arith
