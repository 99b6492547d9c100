-- ===== src/Env.antt =====
-- What the store's code reads besides the store: the test hooks of src/kv.c, the generator of
-- src/eviction.c, and the outcomes of the library calls that may fail.
use mini_kv_db_server.Prelude.{
  ℕ, zero, suc, ◌*◌, ◌^◌, Bool, true, false, List, [], ◌∷◌, leb, if◌then◌else◌,
}
use mini_kv_db_server.Prelude.Int.{ℤ, pos, negsuc}

-- `outcomes` says for each call of malloc, calloc, realloc, fwrite, fflush, fsync, ftell and
-- send, in the order of the calls, whether it succeeds; past its end they all do.
pub record Env : Type 0 where
  pub alloc_fail_countdown : ℤ
  pub io_fail : Bool
  pub xorshift_state : ℕ
  pub outcomes : List Bool

unfoldable pub take_outcome : List Bool → Bool × List Bool
take_outcome [] = (true, [])
take_outcome (b ∷ r) = (b, r)

-- A call of the C library that may fail.
unfoldable pub library_call : Env → Bool × Env
unfolding take_outcome
library_call env = let (b, r) = take_outcome env.outcomes in (b, record env { outcomes = r })

-- The hook's countdown: at 0 the allocation fails and the hook is disabled.
unfoldable pub countdown : ℤ → Bool × ℤ
countdown (pos zero) = (true, negsuc 0)
countdown (pos (suc n)) = (false, pos n)
countdown (negsuc n) = (false, negsuc n)

-- Whether an allocation succeeds; what it returns is used at once by the code that asks for it.
unfoldable pub tracked_malloc : Env → Bool × Env
unfolding library_call countdown
tracked_malloc env =
    let (fails, c) = countdown env.alloc_fail_countdown in
    let env' = record env { alloc_fail_countdown = c } in
    if fails then (false, env') else library_call env'

-- calloc refuses a product that does not fit in `size_t`.
unfoldable pub tracked_calloc : ℕ → ℕ → Env → Bool × Env
unfolding library_call countdown
tracked_calloc num size env =
    let (fails, c) = countdown env.alloc_fail_countdown in
    let env' = record env { alloc_fail_countdown = c } in
    if fails
    then (false, env')
    else if leb (2 ^ 64) (num * size)
    then (false, env')
    else library_call env'
