-- ===== src/Snapshot/Load/Outcome.antt =====
-- What a load does with an entry of a snapshot file, said without the loader's own steps: which commands
-- `kv_load_snapshot` of src/snapshot.c runs, on which texts, and which expiry it gives.
pub mod Steps
use mini_kv_db_server.Prelude.{
  ℕ, zero, suc, ◌≡◌, refl, Bool, true, false, not, some, List, [], ◌∷◌, arith, leb, if◌then◌else◌,
}
use mini_kv_db_server.Prelude.Int.{ℤ, pos, negsuc}
use mini_kv_db_server.Prelude.Text.{Bytes}
use mini_kv_db_server.Status.{is_ok}
use mini_kv_db_server.World.{World}
use mini_kv_db_server.Payload.{Reply, Run, returned, use_after_free}
use mini_kv_db_server.Kv.{kv_set}
use mini_kv_db_server.Lists.{kv_lpush}
use mini_kv_db_server.Sets.{kv_sadd, members_of}
use mini_kv_db_server.Ttl.{kv_set_expire_at_ms_internal}
use mini_kv_db_server.Table.Types.{Value, string, list, set_of}
use mini_kv_db_server.Snapshot.{is_current}
use mini_kv_db_server.Snapshot.Load.RoundTrip.{Restored, backwards, then_restore, with_memory}

-- Whether the time of an expiry has come; 0 stands for no expiry.
abbrev pub has_passed : ℤ → ℕ → Bool
has_passed (pos zero) now_ms = false
has_passed (pos (suc t)) now_ms = leb (suc t) now_ms
has_passed (negsuc t) now_ms = true

pub is_current-has_passed :
    (at : ℤ) (now_ms : ℕ) → is_current at now_ms ≡ not (has_passed at now_ms)
unfolding is_current
is_current-has_passed (pos zero) now_ms = refl
is_current-has_passed (pos (suc t)) now_ms = ground arith
is_current-has_passed (negsuc t) now_ms = refl

unfoldable pub give_expiry : Bytes → ℤ → World → World
give_expiry key (pos zero) w = w
give_expiry key at w = record w { table = kv_set_expire_at_ms_internal key at w.table }

-- SET, and the expiry unless SET was refused.
unfoldable pub set_string : Bytes → ℤ → Bytes → World → World
unfolding give_expiry
set_string key at val w =
    let (status, w₁) = kv_set (some key) (some val) w in
    if is_ok status then give_expiry key at w₁ else w₁

unfoldable pub then_command : Run (Reply × World) → (World → Restored) → Restored
then_command (returned (reply, w)) next = next w
then_command use_after_free next = use_after_free

-- One command for each text, whatever it replies.
unfoldable pub add_texts : (Bytes → World → Run (Reply × World)) → List Bytes → World → Restored
unfolding then_command with_memory
add_texts command [] w = returned (true, w)
add_texts command (v ∷ texts) w =
    with_memory (λ w₁. then_command (command v w₁) (add_texts command texts)) w

-- The texts are read, and that is all.
unfoldable pub skip_texts : List Bytes → World → Restored
unfolding with_memory
skip_texts [] w = returned (true, w)
skip_texts (v ∷ texts) w = with_memory (skip_texts texts) w

-- A command for each text, and the expiry if there was one.
unfoldable pub add_elements :
    Bytes → ℤ → (Bytes → World → Run (Reply × World)) → List Bytes → World → Restored
unfolding add_texts then_restore give_expiry
add_elements key at command [] w = returned (true, w)
add_elements key at command (v ∷ texts) w =
    then_restore (add_texts command (v ∷ texts) w) (λ u. returned (true, give_expiry key at u))

-- An entry whose time has not come.
unfoldable pub add_value : ℕ → ℤ → Bytes → Value → World → Restored
unfolding with_memory set_string add_elements
add_value now_ms at key (string v) w = with_memory (λ u. returned (true, set_string key at v u)) w
add_value now_ms at key (list l) w =
    add_elements key at (λ val. kv_lpush (some key) (some val) now_ms) (backwards l.nodes) w
add_value now_ms at key (set_of s) w =
    add_elements key at (λ val. kv_sadd (some key) (some val) now_ms) (members_of s.buckets) w

abbrev pub texts_of : Value → List Bytes
texts_of (string v) = v ∷ []
texts_of (list l) = backwards l.nodes
texts_of (set_of s) = members_of s.buckets

unfoldable pub take_value : ℕ → ℤ → Bytes → Value → World → Restored
unfolding skip_texts add_value
take_value now_ms at key v w =
    if has_passed at now_ms then skip_texts (texts_of v) w else add_value now_ms at key v w
