-- ===== src/Rewrite/Dump.antt =====
-- The file that the child of a rewrite writes in src/aof.c, as the log of the changes that make a table.
use mathlib.Core.List.{append_assoc, append-nil}
use mini_kv_db_server.Prelude.{
  ℕ, zero, suc, ◌≡◌, refl, ap, ap₂, sym, ◌∙◌, Bool, true, false, List, [], ◌∷◌, ◌++◌, if◌then◌else◌,
}
use mini_kv_db_server.Prelude.Int.{ℤ, pos, negsuc}
use mini_kv_db_server.Prelude.Text.{Bytes, bytes}
use mini_kv_db_server.Aof.{join, record₂}
use mini_kv_db_server.Table.Types.{Value, string, list, set_of, Entry}
use mini_kv_db_server.Table.Ops.{entry_is_expired}
use mini_kv_db_server.Sets.{members_of}
use mini_kv_db_server.Replay.Changes.{Change, set, lpush, sadd, expire_at, parts_of, log_of}
use mini_kv_db_server.Rewrite.{
  dump_list, dump_set, dump_value, dump_expiry, dump_entry, dump_chain, rewrite_dump,
}

-- The changes that make a list, from its tail on.
abbrev pub list_changes : Bytes → List Bytes → List Change
list_changes key [] = []
list_changes key (value ∷ nodes) = list_changes key nodes ++ lpush key value ∷ []

abbrev pub set_changes : Bytes → List Bytes → List Change
set_changes key [] = []
set_changes key (value ∷ members) = sadd key value ∷ set_changes key members

abbrev pub value_changes : Bytes → Value → List Change
value_changes key (string value) = set key value ∷ []
value_changes key (list l) = list_changes key l.nodes
value_changes key (set_of s) = set_changes key (members_of s.buckets)

abbrev pub expiry_changes : Bytes → ℤ → List Change
expiry_changes key (pos zero) = []
expiry_changes key (pos (suc t)) = expire_at key (pos (suc t)) ∷ []
expiry_changes key (negsuc t) = []

abbrev pub entry_changes : ℕ → Entry → List Change
entry_changes now_ms e =
    if entry_is_expired e now_ms
    then []
    else value_changes e.key e.value ++ expiry_changes e.key e.expire_at_ms

abbrev pub chain_changes : ℕ → List Entry → List Change
chain_changes now_ms [] = []
chain_changes now_ms (e ∷ chain) = entry_changes now_ms e ++ chain_changes now_ms chain

-- The changes that make the entries of a table that are not due.
abbrev pub dump_changes : ℕ → List (List Entry) → List Change
dump_changes now_ms [] = []
dump_changes now_ms (chain ∷ buckets) = chain_changes now_ms chain ++ dump_changes now_ms buckets

pub log_of-append : (a b : List Change) → log_of (a ++ b) ≡ log_of a ++ log_of b
unfolding log_of
log_of-append [] b = refl
log_of-append (c ∷ a) b = ap (λ s. join (parts_of c) ++ s) (log_of-append a b) ∙ simp append_assoc

log_of_one : (c : Change) → log_of (c ∷ []) ≡ join (parts_of c)
unfolding log_of
log_of_one c = simp append-nil

dump_list_lem :
    (key : Bytes) (nodes : List Bytes) → dump_list key nodes ≡ log_of (list_changes key nodes)
unfolding dump_list log_of
dump_list_lem key [] = refl
dump_list_lem key (value ∷ nodes) =
    ap₂ (λ a b. a ++ b) (dump_list_lem key nodes) (sym (log_of_one (lpush key value)))
    ∙ sym (log_of-append (list_changes key nodes) (lpush key value ∷ []))

dump_set_lem :
    (key : Bytes) (members : List Bytes) → dump_set key members ≡ log_of (set_changes key members)
unfolding dump_set log_of
dump_set_lem key [] = refl
dump_set_lem key (value ∷ members) =
    ap (λ s. join (record₂ (bytes "SADD") key value) ++ s) (dump_set_lem key members)

dump_value_lem :
    (key : Bytes) (value : Value) → dump_value key value ≡ log_of (value_changes key value)
unfolding dump_value
dump_value_lem key (string value) = sym (log_of_one (set key value))
dump_value_lem key (list l) = dump_list_lem key l.nodes
dump_value_lem key (set_of s) = dump_set_lem key (members_of s.buckets)

dump_expiry_lem : (key : Bytes) (at : ℤ) → dump_expiry key at ≡ log_of (expiry_changes key at)
unfolding dump_expiry log_of
dump_expiry_lem key (pos zero) = refl
dump_expiry_lem key (pos (suc t)) = sym (log_of_one (expire_at key (pos (suc t))))
dump_expiry_lem key (negsuc t) = refl

one_branch :
    (b : Bool) (text : Bytes) (changes : List Change)
    → text ≡ log_of changes
    → (if b then [] else text) ≡ log_of (if b then [] else changes)
unfolding log_of
one_branch true text changes h = refl
one_branch false text changes h = h

dump_entry_lem : (now_ms : ℕ) (e : Entry) → dump_entry now_ms e ≡ log_of (entry_changes now_ms e)
unfolding dump_entry log_of
dump_entry_lem now_ms e =
    let same : dump_value e.key e.value ++ dump_expiry e.key e.expire_at_ms
        ≡ log_of (value_changes e.key e.value ++ expiry_changes e.key e.expire_at_ms) =
      ap₂ (λ a b. a ++ b) (dump_value_lem e.key e.value) (dump_expiry_lem e.key e.expire_at_ms)
      ∙ sym (log_of-append (value_changes e.key e.value) (expiry_changes e.key e.expire_at_ms)) in
    one_branch (entry_is_expired e now_ms) _
      (value_changes e.key e.value ++ expiry_changes e.key e.expire_at_ms) same

dump_chain_lem :
    (now_ms : ℕ) (chain : List Entry)
    → dump_chain now_ms chain ≡ log_of (chain_changes now_ms chain)
unfolding dump_chain log_of
dump_chain_lem now_ms [] = refl
dump_chain_lem now_ms (e ∷ chain) =
    ap₂ (λ a b. a ++ b) (dump_entry_lem now_ms e) (dump_chain_lem now_ms chain)
    ∙ sym (log_of-append (entry_changes now_ms e) (chain_changes now_ms chain))

-- The file of a rewrite is the log of the changes that make the table.
pub rewrite_dump-log_of :
    (now_ms : ℕ) (buckets : List (List Entry))
    → rewrite_dump now_ms buckets ≡ log_of (dump_changes now_ms buckets)
unfolding rewrite_dump log_of
rewrite_dump-log_of now_ms [] = refl
rewrite_dump-log_of now_ms (chain ∷ buckets) =
    ap₂ (λ a b. a ++ b) (dump_chain_lem now_ms chain) (rewrite_dump-log_of now_ms buckets)
    ∙ sym (log_of-append (chain_changes now_ms chain) (dump_changes now_ms buckets))
