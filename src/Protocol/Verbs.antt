-- ===== src/Protocol/Verbs.antt =====
-- The command words of src/protocol.c.
use mini_kv_db_server.Prelude.{Bool, true, false, List, [], ◌∷◌, if◌then◌else◌}
use mini_kv_db_server.Prelude.Text.{Bytes, bytes, str_eq}

pub data Verb : Type 0 where
  sync ping quit save get exists delete lpush rpop llen sadd srem scard smembers : Verb
  set expire pexpire ttl pttl persist bgsave bgrewriteaof unknown : Verb

-- The words that are compared with strcmp, in the order of the code.
abbrev pub verbs : List (Bytes × Verb)
verbs =
    (bytes "SYNC", sync)
    ∷ (bytes "PING", ping)
    ∷ (bytes "QUIT", quit)
    ∷ (bytes "SAVE", save)
    ∷ (bytes "GET", get)
    ∷ (bytes "EXISTS", exists)
    ∷ (bytes "DELETE", delete)
    ∷ (bytes "LPUSH", lpush)
    ∷ (bytes "RPOP", rpop)
    ∷ (bytes "LLEN", llen)
    ∷ (bytes "SADD", sadd)
    ∷ (bytes "SREM", srem)
    ∷ (bytes "SCARD", scard)
    ∷ (bytes "SMEMBERS", smembers)
    ∷ (bytes "SET", set)
    ∷ (bytes "EXPIRE", expire)
    ∷ (bytes "PEXPIRE", pexpire)
    ∷ (bytes "TTL", ttl)
    ∷ (bytes "PTTL", pttl)
    ∷ (bytes "PERSIST", persist)
    ∷ (bytes "BGSAVE", bgsave)
    ∷ (bytes "BGREWRITEAOF", bgrewriteaof)
    ∷ []

unfoldable pub find_verb : List (Bytes × Verb) → Bytes → Verb
find_verb [] cmd = unknown
find_verb ((word, verb) ∷ rest) cmd =
    let other = find_verb rest cmd in if str_eq cmd word then verb else other

unfoldable pub verb_of : Bytes → Verb
unfolding find_verb
verb_of = find_verb verbs

-- The commands that a replica refuses.
unfoldable pub is_write : Verb → Bool
is_write set = true
is_write delete = true
is_write lpush = true
is_write sadd = true
is_write srem = true
is_write expire = true
is_write pexpire = true
is_write persist = true
is_write _ = false
