-- ===== src/Table/Chain.antt =====
-- One collision chain.
use mini_kv_db_server.Prelude.{
  ℕ, zero, suc, ◌+◌, ◌≤◌, ◌≡◌, refl, true, Option, none, some, List, [], ◌∷◌, arith, if◌then◌else◌,
  get_elem?, set, remove_at, sum_by, to_nat, sum_by-remove_at, sum_by-set_elem, ap,
}
use mini_kv_db_server.Prelude.Text.{Bytes, str_eq}
use mini_kv_db_server.Table.Types.{Entry}

abbrev shift : Option (ℕ × Entry) → Option (ℕ × Entry)
shift none = none
shift (some (i, e)) = some (suc i, e)

-- The walk with strcmp: the first node under the key, and how many stand before it.
unfoldable pub find_key : Bytes → List Entry → Option (ℕ × Entry)
find_key key [] = none
find_key key (e ∷ c) = if str_eq e.key key then some (0, e) else shift (find_key key c)

-- How many nodes of a chain have a key.
unfoldable pub count : Bytes → List Entry → ℕ
count q c = sum_by (λ (e : Entry). to_nat (str_eq e.key q)) c

-- The entry that a chain has under a key.
unfoldable pub lookup : Bytes → List Entry → Option Entry
lookup q [] = none
lookup q (e ∷ c) = if str_eq e.key q then some e else lookup q c

abbrev pub entry_of : Option (ℕ × Entry) → Option Entry
entry_of none = none
entry_of (some (i, e)) = some e

pub find_key-lookup : (q : Bytes) (c : List Entry) → entry_of (find_key q c) ≡ lookup q c
unfolding find_key lookup
find_key-lookup q [] = refl
find_key-lookup q (e ∷ c) = ground (arith, find_key-lookup q c)

-- A node that is found stands where the walk says, and has the key.
pub find_key-some :
    (q : Bytes) (c : List Entry) (i : ℕ) (e : Entry)
    → find_key q c ≡ some (i, e)
    → (get_elem? c i ≡ some e) × (str_eq e.key q ≡ true) × (lookup q c ≡ some e)
unfolding find_key lookup
find_key-some q [] i e h = absurd (ground arith)
find_key-some q (x ∷ c) zero e h = ground arith
find_key-some q (x ∷ c) (suc i) e h = ground (arith, find_key-some q c i e)

pub find_key-none : (q : Bytes) (c : List Entry) → find_key q c ≡ none → lookup q c ≡ none
find_key-none q c h = ground (arith, find_key-lookup q c)

pub lookup-none : (q : Bytes) (c : List Entry) → count q c ≡ 0 → lookup q c ≡ none
unfolding lookup count
lookup-none q [] h = refl
lookup-none q (e ∷ c) h = ground (arith, lookup-none q c)

pub count-none : (q : Bytes) (c : List Entry) → lookup q c ≡ none → count q c ≡ 0
unfolding lookup count
count-none q [] h = refl
count-none q (e ∷ c) h = ground (arith, count-none q c)

pub count-some : (q : Bytes) (c : List Entry) (e : Entry) → lookup q c ≡ some e → 1 ≤ count q c
unfolding lookup count
count-some q [] e h = absurd (ground arith)
count-some q (x ∷ c) e h = ground (arith, count-some q c e)

pub count-remove_at :
    (q : Bytes) (c : List Entry) (i : ℕ) (e : Entry)
    → get_elem? c i ≡ some e
    → count q (remove_at i c) + to_nat (str_eq e.key q) ≡ count q c
unfolding count
count-remove_at q c i e h = sum_by-remove_at _ c i e h

-- Removing a node hides its own key and no other, if keys are unique in the chain.
pub lookup-remove_at :
    (q : Bytes) (c : List Entry) (i : ℕ) (e : Entry)
    → get_elem? c i ≡ some e
    → count q c ≤ 1
    → lookup q (remove_at i c) ≡ (if str_eq e.key q then none else lookup q c)
unfolding lookup count
lookup-remove_at q [] i e h u = absurd (ground arith)
lookup-remove_at q (x ∷ c) zero e h u = ground (arith, lookup-none q c)
lookup-remove_at q (x ∷ c) (suc i) e h u =
    ground (arith, lookup-remove_at q c i e, count-remove_at q c i e)

-- Overwriting a node in place, the key kept.
pub count-set :
    (q : Bytes) (c : List Entry) (i : ℕ) (e e' : Entry)
    → get_elem? c i ≡ some e
    → e'.key ≡ e.key
    → count q (set c i e') ≡ count q c
unfolding count
count-set q c i e e' h k = omega (
  arith,
  sum_by-set_elem (λ (e : Entry). to_nat (str_eq e.key q)) c i e' e h,
  ap (λ (b : Bytes). to_nat (str_eq b q)) k,
)

pub lookup-set :
    (q : Bytes) (c : List Entry) (i : ℕ) (e e' : Entry)
    → get_elem? c i ≡ some e
    → e'.key ≡ e.key
    → count q c ≤ 1
    → lookup q (set c i e') ≡ (if str_eq e.key q then some e' else lookup q c)
unfolding lookup count
lookup-set q [] i e e' h k u = absurd (ground arith)
lookup-set q (x ∷ c) zero e e' h k u = ground arith
lookup-set q (x ∷ c) (suc i) e e' h k u =
    ground (arith, lookup-set q c i e e', count-remove_at q c i e)
