-- ===== src/Key/Laws.antt =====
-- What the checks of src/kv.c on keys and values decide.
use mini_kv_db_server.Status.{Status, is_ok}
use mini_kv_db_server.Prelude.{
  ◌⊎◌, inl, inr, ℕ, ◌+◌, ◌≤◌, ◌<◌, ◌≡◌, refl, false, Option, none, some, [], ◌∷◌, arith, length,
}
use mini_kv_db_server.Prelude.Text.{Bytes}
use mini_kv_db_server.Key.{
  max_key_len, max_value_len, strlen_from, bounded_strlen, has_space, Validated, valid, invalid,
  validate_key, validate_value, hash_key,
}
use Prim.Native.Nat.{min}

strlen_from-eq :
    (len m : ℕ) (s : Bytes) → len ≤ m + 1 → strlen_from len m s ≡ min (len + length s) (m + 1)
unfolding strlen_from
strlen_from-eq len m [] h = omega arith
strlen_from-eq len m (c ∷ s) h = ground (arith, strlen_from-eq (len + 1) m s)

-- The count stops one past the bound.
pub bounded_strlen-eq-min : (s : Bytes) (m : ℕ) → bounded_strlen s m ≡ min (length s) (m + 1)
unfolding bounded_strlen
bounded_strlen-eq-min s m = omega (arith, strlen_from-eq 0 m s (omega arith))

-- A key passes exactly if it has 1 to 256 bytes and no white space, and then its length is
-- returned.
pub validate_key_iff :
    (k : Bytes) (n : ℕ)
    → (validate_key (some k) ≡ valid n
        → (1 ≤ length k) × (length k ≤ max_key_len) × (has_space k ≡ false) × (n ≡ length k))
      × (1 ≤ length k
          → length k ≤ max_key_len
          → has_space k ≡ false
          → validate_key (some k) ≡ valid (length k))
unfolding validate_key
validate_key_iff k n = (
  λ h. ground (arith, bounded_strlen-eq-min k max_key_len),
  λ a b c. ground (arith, bounded_strlen-eq-min k max_key_len),
)

pub validate_key-valid :
    (k : Bytes) (n : ℕ)
    → validate_key (some k) ≡ valid n
    → (length k ≤ max_key_len) × (n ≡ length k)
validate_key-valid k n h = let r = (validate_key_iff k n).0 h in (r.1, r.3)

pub validate_value-valid :
    (v : Bytes) (n : ℕ)
    → validate_value (some v) ≡ valid n
    → (length v ≤ max_value_len) × (n ≡ length v)
unfolding validate_value
validate_value-valid v n h = ground (arith, bounded_strlen-eq-min v max_value_len)

pub hash_key-lt : (k : Bytes) (n : ℕ) → 0 < n → hash_key k n < n
unfolding hash_key
hash_key-lt k n h = omega arith

pub Validated-cases : (x : Validated) → ((e : Status) × (x ≡ invalid e)) ⊎ ((n : ℕ) × (x ≡ valid n))
Validated-cases (valid n) = inr (n, refl)
Validated-cases (invalid e) = inl (e, refl)

-- A refusal is never KV_OK.
pub validate_key-invalid :
    (k : Option Bytes) (e : Status) → validate_key k ≡ invalid e → is_ok e ≡ false
unfolding validate_key
validate_key-invalid none e h = ground arith
validate_key-invalid (some k) e h = ground arith

pub validate_value-invalid :
    (v : Option Bytes) (e : Status) → validate_value v ≡ invalid e → is_ok e ≡ false
unfolding validate_value
validate_value-invalid none e h = ground arith
validate_value-invalid (some v) e h = ground arith
