-- ===== src/Prelude/Text.antt =====
-- C strings: the bytes before the terminating NUL.
use mini_kv_db_server.Prelude.Tests.{◌==◌}
use Prim.Native.Nat.{ℕ}
use Prim.Native.Char.{code}
use Prim.Native.String.{String}
use mathlib.Core.Path.{◌≡◌, refl}
use mathlib.Core.Logic.{◌↔◌}
use mathlib.Core.Bool.{Bool, true, false, ◌&&◌}
use mathlib.Core.List.{List, [], ◌∷◌}
use native.Mathlib.Omega.{arith}

abbrev pub Bytes : Type 0
Bytes = List ℕ

-- A literal of the source, as its bytes.
abbrev pub bytes : String → Bytes
bytes String.[] = []
bytes (String.◌∷◌ c s) = code c ∷ bytes s

-- strcmp(a, b) == 0
unfoldable pub str_eq : Bytes → Bytes → Bool
str_eq [] [] = true
str_eq [] (b ∷ bs) = false
str_eq (a ∷ as') [] = false
str_eq (a ∷ as') (b ∷ bs) = (a == b) && str_eq as' bs

pub str_eq→≡ : (a b : Bytes) → str_eq a b ≡ true → a ≡ b
unfolding str_eq
str_eq→≡ [] [] h = refl
str_eq→≡ [] (b ∷ bs) h = cc
str_eq→≡ (a ∷ as') [] h = cc
str_eq→≡ (a ∷ as') (b ∷ bs) h = ground (arith, str_eq→≡ as' bs)

pub str_eq_refl : (a : Bytes) → str_eq a a ≡ true
unfolding str_eq
str_eq_refl [] = refl
str_eq_refl (a ∷ as') = ground (arith, str_eq_refl as')

pub str_eq_iff : (a b : Bytes) → (str_eq a b ≡ true) ↔ (a ≡ b)
str_eq_iff a b = (str_eq→≡ a b, λ e. rw (← e) (str_eq_refl a))
