-- ===== src/Prelude/Lists.antt =====
-- Arrays and linked chains as lists with native indices, and sums over them.
use Prim.Native.Nat.{ℕ, zero, suc, ◌+◌, ◌≤◌, ◌<◌}
use mathlib.Core.Path.{◌≡◌, refl, ap}
use mathlib.Core.Option.{Option, none, some}
use mathlib.Core.List.{List, [], ◌∷◌, ◌++◌}
use native.Mathlib.Omega.{arith}
use mini_kv_db_server.Prelude.Tests.{◌==◌, if◌then◌else◌}

module _ {ℓ} {A : Type ℓ} where
  abbrev pub length : List A → ℕ
  length [] = 0
  length (x ∷ xs) = suc (length xs)

  abbrev pub get_elem? : List A → ℕ → Option A
  get_elem? [] i = none
  get_elem? (x ∷ xs) zero = some x
  get_elem? (x ∷ xs) (suc i) = get_elem? xs i

  abbrev pub get_or : List A → ℕ → A → A
  get_or [] i d = d
  get_or (x ∷ xs) zero d = x
  get_or (x ∷ xs) (suc i) d = get_or xs i d

  -- A write out of range changes nothing.
  abbrev pub set : List A → ℕ → A → List A
  set [] i v = []
  set (x ∷ xs) zero v = v ∷ xs
  set (x ∷ xs) (suc i) v = x ∷ set xs i v

  -- The chain without its node at a position.
  abbrev pub remove_at : ℕ → List A → List A
  remove_at i [] = []
  remove_at zero (x ∷ xs) = xs
  remove_at (suc i) (x ∷ xs) = x ∷ remove_at i xs

  abbrev pub replicate : ℕ → A → List A
  replicate zero a = []
  replicate (suc n) a = a ∷ replicate n a

  abbrev pub take : ℕ → List A → List A
  take zero xs = []
  take (suc n) [] = []
  take (suc n) (x ∷ xs) = x ∷ take n xs

  abbrev pub drop : ℕ → List A → List A
  drop zero xs = xs
  drop (suc n) [] = []
  drop (suc n) (x ∷ xs) = drop n xs

  abbrev pub All {κ} : (A → Type κ) → List A → Type κ
  All P [] = Unit
  All P (x ∷ xs) = P x × All P xs

  -- The sum of a measure over the elements.
  abbrev pub sum_by : (A → ℕ) → List A → ℕ
  sum_by f [] = 0
  sum_by f (x ∷ xs) = f x + sum_by f xs

  pub length-append : (xs ys : List A) → length (xs ++ ys) ≡ length xs + length ys
  length-append [] ys = omega arith
  length-append (x ∷ xs) ys = omega (arith, length-append xs ys)

  pub length-set : (xs : List A) (i : ℕ) (v : A) → length (set xs i v) ≡ length xs
  length-set [] i v = refl
  length-set (x ∷ xs) zero v = refl
  length-set (x ∷ xs) (suc i) v = ap suc (length-set xs i v)

  pub length-replicate : (n : ℕ) (a : A) → length (replicate n a) ≡ n
  length-replicate zero a = refl
  length-replicate (suc n) a = ap suc (length-replicate n a)

  pub get_or-replicate : (n i : ℕ) (a : A) → get_or (replicate n a) i a ≡ a
  get_or-replicate zero i a = refl
  get_or-replicate (suc n) zero a = refl
  get_or-replicate (suc n) (suc i) a = get_or-replicate n i a

  pub get_or-set :
      (xs : List A) (i j : ℕ) (v d : A)
      → i < length xs
      → get_or (set xs i v) j d ≡ (if i == j then v else get_or xs j d)
  get_or-set [] i j v d h = absurd (omega arith)
  get_or-set (x ∷ xs) zero zero v d h = ground arith
  get_or-set (x ∷ xs) zero (suc j) v d h = ground arith
  get_or-set (x ∷ xs) (suc i) zero v d h = ground arith
  get_or-set (x ∷ xs) (suc i) (suc j) v d h = ground (arith, get_or-set xs i j v d)

  pub get_or_outside : (xs : List A) (i : ℕ) (d : A) → length xs ≤ i → get_or xs i d ≡ d
  get_or_outside [] i d h = refl
  get_or_outside (x ∷ xs) zero d h = absurd (omega arith)
  get_or_outside (x ∷ xs) (suc i) d h = get_or_outside xs i d (omega arith)

  pub set-get_or : (xs : List A) (i : ℕ) (d : A) → set xs i (get_or xs i d) ≡ xs
  set-get_or [] i d = refl
  set-get_or (x ∷ xs) zero d = refl
  set-get_or (x ∷ xs) (suc i) d = ap (λ r. x ∷ r) (set-get_or xs i d)

  pub sum_by-append : (f : A → ℕ) (xs ys : List A) → sum_by f (xs ++ ys) ≡ sum_by f xs + sum_by f ys
  sum_by-append f [] ys = omega arith
  sum_by-append f (x ∷ xs) ys = omega (arith, sum_by-append f xs ys)

  -- Replacing one element trades its measure for that of the new one.
  pub sum_by-set :
      (f : A → ℕ) (xs : List A) (i : ℕ) (v d : A)
      → i < length xs
      → sum_by f (set xs i v) + f (get_or xs i d) ≡ sum_by f xs + f v
  sum_by-set f [] i v d h = absurd (omega arith)
  sum_by-set f (x ∷ xs) zero v d h = omega arith
  sum_by-set f (x ∷ xs) (suc i) v d h = omega (arith, sum_by-set f xs i v d (omega arith))

  pub sum_by-set_elem :
      (f : A → ℕ) (xs : List A) (i : ℕ) (v x : A)
      → get_elem? xs i ≡ some x
      → sum_by f (set xs i v) + f x ≡ sum_by f xs + f v
  sum_by-set_elem f [] i v x h = absurd (ground arith)
  sum_by-set_elem f (y ∷ xs) zero v x h = ground arith
  sum_by-set_elem f (y ∷ xs) (suc i) v x h = omega (arith, sum_by-set_elem f xs i v x h)

  pub sum_by-remove_at :
      (f : A → ℕ) (xs : List A) (i : ℕ) (x : A)
      → get_elem? xs i ≡ some x
      → sum_by f (remove_at i xs) + f x ≡ sum_by f xs
  sum_by-remove_at f [] i x h = absurd (ground arith)
  sum_by-remove_at f (y ∷ xs) zero x h = ground arith
  sum_by-remove_at f (y ∷ xs) (suc i) x h = omega (arith, sum_by-remove_at f xs i x h)

  pub sum_by-get_or :
      (f : A → ℕ) (xs : List A) (i : ℕ) (d : A) → f d ≡ 0 → f (get_or xs i d) ≤ sum_by f xs
  sum_by-get_or f [] i d h = omega arith
  sum_by-get_or f (x ∷ xs) zero d h = omega arith
  sum_by-get_or f (x ∷ xs) (suc i) d h = omega (arith, sum_by-get_or f xs i d h)

  pub sum_by-replicate : (f : A → ℕ) (n : ℕ) (a : A) → f a ≡ 0 → sum_by f (replicate n a) ≡ 0
  sum_by-replicate f zero a h = refl
  sum_by-replicate f (suc n) a h = omega (arith, sum_by-replicate f n a h)
