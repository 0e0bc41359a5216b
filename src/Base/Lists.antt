-- ===== src/Base/Lists.antt =====
-- Lists measured by native numbers, and filtered by Boolean tests. Models no code of its own.
use Prim.Native.Nat.{ℕ, zero, suc, ◌+◌}
use mathlib.Core.Path.{◌≡◌, refl}
use mathlib.Core.List.{List, [], ◌∷◌, ◌++◌}
use mathlib.Core.Bool.{Bool, true, false, ◌&&◌, ◌||◌}
use mathlib.Core.Option.{Option, none, some}
use native.Mathlib.Omega.{arith}
use wavvon_server.Base.Tests.{if◌then◌else◌}

module _ {ℓ} {A : Type ℓ} where
  abbrev pub length : List A → ℕ
  length [] = 0
  length (x ∷ xs) = suc (length xs)

  pub length-append : (xs ys : List A) → length (xs ++ ys) ≡ length xs + length ys
  length-append [] ys = omega arith
  length-append (x ∷ xs) ys = omega (arith, length-append xs ys)

  abbrev pub take : ℕ → List A → List A
  take zero xs = []
  take (suc n) [] = []
  take (suc n) (x ∷ xs) = x ∷ take n xs

  abbrev pub drop : ℕ → List A → List A
  drop zero xs = xs
  drop (suc n) [] = []
  drop (suc n) (x ∷ xs) = drop n xs

  -- `iter().any(f)`
  abbrev pub any : (A → Bool) → List A → Bool
  any f [] = false
  any f (x ∷ xs) = f x || any f xs

  -- `iter().all(f)`
  abbrev pub all : (A → Bool) → List A → Bool
  all f [] = true
  all f (x ∷ xs) = f x && all f xs

  -- `iter().filter(f)`, and the `WHERE` of a query
  abbrev pub retain : (A → Bool) → List A → List A
  retain f [] = []
  retain f (x ∷ xs) = let rest = retain f xs in if f x then x ∷ rest else rest

  -- `iter().find(f)`
  abbrev pub find : (A → Bool) → List A → Option A
  find f [] = none
  find f (x ∷ xs) = if f x then some x else find f xs

  abbrev pub is_empty : List A → Bool
  is_empty [] = true
  is_empty (x ∷ xs) = false

  abbrev pub All {κ} : (A → Type κ) → List A → Type κ
  All P [] = Unit
  All P (x ∷ xs) = P x × All P xs

  pub any-retain : (f g : A → Bool) (xs : List A) → any f (retain g xs) ≡ any (λ x. g x && f x) xs
  any-retain f g [] = refl
  any-retain f g (x ∷ xs) = ground (arith, any-retain f g xs)

  pub any-ext : (f g : A → Bool) → ((x : A) → f x ≡ g x) → (xs : List A) → any f xs ≡ any g xs
  any-ext f g h [] = refl
  any-ext f g h (x ∷ xs) = rw (h x, any-ext f g h xs)

  pub any-append : (f : A → Bool) (xs ys : List A) → any f (xs ++ ys) ≡ (any f xs || any f ys)
  any-append f [] ys = refl
  any-append f (x ∷ xs) ys = ground (arith, any-append f xs ys)
