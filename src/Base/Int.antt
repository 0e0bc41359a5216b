-- ===== src/Base/Int.antt =====
-- `i64`, as far as the program compares it: role priorities can be negative. Models no code of
-- its own.
use Prim.Native.Nat.{ℕ, ◌-◌, ◌%◌, ◌^◌, ◌<◌}
use mathlib.Core.Path.{◌≡◌, refl}
use mathlib.Core.Bool.{Bool, true, false, not}
use native.Mathlib.Omega.{arith}
use wavvon_server.Base.Tests.{leb, ltb, if◌then◌else◌}

-- `negsuc n` is -(n + 1).
pub data ℤ : Type 0 where
  pos : ℕ → ℤ
  negsuc : ℕ → ℤ

-- `a <= b`
abbrev pub le_ℤ : ℤ → ℤ → Bool
le_ℤ (pos a) (pos b) = leb a b
le_ℤ (pos a) (negsuc b) = false
le_ℤ (negsuc a) (pos b) = true
le_ℤ (negsuc a) (negsuc b) = leb b a

-- `a < b`
abbrev pub lt_ℤ : ℤ → ℤ → Bool
lt_ℤ a b = not (le_ℤ b a)

-- `a.max(b)`, which is `b` where the two are equal.
abbrev pub max_ℤ : ℤ → ℤ → ℤ
max_ℤ a b = if lt_ℤ b a then a else b

-- `a.min(b)`
abbrev pub min_ℤ : ℤ → ℤ → ℤ
min_ℤ a b = if lt_ℤ b a then b else a

-- A number of 64 bits read as an `i64`, in two's complement: `n as i64`. The sum of two such
-- casts, which wraps, is the cast of the sum.
unfoldable pub as_i64 : ℕ → ℤ
as_i64 n = let w = n % 2 ^ 64 in if ltb w (2 ^ 63) then pos w else negsuc (2 ^ 64 - 1 - w)

-- Numbers that fit are themselves.
pub as_i64-small : (n : ℕ) → n < 2 ^ 63 → as_i64 n ≡ pos n
unfolding as_i64
as_i64-small n h = ground arith

pub le_ℤ_refl : (a : ℤ) → le_ℤ a a ≡ true
le_ℤ_refl (pos a) = ground arith
le_ℤ_refl (negsuc a) = ground arith

pub le_ℤ_trans : (a b c : ℤ) → le_ℤ a b ≡ true → le_ℤ b c ≡ true → le_ℤ a c ≡ true
le_ℤ_trans (pos a) (pos b) (pos c) h k = ground arith
le_ℤ_trans (pos a) (pos b) (negsuc c) h k = ground arith
le_ℤ_trans (pos a) (negsuc b) c h k = ground arith
le_ℤ_trans (negsuc a) b (pos c) h k = refl
le_ℤ_trans (negsuc a) (pos b) (negsuc c) h k = ground arith
le_ℤ_trans (negsuc a) (negsuc b) (negsuc c) h k = ground arith

pub le_ℤ_total : (a b : ℤ) → le_ℤ a b ≡ false → le_ℤ b a ≡ true
le_ℤ_total (pos a) (pos b) h = ground arith
le_ℤ_total (pos a) (negsuc b) h = refl
le_ℤ_total (negsuc a) (pos b) h = ground arith
le_ℤ_total (negsuc a) (negsuc b) h = ground arith
