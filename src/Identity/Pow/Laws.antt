-- ===== src/Identity/Pow/Laws.antt =====
-- The level of a hash is the number of zeros in front of its bits.
use wavvon_server.Base.{
  ℕ, zero, suc, ◌+◌, ◌/◌, ◌%◌, ◌^◌, ◌<◌, ◌≡◌, refl, ◌∙◌, false, not, List, [], ◌∷◌, ◌++◌, arith,
  All, leb, ◌==◌, if◌then◌else◌,
}
use wavvon_server.Identity.Wire.Encode.{Bytes}
use wavvon_server.Identity.Pow.{leading_zeros, leading_zero_bits}

abbrev pub IsByte : ℕ → Type 0
IsByte b = b < 256

-- The bits of a byte, the highest first.
abbrev byte_bits : ℕ → List ℕ
byte_bits b =
    b / 128 ∷ b / 64 % 2 ∷ b / 32 % 2 ∷ b / 16 % 2 ∷ b / 8 % 2 ∷ b / 4 % 2 ∷ b / 2 % 2 ∷ b % 2 ∷ []

abbrev pub bits : Bytes → List ℕ
bits [] = []
bits (b ∷ bs) = byte_bits b ++ bits bs

-- The zeros in front of the first other digit.
abbrev pub zeros : List ℕ → ℕ
zeros [] = 0
zeros (d ∷ ds) = let rest = zeros ds in if d == 0 then suc rest else 0

-- The zeros in front of `k` digits of `b`, by comparison, where `z` zeros follow the digits.
zeros_below : ℕ → ℕ → ℕ → ℕ
zeros_below zero b z = z
zeros_below (suc k) b z = let rest = zeros_below k b z in if leb (2 ^ k) b then 0 else suc rest

zeros_step :
    (k b d z : ℕ) (ds : List ℕ)
    → (d == 0) ≡ not (leb (2 ^ k) b)
    → (leb (2 ^ k) b ≡ false → zeros ds ≡ zeros_below k b z)
    → zeros (d ∷ ds) ≡ zeros_below (suc k) b z
unfolding zeros_below
zeros_step k b d z ds e h = ground arith

zeros_of_1 : (b : ℕ) (ds : List ℕ) → b < 2 → zeros (b % 2 ∷ ds) ≡ zeros_below 1 b (zeros ds)
unfolding zeros_below
zeros_of_1 b ds h = zeros_step 0 b (b % 2) (zeros ds) (ds) (ground arith) (λ e. refl)

zeros_of_2 :
    (b : ℕ) (ds : List ℕ) → b < 4 → zeros (b / 2 % 2 ∷ b % 2 ∷ ds) ≡ zeros_below 2 b (zeros ds)
unfolding zeros_below
zeros_of_2 b ds h =
    zeros_step 1 b (b / 2 % 2) (zeros ds) (b % 2 ∷ ds) (ground arith)
      (λ e. zeros_of_1 b ds (ground arith))

zeros_of_3 :
    (b : ℕ) (ds : List ℕ)
    → b < 8
    → zeros (b / 4 % 2 ∷ b / 2 % 2 ∷ b % 2 ∷ ds) ≡ zeros_below 3 b (zeros ds)
unfolding zeros_below
zeros_of_3 b ds h =
    zeros_step 2 b (b / 4 % 2) (zeros ds) (b / 2 % 2 ∷ b % 2 ∷ ds) (ground arith)
      (λ e. zeros_of_2 b ds (ground arith))

zeros_of_4 :
    (b : ℕ) (ds : List ℕ)
    → b < 16
    → zeros (b / 8 % 2 ∷ b / 4 % 2 ∷ b / 2 % 2 ∷ b % 2 ∷ ds) ≡ zeros_below 4 b (zeros ds)
unfolding zeros_below
zeros_of_4 b ds h =
    zeros_step 3 b (b / 8 % 2) (zeros ds) (b / 4 % 2 ∷ b / 2 % 2 ∷ b % 2 ∷ ds) (ground arith)
      (λ e. zeros_of_3 b ds (ground arith))

zeros_of_5 :
    (b : ℕ) (ds : List ℕ)
    → b < 32
    → zeros (b / 16 % 2 ∷ b / 8 % 2 ∷ b / 4 % 2 ∷ b / 2 % 2 ∷ b % 2 ∷ ds)
      ≡ zeros_below 5 b (zeros ds)
unfolding zeros_below
zeros_of_5 b ds h =
    zeros_step 4 b (b / 16 % 2) (zeros ds) (b / 8 % 2 ∷ b / 4 % 2 ∷ b / 2 % 2 ∷ b % 2 ∷ ds)
      (ground arith) (λ e. zeros_of_4 b ds (ground arith))

zeros_of_6 :
    (b : ℕ) (ds : List ℕ)
    → b < 64
    → zeros (b / 32 % 2 ∷ b / 16 % 2 ∷ b / 8 % 2 ∷ b / 4 % 2 ∷ b / 2 % 2 ∷ b % 2 ∷ ds)
      ≡ zeros_below 6 b (zeros ds)
unfolding zeros_below
zeros_of_6 b ds h =
    zeros_step 5 b (b / 32 % 2) (zeros ds)
      (b / 16 % 2 ∷ b / 8 % 2 ∷ b / 4 % 2 ∷ b / 2 % 2 ∷ b % 2 ∷ ds) (ground arith)
      (λ e. zeros_of_5 b ds (ground arith))

zeros_of_7 :
    (b : ℕ) (ds : List ℕ)
    → b < 128
    → zeros (b / 64 % 2 ∷ b / 32 % 2 ∷ b / 16 % 2 ∷ b / 8 % 2 ∷ b / 4 % 2 ∷ b / 2 % 2 ∷ b % 2 ∷ ds)
      ≡ zeros_below 7 b (zeros ds)
unfolding zeros_below
zeros_of_7 b ds h =
    zeros_step 6 b (b / 64 % 2) (zeros ds)
      (b / 32 % 2 ∷ b / 16 % 2 ∷ b / 8 % 2 ∷ b / 4 % 2 ∷ b / 2 % 2 ∷ b % 2 ∷ ds) (ground arith)
      (λ e. zeros_of_6 b ds (ground arith))

zeros_of_8 :
    (b : ℕ) (ds : List ℕ)
    → b < 256
    → zeros (
        b / 128
        ∷ b / 64 % 2
        ∷ b / 32 % 2
        ∷ b / 16 % 2
        ∷ b / 8 % 2
        ∷ b / 4 % 2
        ∷ b / 2 % 2
        ∷ b % 2
        ∷ ds)
      ≡ zeros_below 8 b (zeros ds)
unfolding zeros_below
zeros_of_8 b ds h =
    zeros_step 7 b (b / 128) (zeros ds)
      (b / 64 % 2 ∷ b / 32 % 2 ∷ b / 16 % 2 ∷ b / 8 % 2 ∷ b / 4 % 2 ∷ b / 2 % 2 ∷ b % 2 ∷ ds)
      (ground arith) (λ e. zeros_of_7 b ds (ground arith))

zeros-byte_bits :
    (b : ℕ) (ds : List ℕ)
    → IsByte b
    → zeros (byte_bits b ++ ds) ≡ (if b == 0 then 8 + zeros ds else leading_zeros b)
unfolding leading_zeros zeros_below
zeros-byte_bits b ds h = zeros_of_8 b ds h ∙ ground arith

-- For a list of bytes `leading_zero_bits` counts the zeros in front of all their bits.
pub leading_zero_bits_lem :
    (hash : Bytes) → All IsByte hash → leading_zero_bits hash ≡ zeros (bits hash)
unfolding leading_zero_bits
leading_zero_bits_lem [] h = refl
leading_zero_bits_lem (b ∷ bs) h =
    ground (arith, zeros-byte_bits b (bits bs) h.0, leading_zero_bits_lem bs h.1)
