-- ===== src/Identity/Pow.antt =====
-- crates/identity/src/pow.rs: proof of work over the hash of a key and a nonce. SHA-256 is a
-- parameter. The search has no end in the source where no nonce does, and here it stops without a
-- result when its fuel is spent. The nonce is a natural number; that of the source is a `u64`, whose
-- increment overflows after the last.
pub mod Laws
pub mod Search
use wavvon_server.Base.{
  ℕ, zero, suc, ◌+◌, Bool, true, List, [], ◌∷◌, ◌++◌, Option, none, some, ltb, leb, ◌==◌,
  if◌then◌else◌,
}
use wavvon_server.Identity.Wire.Encode.{Bytes, le_bytes}

-- `u8::leading_zeros`
unfoldable pub leading_zeros : ℕ → ℕ
leading_zeros b =
    if leb 128 b
    then 0
    else if leb 64 b
    then 1
    else if leb 32 b
    then 2
    else if leb 16 b
    then 3
    else if leb 8 b
    then 4
    else if leb 4 b
    then 5
    else if leb 2 b
    then 6
    else if leb 1 b
    then 7
    else 8

-- The loop ends at the first byte that is not 0.
unfoldable pub leading_zero_bits : Bytes → ℕ
unfolding leading_zeros
leading_zero_bits [] = 0
leading_zero_bits (b ∷ bs) =
    let rest = leading_zero_bits bs in if b == 0 then 8 + rest else leading_zeros b

module _ (sha256 : Bytes → Bytes) where
  unfoldable pub hash_level : Bytes → ℕ → ℕ
  unfolding leading_zero_bits le_bytes
  hash_level public_key_hex nonce = leading_zero_bits (sha256 (public_key_hex ++ le_bytes 8 nonce))

  unfoldable pub verify_security_level : Bytes → ℕ → ℕ → Bool
  unfolding hash_level
  verify_security_level public_key_hex nonce claimed_level =
      if claimed_level == 0 then true else leb claimed_level (hash_level public_key_hex nonce)

  -- The loop, from the nonce before the first that it tries.
  unfoldable pub search : ℕ → Bytes → ℕ → ℕ → ℕ → Option (ℕ × ℕ)
  unfolding hash_level
  search zero key nonce best_level target = none
  search (suc fuel) key nonce best_level target =
      let level = hash_level key (suc nonce) in
      let better = search fuel key (suc nonce) level target in
      let same = search fuel key (suc nonce) best_level target in
      if ltb best_level level
      then (if leb target level then some (suc nonce, level) else better)
      else same

  unfoldable pub compute_security_level : ℕ → Bytes → ℕ → ℕ → Option (ℕ × ℕ)
  unfolding search
  compute_security_level fuel key start_nonce target_level =
      let level = hash_level key start_nonce in
      if ltb 0 start_nonce
      then (if leb target_level level
          then some (start_nonce, level)
          else search fuel key start_nonce level target_level)
      else search fuel key start_nonce 0 target_level
