-- ===== src/Identity/Pow/Search.antt =====
-- What the search of crates/identity/src/pow.rs finds.
use wavvon_server.Base.{
  ℕ, zero, suc, ◌+◌, ◌≤◌, ◌<◌, ◌≡◌, ◌∙◌, ap, sym, ◌++◌, true, some, arith, ltb, leb, inl, inr,
  Bool-cases,
}
use wavvon_server.Identity.Wire.Encode.{Bytes, le_bytes}
use wavvon_server.Identity.Pow.{
  leading_zero_bits, hash_level, verify_security_level, search, compute_security_level,
}

module _ (sha256 : Bytes → Bytes) (key : Bytes) (target : ℕ) where
  search_sound :
      (fuel nonce best n level : ℕ)
      → search sha256 fuel key nonce best target ≡ some (n, level)
      → (level ≡ hash_level sha256 key n) × (target ≤ level)
  unfolding search
  search_sound zero nonce best n level e = cc
  search_sound (suc fuel) nonce best n level e = (
    ground (
      arith,
      search_sound fuel (suc nonce) (hash_level sha256 key (suc nonce)) n level,
      search_sound fuel (suc nonce) best n level,
    ),
    ground (
      arith,
      search_sound fuel (suc nonce) (hash_level sha256 key (suc nonce)) n level,
      search_sound fuel (suc nonce) best n level,
    ),
  )

  compute_security_level_sound :
      (fuel start n level : ℕ)
      → compute_security_level sha256 fuel key start target ≡ some (n, level)
      → (level ≡ hash_level sha256 key n) × (target ≤ level)
  unfolding compute_security_level
  compute_security_level_sound fuel start n level e = (
    ground (
      arith,
      search_sound fuel start (hash_level sha256 key start) n level,
      search_sound fuel start 0 n level,
    ),
    ground (
      arith,
      search_sound fuel start (hash_level sha256 key start) n level,
      search_sound fuel start 0 n level,
    ),
  )

  verify_security_level_lem :
      (n claimed : ℕ)
      → verify_security_level sha256 key n claimed ≡ leb claimed (hash_level sha256 key n)
  unfolding verify_security_level
  verify_security_level_lem n claimed = ground arith

  -- A nonce that the search returns is of the level that it returns: the hash of the key and the
  -- nonce begins with as many zeros. The level is at least the target, and the nonce passes the
  -- check of a claimed level exactly when that is no more than the level.
  pub compute_security_level-verifies :
      (fuel start n level claimed : ℕ)
      → compute_security_level sha256 fuel key start target ≡ some (n, level)
      → (level ≡ leading_zero_bits (sha256 (key ++ le_bytes 8 n)))
        × (target ≤ level)
        × (verify_security_level sha256 key n claimed ≡ leb claimed level)
  unfolding hash_level
  compute_security_level-verifies fuel start n level claimed e =
      let (same, reached) = compute_security_level_sound fuel start n level e in
      (same, reached, verify_security_level_lem n claimed ∙ ap (leb claimed) (sym same))

  not_this :
      (nonce n : ℕ)
      → nonce < n
      → target ≤ hash_level sha256 key n
      → hash_level sha256 key (suc nonce) < target
      → suc nonce < n
  not_this nonce n h t e = ground arith

  search-finds :
      (fuel nonce best n : ℕ)
      → best < target
      → nonce < n
      → n ≤ nonce + fuel
      → target ≤ hash_level sha256 key n
      → (r : ℕ × ℕ) × (search sha256 fuel key nonce best target ≡ some r)
  unfolding search
  search-finds zero nonce best n b h f t = absurd (omega arith)
  search-finds (suc fuel) nonce best n b h f t =
      elim (Bool-cases (leb target (hash_level sha256 key (suc nonce)))) [
        | inl e ↦ ((suc nonce, hash_level sha256 key (suc nonce)), ground arith)
        | inr e ↦
            let later : suc nonce < n = not_this nonce n h t (ground arith) in
            elim (Bool-cases (ltb best (hash_level sha256 key (suc nonce)))) [
              | inl k ↦
                  let (r, found) =
                    search-finds fuel (suc nonce) (hash_level sha256 key (suc nonce)) n
                      (ground arith) later (omega arith) t in
                  (r, ground arith)
              | inr k ↦
                  let (r, found) = search-finds fuel (suc nonce) best n b later (omega arith) t in
                  (r, ground arith)
            ]
      ]

  -- Where some nonce behind the first reaches a target that is not 0, the search ends with a
  -- result as soon as its fuel reaches that nonce.
  pub compute_security_level-finds :
      (fuel start n : ℕ)
      → 0 < target
      → start < n
      → n ≤ start + fuel
      → target ≤ hash_level sha256 key n
      → (r : ℕ × ℕ) × (compute_security_level sha256 fuel key start target ≡ some r)
  unfolding compute_security_level
  compute_security_level-finds fuel start n p h f t =
      let level = hash_level sha256 key start in
      let (r, found) = search-finds fuel start 0 n p h f t in
      elim (Bool-cases (leb target level)) [
        | inl e ↦ first r found e
        | inr e ↦
            let (s, later) = search-finds fuel start level n (ground arith) h f t in
            elim (Bool-cases (ltb 0 start)) [
              | inl k ↦ (s, ground arith)
              | inr k ↦ (r, ground arith)
            ]
      ]
    where
      first :
          (r : ℕ × ℕ)
          → search sha256 fuel key start 0 target ≡ some r
          → leb target (hash_level sha256 key start) ≡ true
          → (r : ℕ × ℕ) × (compute_security_level sha256 fuel key start target ≡ some r)
      first r found e = elim (Bool-cases (ltb 0 start)) [
        | inl k ↦ ((start, hash_level sha256 key start), ground arith)
        | inr k ↦ (r, ground arith)
      ]
