-- ===== src/Identity/Examples.antt =====
-- The theorems about signed bytes and proof of work, applied.
use wavvon_server.Identity.Pow.{
  leading_zero_bits, hash_level, verify_security_level, compute_security_level,
}
use wavvon_server.Identity.Pow.Laws.{leading_zero_bits_lem}
use wavvon_server.Identity.Pow.Search.{
  compute_security_level-verifies, compute_security_level-finds,
}
use wavvon_server.Base.{◌≤◌, false, ◌++◌, some, ℕ, ◌≡◌, refl, List, [], ◌∷◌, arith}
use wavvon_server.Identity.Wire.Encode.{Bytes, codes, le_bytes}
use wavvon_server.Identity.Wire.Messages.{sort_recipients}
use wavvon_server.Identity.Wire.Kinds.{Kind, signing_bytes}
use wavvon_server.Identity.Wire.Domains.{signing_bytes-same_kind}
use wavvon_server.Identity.Wire.Injective.{SameContent, signing_bytes-injective}

-- Stands for the digest.
abbrev digest : Bytes → Bytes
digest s = s

-- One distribution of a sender key, listed in two orders.
abbrev distributed : Bytes × ℕ × List (Bytes × Bytes)
distributed = (codes "conv", 7, (codes "alice", codes "01") ∷ (codes "bob", codes "02") ∷ [])

abbrev redistributed : Bytes × ℕ × List (Bytes × Bytes)
redistributed = (codes "conv", 7, (codes "bob", codes "02") ∷ (codes "alice", codes "01") ∷ [])

signing_bytes-same_kind_example : Kind.key_dist ≡ Kind.key_dist
unfolding signing_bytes
signing_bytes-same_kind_example =
    signing_bytes-same_kind digest Kind.key_dist Kind.key_dist distributed redistributed refl refl

signing_bytes-injective_example : SameContent digest Kind.key_dist distributed redistributed
unfolding signing_bytes sort_recipients
signing_bytes-injective_example =
    signing_bytes-injective digest Kind.key_dist distributed redistributed
      (omega arith, omega arith, ((omega arith, omega arith), ((omega arith, omega arith), tt)))
      (omega arith, omega arith, ((omega arith, omega arith), ((omega arith, omega arith), tt)))
      refl

leading_zero_bits_lem_example : leading_zero_bits (0 ∷ 1 ∷ 255 ∷ []) ≡ 15
leading_zero_bits_lem_example =
    leading_zero_bits_lem (0 ∷ 1 ∷ 255 ∷ []) (omega arith, (omega arith, (omega arith, tt)))

-- The bytes of 256 begin with a zero, and those of 254 and 255 do not.
compute_security_level-verifies_example :
    (15 ≡ leading_zero_bits (digest ([] ++ le_bytes 8 256)))
    × (8 ≤ 15)
    × (verify_security_level digest [] 256 16 ≡ false)
unfolding compute_security_level
compute_security_level-verifies_example =
    compute_security_level-verifies digest [] 8 10 254 256 15 16 refl

compute_security_level-finds_example :
    (r : ℕ × ℕ) × (compute_security_level digest 10 [] 254 8 ≡ some r)
unfolding hash_level
compute_security_level-finds_example =
    compute_security_level-finds digest [] 8 10 254 256 (omega arith) (omega arith) (omega arith)
      (omega arith)
