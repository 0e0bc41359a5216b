-- ===== src/Identity/Voice/Examples.antt =====
-- The theorems about packets and wrapped keys, applied to a cipher that adds sixteen zeros.
use wavvon_server.Base.{
  ℕ, zero, suc, ◌+◌, ◌-◌, ◌≡◌, refl, ◌∙◌, ap, [], ◌∷◌, ◌++◌, Option, some, length, length-append,
  take, arith,
}
use wavvon_server.Identity.Wire.Encode.{Bytes}
use wavvon_server.Identity.Voice.{
  voice_packet_seal, voice_packet_open, voice_key_wrap_with_nonce, voice_key_unwrap,
}
use wavvon_server.Identity.Voice.Laws.{IsAead, voice_packet_open-seal, voice_key_unwrap-wrap}

abbrev zeros : ℕ → Bytes
zeros zero = []
zeros (suc n) = 0 ∷ zeros n

abbrev encrypt : Bytes → Bytes → Bytes → Bytes → Bytes
encrypt k n a m = m ++ zeros 16

abbrev decrypt : Bytes → Bytes → Bytes → Bytes → Option Bytes
decrypt k n a c = some (take (length c - 16) c)

take-front : (m : Bytes) → take (length m) (m ++ zeros 16) ≡ m
take-front [] = refl
take-front (b ∷ m) = ap (λ r. b ∷ r) (take-front m)

decrypt-encrypt : (k n a m : Bytes) → decrypt k n a (encrypt k n a m) ≡ some m
decrypt-encrypt k n a m =
    let whole : length (m ++ zeros 16) ≡ length m + 16 = length-append m (zeros 16) in
    let short : length (m ++ zeros 16) - 16 ≡ length m = omega (arith, whole) in
    ap some (ap (λ i. take i (m ++ zeros 16)) short ∙ take-front m)

cipher : IsAead encrypt decrypt
cipher = record { opens = decrypt-encrypt; tagged = λ k n a m. length-append m (zeros 16) }

abbrev same : Bytes → Bytes
same s = s

-- Two parties agree on no secret at all.
abbrev agreed : Bytes → Bytes → Bytes
agreed a b = []

abbrev derived : Bytes → Bytes → Bytes → Bytes
derived a b c = c

voice_packet_open-seal_example :
    voice_packet_open encrypt decrypt
      (1 ∷ [])
      (0 ∷ 1 ∷ 2 ∷ 3 ∷ [])
      (voice_packet_seal encrypt decrypt (1 ∷ []) (0 ∷ 1 ∷ 2 ∷ 3 ∷ []) 7 300 60000 (9 ∷ 8 ∷ []))
    ≡ some (7, 300, 60000, 9 ∷ 8 ∷ [])
voice_packet_open-seal_example =
    voice_packet_open-seal encrypt decrypt (1 ∷ []) (0 ∷ 1 ∷ 2 ∷ 3 ∷ []) 7 300 60000 (9 ∷ 8 ∷ [])
      cipher (omega arith) (omega arith) (omega arith)

voice_key_unwrap-wrap_example :
    voice_key_unwrap encrypt decrypt same agreed derived
      (2 ∷ [])
      (1 ∷ [])
      (5 ∷ [])
      (voice_key_wrap_with_nonce encrypt decrypt same agreed derived
        (1 ∷ [])
        (2 ∷ [])
        (5 ∷ [])
        (zeros 32)
        (4 ∷ 3 ∷ 2 ∷ 1 ∷ [])
        7
        (zeros 12))
      (zeros 12)
    ≡ some (zeros 32, 4 ∷ 3 ∷ 2 ∷ 1 ∷ [], 7)
voice_key_unwrap-wrap_example =
    voice_key_unwrap-wrap encrypt decrypt same same agreed derived (1 ∷ []) (2 ∷ []) (5 ∷ [])
      (zeros 32) (4 ∷ 3 ∷ 2 ∷ 1 ∷ []) (zeros 12) 7 cipher (λ a b. refl) refl refl (omega arith)
