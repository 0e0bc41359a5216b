-- ===== src/Identity/Voice/Laws.antt =====
-- About opening what was sealed, and unwrapping what was wrapped.
use wavvon_server.Base.{
  ℕ, zero, suc, ◌+◌, ◌^◌, ◌<◌, ◌==◌, ltb, true, false, ◌≡◌, refl, sym, ◌∙◌, ap, [], ◌∷◌, ◌++◌,
  Option, some, length, length-append, take, drop, arith,
}
use wavvon_server.Identity.Wire.Encode.{Bytes}
use wavvon_server.Identity.Voice.{
  be_u32, be_u64, from_be, header, packet_nonce, slice, read_wrapped, voice_packet_seal,
  voice_packet_open, voice_wrap_key, voice_key_wrap_with_nonce, voice_key_unwrap,
}

from_be-be_u32 : (n : ℕ) → n < 2 ^ 32 → from_be 0 (be_u32 n) ≡ n
unfolding from_be be_u32
from_be-be_u32 n h = omega arith

pub from_be-be_u64 : (n : ℕ) → n < 2 ^ 64 → from_be 0 (be_u64 n) ≡ n
unfolding from_be be_u64 be_u32
from_be-be_u64 n h = omega arith

-- What is promised of the ciphers: who decrypts with the same key, nonce and data gets the text, and
-- a ciphertext is 16 bytes longer.
pub record IsAead (encrypt : Bytes → Bytes → Bytes → Bytes → Bytes)
    (decrypt : Bytes → Bytes → Bytes → Bytes → Option Bytes) : Type 0 where
  pub opens : (k n a m : Bytes) → decrypt k n a (encrypt k n a m) ≡ some m
  pub tagged : (k n a m : Bytes) → length (encrypt k n a m) ≡ length m + 16

-- The layout: 16 bytes of header, and in them the id, the counter and the time.
take-header :
    (key_id ctr ts : ℕ) (ct : Bytes) → take 16 (header key_id ctr ts ++ ct) ≡ header key_id ctr ts
unfolding header be_u64 be_u32
take-header key_id ctr ts ct = refl

drop-header : (key_id ctr ts : ℕ) (ct : Bytes) → drop 16 (header key_id ctr ts ++ ct) ≡ ct
unfolding header be_u64 be_u32
drop-header key_id ctr ts ct = refl

length-header :
    (key_id ctr ts : ℕ) (ct : Bytes) → length (header key_id ctr ts ++ ct) ≡ 16 + length ct
unfolding header be_u64 be_u32
length-header key_id ctr ts ct = omega arith

key_id-header :
    (key_id ctr ts : ℕ) → key_id < 2 ^ 32 → from_be 0 (slice 0 4 (header key_id ctr ts)) ≡ key_id
unfolding header be_u64 be_u32
key_id-header key_id ctr ts h = from_be-be_u32 key_id h

ctr-header : (key_id ctr ts : ℕ) → ctr < 2 ^ 64 → from_be 0 (slice 4 8 (header key_id ctr ts)) ≡ ctr
unfolding header be_u64 be_u32
ctr-header key_id ctr ts h = from_be-be_u64 ctr h

ts-header : (key_id ctr ts : ℕ) → ts < 2 ^ 32 → from_be 0 (slice 12 4 (header key_id ctr ts)) ≡ ts
unfolding header be_u64 be_u32
ts-header key_id ctr ts h = from_be-be_u32 ts h

module _ (encrypt : Bytes → Bytes → Bytes → Bytes → Bytes)
    (decrypt : Bytes → Bytes → Bytes → Bytes → Option Bytes) where
  -- What `voice_packet_open` answers for a packet of known parts.
  voice_packet_open-parts :
      (key salt packet head ct opus : Bytes) (key_id ctr ts : ℕ)
      → take 16 packet ≡ head
      → drop 16 packet ≡ ct
      → ltb (length packet) 32 ≡ false
      → from_be 0 (slice 0 4 head) ≡ key_id
      → from_be 0 (slice 4 8 head) ≡ ctr
      → from_be 0 (slice 12 4 head) ≡ ts
      → decrypt key (packet_nonce salt ctr) head ct ≡ some opus
      → voice_packet_open encrypt decrypt key salt packet ≡ some (key_id, ctr, ts, opus)
  unfolding voice_packet_open
  voice_packet_open-parts key salt packet head ct opus key_id ctr ts eh ec el ek en et ed =
      rw (eh, ec, el, en, ed, eh, ek, en, et) refl

  -- A sealed packet opens, under the key and the salt that it was sealed with, to what was sealed:
  -- for a cipher that keeps its promise, and fields that fit their widths.
  pub voice_packet_open-seal :
      (sender_key nonce_salt : Bytes) (key_id ctr ts : ℕ) (opus : Bytes)
      → IsAead encrypt decrypt
      → key_id < 2 ^ 32
      → ctr < 2 ^ 64
      → ts < 2 ^ 32
      → voice_packet_open encrypt decrypt sender_key nonce_salt
          (voice_packet_seal encrypt decrypt sender_key nonce_salt key_id ctr ts opus)
        ≡ some (key_id, ctr, ts, opus)
  unfolding voice_packet_seal
  voice_packet_open-seal sender_key nonce_salt key_id ctr ts opus aead hk hc ht =
      let head = header key_id ctr ts in
      let nonce = packet_nonce nonce_salt ctr in
      let ct = encrypt sender_key nonce head opus in
      voice_packet_open-parts sender_key nonce_salt (head ++ ct) head ct opus key_id ctr ts
        (take-header key_id ctr ts ct) (drop-header key_id ctr ts ct)
        (ground (arith, length-header key_id ctr ts ct, aead.tagged sender_key nonce head opus))
        (key_id-header key_id ctr ts hk) (ctr-header key_id ctr ts hc) (ts-header key_id ctr ts ht)
        (aead.opens sender_key nonce head opus)

take-append : (xs ys : Bytes) (n : ℕ) → length xs ≡ n → take n (xs ++ ys) ≡ xs
take-append [] ys zero h = refl
take-append [] ys (suc n) h = absurd (omega arith)
take-append (x ∷ xs) ys zero h = absurd (omega arith)
take-append (x ∷ xs) ys (suc n) h = ap (λ zs. x ∷ zs) (take-append xs ys n (omega arith))

drop-append : (xs ys : Bytes) (n : ℕ) → length xs ≡ n → drop n (xs ++ ys) ≡ ys
drop-append [] ys zero h = refl
drop-append [] ys (suc n) h = absurd (omega arith)
drop-append (x ∷ xs) ys zero h = absurd (omega arith)
drop-append (x ∷ xs) ys (suc n) h = drop-append xs ys n (omega arith)

append_assoc : (xs ys zs : Bytes) → (xs ++ ys) ++ zs ≡ xs ++ (ys ++ zs)
append_assoc [] ys zs = refl
append_assoc (x ∷ xs) ys zs = ap (λ r. x ∷ r) (append_assoc xs ys zs)

take-four : (n : ℕ) → take 4 (be_u32 n) ≡ be_u32 n
unfolding be_u32
take-four n = refl

length-be_u32 : (n : ℕ) → length (be_u32 n) ≡ 4
unfolding be_u32
length-be_u32 n = refl

-- The layout of the text that is encrypted.
read_wrapped_lem :
    (key salt : Bytes) (key_id : ℕ)
    → length key ≡ 32
    → length salt ≡ 4
    → key_id < 2 ^ 32
    → read_wrapped (key ++ (salt ++ be_u32 key_id)) ≡ some (key, salt, key_id)
unfolding read_wrapped
read_wrapped_lem key salt key_id hk hs hi =
    let id = be_u32 key_id in
    let whole : (length (key ++ (salt ++ id)) == 40) ≡ true =
      ground (arith, length-append key (salt ++ id), length-append salt id, length-be_u32 key_id) in
    let front : take 32 (key ++ (salt ++ id)) ≡ key = take-append key (salt ++ id) 32 hk in
    let middle : slice 32 4 (key ++ (salt ++ id)) ≡ salt =
      ap (take 4) (drop-append key (salt ++ id) 32 hk) ∙ take-append salt id 4 hs in
    let end : slice 36 4 (key ++ (salt ++ id)) ≡ id =
      ap (slice 36 4) (sym (append_assoc key salt id))
      ∙ ap (take 4) (drop-append (key ++ salt) id 36 (omega (arith, length-append key salt)))
      ∙ take-four key_id in
    rw (whole, front, middle, end, from_be-be_u32 key_id hi) refl

-- Two parties agree on a secret, each from the own seed and the other's public key.
abbrev pub IsAgreement : (Bytes → Bytes) → (Bytes → Bytes) → (Bytes → Bytes → Bytes) → Type 0
IsAgreement secret_of public_of dh =
    (a b : Bytes) → dh (secret_of a) (public_of b) ≡ dh (secret_of b) (public_of a)

module _ (encrypt : Bytes → Bytes → Bytes → Bytes → Bytes)
    (decrypt : Bytes → Bytes → Bytes → Bytes → Option Bytes) (secret_of public_of : Bytes → Bytes)
    (dh : Bytes → Bytes → Bytes) (hkdf : Bytes → Bytes → Bytes → Bytes) where
  -- What `voice_key_unwrap` answers for a plaintext of three parts of their lengths.
  voice_key_unwrap-parts :
      (seed public channel ct nonce key salt : Bytes) (key_id : ℕ)
      → length key ≡ 32
      → length salt ≡ 4
      → key_id < 2 ^ 32
      → decrypt
          (voice_wrap_key encrypt decrypt secret_of dh hkdf (dh (secret_of seed) public) channel)
          nonce
          []
          ct
        ≡ some (key ++ (salt ++ be_u32 key_id))
      → voice_key_unwrap encrypt decrypt secret_of dh hkdf seed public channel ct nonce
        ≡ some (key, salt, key_id)
  unfolding voice_key_unwrap
  voice_key_unwrap-parts seed public channel ct nonce key salt key_id hk hs hi e =
      rw (e, voice_key_unwrap) (read_wrapped_lem key salt key_id hk hs hi)

  -- A wrapped key unwraps, for the recipient that it was wrapped for and with the sender's public
  -- key, to the key, its salt and its id: for a cipher and an agreement that keep their promises,
  -- and parts of the right lengths.
  pub voice_key_unwrap-wrap :
      (sender recipient channel key salt nonce : Bytes) (key_id : ℕ)
      → IsAead encrypt decrypt
      → IsAgreement secret_of public_of dh
      → length key ≡ 32
      → length salt ≡ 4
      → key_id < 2 ^ 32
      → voice_key_unwrap encrypt decrypt secret_of dh hkdf recipient
          (public_of sender)
          channel
          (voice_key_wrap_with_nonce encrypt decrypt secret_of dh hkdf sender
            (public_of recipient)
            channel
            key
            salt
            key_id
            nonce)
          nonce
        ≡ some (key, salt, key_id)
  unfolding voice_key_wrap_with_nonce
  voice_key_unwrap-wrap sender recipient channel key salt nonce key_id aead agree hk hs hi =
      voice_key_unwrap-parts recipient (public_of sender) channel _ nonce key salt key_id hk hs hi
        (rw (agree recipient sender) (aead.opens _ nonce [] (key ++ (salt ++ be_u32 key_id))))
