-- ===== src/Identity/Voice.antt =====
-- crates/identity/src/voice.rs: the wrapping of a sender's key for one recipient, and the sealing of
-- packets. AES-256-GCM, X25519 and HKDF are parameters: a call that fails is `none`, and the
-- encryption of a packet does not fail. The nonce of a wrapped key, which the source draws, is an
-- argument.
pub mod Laws
mod Examples
use wavvon_server.Base.{
  ℕ, ◌+◌, ◌*◌, ◌/◌, ◌%◌, ◌==◌, ltb, Bool, true, false, List, [], ◌∷◌, ◌++◌, Option, none, some,
  length, take, drop, if◌then◌else◌,
}
use wavvon_server.Identity.Wire.Encode.{Bytes, codes}

-- `to_be_bytes` of a `u32`, and back.
unfoldable pub be_u32 : ℕ → Bytes
be_u32 n = n / 16777216 % 256 ∷ n / 65536 % 256 ∷ n / 256 % 256 ∷ n % 256 ∷ []

-- `u64::to_be_bytes`: the upper half, and the lower.
unfoldable pub be_u64 : ℕ → Bytes
unfolding be_u32
be_u64 n = be_u32 (n / 4294967296) ++ be_u32 (n % 4294967296)

-- `from_be_bytes`
unfoldable pub from_be : ℕ → Bytes → ℕ
from_be n [] = n
from_be n (b ∷ bs) = from_be (n * 256 + b) bs

abbrev pub packet_header_len : ℕ
packet_header_len = 16

abbrev pub wrap_plaintext_len : ℕ
wrap_plaintext_len = 40

-- The bytes `from..from + n` of a slice.
abbrev pub slice : ℕ → ℕ → Bytes → Bytes
slice from n bs = take n (drop from bs)

unfoldable pub header : ℕ → ℕ → ℕ → Bytes
unfolding be_u32 be_u64
header key_id ctr ts = be_u32 key_id ++ (be_u64 ctr ++ be_u32 ts)

unfoldable pub packet_nonce : Bytes → ℕ → Bytes
unfolding be_u64
packet_nonce nonce_salt ctr = nonce_salt ++ be_u64 ctr

-- The decrypted text of a wrapped key: the key, its salt and its id.
unfoldable pub read_wrapped : Bytes → Option (Bytes × Bytes × ℕ)
unfolding from_be
read_wrapped plaintext =
    if length plaintext == wrap_plaintext_len
    then some (take 32 plaintext, slice 32 4 plaintext, from_be 0 (slice 36 4 plaintext))
    else none

-- The key, the nonce, what is authenticated besides, and the text.
module _ (encrypt : Bytes → Bytes → Bytes → Bytes → Bytes)
    (decrypt : Bytes → Bytes → Bytes → Bytes → Option Bytes) where
  unfoldable pub voice_packet_seal : Bytes → Bytes → ℕ → ℕ → ℕ → Bytes → Bytes
  unfolding header packet_nonce
  voice_packet_seal sender_key nonce_salt key_id ctr ts opus =
      header key_id ctr ts
      ++ encrypt sender_key (packet_nonce nonce_salt ctr) (header key_id ctr ts) opus

  -- The answer is the key's id, the counter, the time and the sound.
  unfoldable pub voice_packet_open : Bytes → Bytes → Bytes → Option (ℕ × ℕ × ℕ × Bytes)
  unfolding packet_nonce from_be
  voice_packet_open sender_key nonce_salt packet =
      let head = take packet_header_len packet in
      let ctr = from_be 0 (slice 4 8 head) in
      if ltb (length packet) (packet_header_len + 16)
      then none
      else elim (decrypt sender_key (packet_nonce nonce_salt ctr) head
          (drop packet_header_len packet)) [
            | none ↦ none
            | some opus ↦ some (from_be 0 (slice 0 4 head), ctr, from_be 0 (slice 12 4 head), opus)
          ]

  -- The secret of a seed, what two keys agree on, and the derived key for a salt.
  module _ (secret_of : Bytes → Bytes) (diffie_hellman : Bytes → Bytes → Bytes)
      (hkdf : Bytes → Bytes → Bytes → Bytes) where
    unfoldable pub voice_wrap_key : Bytes → Bytes → Bytes
    voice_wrap_key shared_secret channel_id =
        hkdf channel_id shared_secret (codes "wavvon/voice-key/v1")

    unfoldable pub voice_key_wrap_with_nonce :
        Bytes → Bytes → Bytes → Bytes → Bytes → ℕ → Bytes → Bytes
    unfolding voice_wrap_key be_u32
    voice_key_wrap_with_nonce seed recipient_pub channel_id sender_key nonce_salt key_id nonce =
        encrypt (voice_wrap_key (diffie_hellman (secret_of seed) recipient_pub) channel_id) nonce []
          (sender_key ++ (nonce_salt ++ be_u32 key_id))

    -- The answer is the key, its salt and its id.
    unfoldable pub voice_key_unwrap :
        Bytes → Bytes → Bytes → Bytes → Bytes → Option (Bytes × Bytes × ℕ)
    unfolding voice_wrap_key read_wrapped
    voice_key_unwrap seed sender_pub channel_id ciphertext wrap_nonce =
        elim (decrypt (voice_wrap_key (diffie_hellman (secret_of seed) sender_pub) channel_id)
          wrap_nonce [] ciphertext) [ none ↦ none | some plaintext ↦ read_wrapped plaintext ]
