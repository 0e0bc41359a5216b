-- ===== src/Identity/Wire/Messages.antt =====
-- The functions of crates/identity/src/wire.rs that build the bytes to sign. SHA-256 is a
-- parameter of the one that uses it.
use wavvon_server.Base.{
  ℕ, ◌^◌, ◌%◌, Bool, List, [], ◌∷◌, ◌++◌, Option, none, some, length, leb, ◌==◌, if◌then◌else◌,
}
use wavvon_server.Identity.Wire.Encode.{
  Bytes, write_u32_le, write_u64_le, write_str, write_str_vec, u32_to_string, tagged,
}

unfoldable pub home_hub_list : Bytes → List Bytes → ℕ → ℕ → Bytes
home_hub_list master_pubkey hubs issued_at sequence = tagged "wavvon/home-hub-list/v1" (
    write_str master_pubkey
    ++ (write_str_vec hubs ++ (write_u64_le issued_at ++ write_u64_le sequence)))

unfoldable pub write_not_after : Option ℕ → Bytes
write_not_after none = 0 ∷ []
write_not_after (some t) = 1 ∷ write_u64_le t

unfoldable pub subkey_cert : Bytes → Bytes → Bytes → ℕ → Option ℕ → List Bytes → Bytes
unfolding write_not_after
subkey_cert master_pubkey subkey_pubkey device_label issued_at not_after fallback_hubs =
    tagged "wavvon/subkey-cert/v1" (
      write_str master_pubkey
      ++ (write_str subkey_pubkey
          ++ (write_str device_label
              ++ (write_u64_le issued_at
                  ++ (write_not_after not_after ++ write_str_vec fallback_hubs)))))

unfoldable pub revocation_entry : Bytes → Bytes → ℕ → Bytes
revocation_entry master_pubkey subkey_pubkey revoked_at =
    tagged "wavvon/revocation/v1"
      (write_str master_pubkey ++ (write_str subkey_pubkey ++ write_u64_le revoked_at))

unfoldable pub signed_prefs_blob : (Bytes → Bytes) → Bytes → ℕ → Bytes → Bytes
signed_prefs_blob sha256 master_pubkey blob_version ciphertext =
    tagged "wavvon/prefs-blob/v1"
      (write_str master_pubkey ++ (write_u64_le blob_version ++ sha256 ciphertext))

unfoldable pub pairing_offer : Bytes → List Bytes → Bytes → ℕ → ℕ → Bytes
pairing_offer master_pubkey home_hubs pairing_token issued_at expires_at =
    tagged "wavvon/pairing-offer/v1" (
      write_str master_pubkey
      ++ (write_str_vec home_hubs
          ++ (write_str pairing_token ++ (write_u64_le issued_at ++ write_u64_le expires_at))))

unfoldable pub pairing_claim : Bytes → Bytes → Bytes → Bytes
pairing_claim pairing_token subkey_pubkey device_label =
    tagged "wavvon/pairing-claim/v1"
      (write_str pairing_token ++ (write_str subkey_pubkey ++ write_str device_label))

-- The source writes the two texts by hand, in the form of `write_str`.
unfoldable pub dh_key_record : Bytes → Bytes → Bytes
dh_key_record pubkey dh_pubkey_hex = tagged "wavvon/dh-key/v1" (
    write_u32_le (length pubkey % 2 ^ 32)
    ++ (pubkey ++ (write_u32_le (length dh_pubkey_hex % 2 ^ 32) ++ dh_pubkey_hex)))

unfoldable pub dm_envelope_signing_bytes : Bytes → Bytes → Bytes → Bytes → Bytes
dm_envelope_signing_bytes conv_id ciphertext_hex nonce_hex dh_pubkey_hex =
    tagged "wavvon/dm-ciphertext/v1" (
      write_str conv_id
      ++ (write_str ciphertext_hex ++ (write_str nonce_hex ++ write_str dh_pubkey_hex)))

unfoldable pub dr_envelope_signing_bytes : Bytes → ℕ → ℕ → Bytes → Bytes → Bytes
dr_envelope_signing_bytes conv_id message_index prev_count ciphertext_hex dh_pubkey_hex =
    tagged "wavvon/dm-ciphertext/v2" (
      write_str conv_id
      ++ (write_u32_le message_index
          ++ (write_u32_le prev_count ++ (write_str ciphertext_hex ++ write_str dh_pubkey_hex))))

unfoldable pub group_dm_envelope_signing_bytes : Bytes → ℕ → ℕ → Bytes → Bytes → Bytes
group_dm_envelope_signing_bytes conv_id sender_key_version iteration ciphertext_hex nonce_hex =
    tagged "wavvon/group-dm-ciphertext/v1" (
      write_str conv_id
      ++ (write_str (u32_to_string sender_key_version)
          ++ (write_str (u32_to_string iteration)
              ++ (write_str ciphertext_hex ++ write_str nonce_hex))))

abbrev pub auth_challenge_len : ℕ
auth_challenge_len = 32

-- `none` is the error of a challenge of another length.
unfoldable pub auth_challenge_signing_bytes : Bytes → Option Bytes
auth_challenge_signing_bytes challenge =
    if length challenge == auth_challenge_len
    then some (tagged "wavvon/auth-challenge/v1" challenge)
    else none

unfoldable pub webhook_delivery_signing_bytes : ℕ → Bytes → Bytes
webhook_delivery_signing_bytes timestamp body =
    tagged "wavvon/webhook-delivery/v1" (write_u64_le timestamp ++ body)

unfoldable pub voice_grant_signing_bytes : Bytes → Bytes
voice_grant_signing_bytes payload_json = tagged "wavvon/alliance-voice-grant/v1" payload_json

unfoldable pub federated_plaintext_dm_signing_bytes : Bytes → Bytes → Bytes → Bytes
federated_plaintext_dm_signing_bytes conversation_id conv_type content =
    tagged "wavvon/federated-dm/v1"
      (write_str conversation_id ++ (write_str conv_type ++ write_str content))

unfoldable pub dm_member_change_signing_bytes : Bytes → Bytes → List Bytes → List Bytes → ℕ → Bytes
dm_member_change_signing_bytes conversation_id actor added removed issued_at =
    tagged "wavvon/dm-member-change/v1" (
      write_str conversation_id
      ++ (write_str actor
          ++ (write_str_vec added ++ (write_str_vec removed ++ write_u64_le issued_at))))

-- `a <= b` of texts: the order of their bytes.
unfoldable pub bytes_le : Bytes → Bytes → Bool
bytes_le [] t = Bool.true
bytes_le (a ∷ s) [] = Bool.false
bytes_le (a ∷ s) (b ∷ t) = let rest = bytes_le s t in if a == b then rest else leb a b

-- `sort_by` on the recipient: a stable sort, here by insertion.
unfoldable pub insert_recipient : Bytes × Bytes → List (Bytes × Bytes) → List (Bytes × Bytes)
unfolding bytes_le
insert_recipient x [] = x ∷ []
insert_recipient x (y ∷ ys) =
    let rest = insert_recipient x ys in if bytes_le x.0 y.0 then x ∷ y ∷ ys else y ∷ rest

unfoldable pub sort_recipients : List (Bytes × Bytes) → List (Bytes × Bytes)
unfolding insert_recipient
sort_recipients [] = []
sort_recipients (x ∷ xs) = insert_recipient x (sort_recipients xs)

unfoldable pub write_recipients : List (Bytes × Bytes) → Bytes
write_recipients [] = []
write_recipients ((pubkey, wrapped_hex) ∷ rest) =
    write_str pubkey ++ (write_str wrapped_hex ++ write_recipients rest)

unfoldable pub sender_key_dist_signing_bytes : Bytes → ℕ → List (Bytes × Bytes) → Bytes
unfolding sort_recipients write_recipients
sender_key_dist_signing_bytes conv_id sender_key_version recipients =
    tagged "wavvon/group-key-dist/v1" (
      write_str conv_id
      ++ (write_str (u32_to_string sender_key_version)
          ++ write_recipients (sort_recipients recipients)))

-- What `recovery_bundle_bytes` writes behind its tag.
unfoldable pub recovery_bundle_bytes : Bytes → Bytes → Bytes → Bytes → Bytes
recovery_bundle_bytes hub_pubkey old_pubkey new_pubkey rest =
    write_str hub_pubkey ++ (write_str old_pubkey ++ (write_str new_pubkey ++ rest))

unfoldable pub recovery_request_signing_bytes : Bytes → Bytes → Bytes → Bytes
unfolding recovery_bundle_bytes
recovery_request_signing_bytes hub_pubkey old_pubkey new_pubkey =
    tagged "wavvon/recovery-request/v1" (recovery_bundle_bytes hub_pubkey old_pubkey new_pubkey [])

unfoldable pub recovery_attestation_signing_bytes : Bytes → Bytes → Bytes → Bytes → Bytes
unfolding recovery_bundle_bytes
recovery_attestation_signing_bytes hub_pubkey old_pubkey new_pubkey request_nonce =
    tagged "wavvon/recovery-attestation/v1"
      (recovery_bundle_bytes hub_pubkey old_pubkey new_pubkey (write_str request_nonce))

pub record PublicHubEntry : Type 0 where
  pub hub_url : Bytes
  pub hub_name : Bytes
  pub joined_at : ℕ

unfoldable pub write_entries : List PublicHubEntry → Bytes
write_entries [] = []
write_entries (e ∷ es) =
    write_str e.hub_url ++ (write_str e.hub_name ++ (write_u64_le e.joined_at ++ write_entries es))

unfoldable pub public_hub_profile : Bytes → List PublicHubEntry → ℕ → Bytes
unfolding write_entries
public_hub_profile pubkey public_hubs issued_at = tagged "wavvon/public-hub-profile/v1" (
    write_str pubkey
    ++ (write_u64_le issued_at
        ++ (write_u32_le (length public_hubs % 2 ^ 32) ++ write_entries public_hubs)))
