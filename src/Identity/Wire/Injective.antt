-- ===== src/Identity/Wire/Injective.antt =====
-- What the bytes of crates/identity/src/wire.rs determine of the message that is signed.
use wavvon_server.Base.{◌^◌, ◌%◌, ◌≡◌, sym, ◌∙◌, some, arith, length}
use wavvon_server.Identity.Wire.Encode.{Bytes}
use wavvon_server.Identity.Wire.Encode.Split.{
  write_u32_le-split, write_u64_le-split, write_str-split, write_str_vec-split, write_str-injective,
  write_u64_le-injective, write_str_vec-injective, prefixed-split, prefixed-injective, tagged-split,
}
use wavvon_server.Identity.Wire.Messages.{
  home_hub_list, subkey_cert, revocation_entry, signed_prefs_blob, pairing_offer, pairing_claim,
  dh_key_record, dm_envelope_signing_bytes, dr_envelope_signing_bytes,
  group_dm_envelope_signing_bytes, webhook_delivery_signing_bytes, voice_grant_signing_bytes,
  federated_plaintext_dm_signing_bytes, dm_member_change_signing_bytes, sort_recipients,
  sender_key_dist_signing_bytes, recovery_bundle_bytes, recovery_request_signing_bytes,
  recovery_attestation_signing_bytes, public_hub_profile,
}
use wavvon_server.Identity.Wire.Kinds.{Kind, Payload, IsValid, signing_bytes}
use wavvon_server.Identity.Wire.Fields.{
  write_not_after-split, write_recipients-injective, write_entries-injective, write_number-split,
  auth_challenge_signing_bytes-accepts,
}

some-eq : {x y : Bytes} → some x ≡ some y → x ≡ y
some-eq e = cc

module _ (sha256 : Bytes → Bytes) where
  -- The two payloads are one: of the preferences the ciphertext counts by its digest, and of the
  -- recipients of a sender key the order does not count.
  abbrev pub SameContent : (k : Kind) → Payload k → Payload k → Type 0
  SameContent Kind.prefs x y = (x.0 ≡ y.0) × (x.1 ≡ y.1) × (sha256 x.2 ≡ sha256 y.2)
  SameContent Kind.key_dist x y =
      (x.0 ≡ y.0) × (x.1 ≡ y.1) × (sort_recipients x.2 ≡ sort_recipients y.2)
  SameContent k x y = x ≡ y

  -- If the fields fit their encodings, then two messages of one kind with the same signed bytes
  -- have the same content: the fields are equal, where for a preferences blob the digest stands
  -- for the ciphertext, and for a key distribution the sorted recipients stand for the
  -- recipients.
  pub signing_bytes-injective :
      (k : Kind) (x y : Payload k)
      → IsValid k x
      → IsValid k y
      → signing_bytes sha256 k x ≡ signing_bytes sha256 k y
      → SameContent k x y
  unfolding signing_bytes home_hub_list subkey_cert revocation_entry signed_prefs_blob pairing_offer
      pairing_claim dh_key_record dm_envelope_signing_bytes dr_envelope_signing_bytes
      group_dm_envelope_signing_bytes webhook_delivery_signing_bytes voice_grant_signing_bytes
      federated_plaintext_dm_signing_bytes dm_member_change_signing_bytes
      sender_key_dist_signing_bytes recovery_request_signing_bytes recovery_bundle_bytes
      recovery_attestation_signing_bytes public_hub_profile
  signing_bytes-injective Kind.home_hubs x y a b e =
      let e0 = tagged-split "wavvon/home-hub-list/v1" (some-eq e) in
      let (h0, e1) = write_str-split x.0 y.0 a.0 b.0 e0 in
      let (h1, e2) = write_str_vec-split x.1 y.1 a.1 b.1 e1 in
      let (h2, e3) = write_u64_le-split x.2 y.2 a.2 b.2 e2 in
      let h3 = write_u64_le-injective x.3 y.3 a.3 b.3 e3 in cc
  signing_bytes-injective Kind.revocation x y a b e =
      let e0 = tagged-split "wavvon/revocation/v1" (some-eq e) in
      let (h0, e1) = write_str-split x.0 y.0 a.0 b.0 e0 in
      let (h1, e2) = write_str-split x.1 y.1 a.1 b.1 e1 in
      let h2 = write_u64_le-injective x.2 y.2 a.2 b.2 e2 in cc
  signing_bytes-injective Kind.offer x y a b e =
      let e0 = tagged-split "wavvon/pairing-offer/v1" (some-eq e) in
      let (h0, e1) = write_str-split x.0 y.0 a.0 b.0 e0 in
      let (h1, e2) = write_str_vec-split x.1 y.1 a.1 b.1 e1 in
      let (h2, e3) = write_str-split x.2 y.2 a.2 b.2 e2 in
      let (h3, e4) = write_u64_le-split x.3 y.3 a.3 b.3 e3 in
      let h4 = write_u64_le-injective x.4 y.4 a.4 b.4 e4 in cc
  signing_bytes-injective Kind.claim x y a b e =
      let e0 = tagged-split "wavvon/pairing-claim/v1" (some-eq e) in
      let (h0, e1) = write_str-split x.0 y.0 a.0 b.0 e0 in
      let (h1, e2) = write_str-split x.1 y.1 a.1 b.1 e1 in
      let h2 = write_str-injective x.2 y.2 a.2 b.2 e2 in cc
  signing_bytes-injective Kind.dm x y a b e =
      let e0 = tagged-split "wavvon/dm-ciphertext/v1" (some-eq e) in
      let (h0, e1) = write_str-split x.0 y.0 a.0 b.0 e0 in
      let (h1, e2) = write_str-split x.1 y.1 a.1 b.1 e1 in
      let (h2, e3) = write_str-split x.2 y.2 a.2 b.2 e2 in
      let h3 = write_str-injective x.3 y.3 a.3 b.3 e3 in cc
  signing_bytes-injective Kind.dr_dm x y a b e =
      let e0 = tagged-split "wavvon/dm-ciphertext/v2" (some-eq e) in
      let (h0, e1) = write_str-split x.0 y.0 a.0 b.0 e0 in
      let (h1, e2) = write_u32_le-split x.1 y.1 a.1 b.1 e1 in
      let (h2, e3) = write_u32_le-split x.2 y.2 a.2 b.2 e2 in
      let (h3, e4) = write_str-split x.3 y.3 a.3 b.3 e3 in
      let h4 = write_str-injective x.4 y.4 a.4 b.4 e4 in cc
  signing_bytes-injective Kind.federated_dm x y a b e =
      let e0 = tagged-split "wavvon/federated-dm/v1" (some-eq e) in
      let (h0, e1) = write_str-split x.0 y.0 a.0 b.0 e0 in
      let (h1, e2) = write_str-split x.1 y.1 a.1 b.1 e1 in
      let h2 = write_str-injective x.2 y.2 a.2 b.2 e2 in cc
  signing_bytes-injective Kind.member_change x y a b e =
      let e0 = tagged-split "wavvon/dm-member-change/v1" (some-eq e) in
      let (h0, e1) = write_str-split x.0 y.0 a.0 b.0 e0 in
      let (h1, e2) = write_str-split x.1 y.1 a.1 b.1 e1 in
      let (h2, e3) = write_str_vec-split x.2 y.2 a.2 b.2 e2 in
      let (h3, e4) = write_str_vec-split x.3 y.3 a.3 b.3 e3 in
      let h4 = write_u64_le-injective x.4 y.4 a.4 b.4 e4 in cc
  signing_bytes-injective Kind.recovery_request x y a b e =
      let e0 = tagged-split "wavvon/recovery-request/v1" (some-eq e) in
      let (h0, e1) = write_str-split x.0 y.0 a.0 b.0 e0 in
      let (h1, e2) = write_str-split x.1 y.1 a.1 b.1 e1 in
      let (h2, e3) = write_str-split x.2 y.2 a.2 b.2 e2 in cc
  signing_bytes-injective Kind.attestation x y a b e =
      let e0 = tagged-split "wavvon/recovery-attestation/v1" (some-eq e) in
      let (h0, e1) = write_str-split x.0 y.0 a.0 b.0 e0 in
      let (h1, e2) = write_str-split x.1 y.1 a.1 b.1 e1 in
      let (h2, e3) = write_str-split x.2 y.2 a.2 b.2 e2 in
      let h3 = write_str-injective x.3 y.3 a.3 b.3 e3 in cc
  signing_bytes-injective Kind.subkey x y a b e =
      let e0 = tagged-split "wavvon/subkey-cert/v1" (some-eq e) in
      let (h0, e1) = write_str-split x.0 y.0 a.0 b.0 e0 in
      let (h1, e2) = write_str-split x.1 y.1 a.1 b.1 e1 in
      let (h2, e3) = write_str-split x.2 y.2 a.2 b.2 e2 in
      let (h3, e4) = write_u64_le-split x.3 y.3 a.3 b.3 e3 in
      let (h4, e5) = write_not_after-split x.4 y.4 a.4 b.4 e4 in
      let h5 = write_str_vec-injective x.5 y.5 a.5 b.5 e5 in cc
  signing_bytes-injective Kind.prefs x y a b e =
      let e0 = tagged-split "wavvon/prefs-blob/v1" (some-eq e) in
      let (h0, e1) = write_str-split x.0 y.0 a.0 b.0 e0 in
      let (h1, e2) = write_u64_le-split x.1 y.1 a.1 b.1 e1 in (h0, h1, e2)
  signing_bytes-injective Kind.dh_key x y a b e =
      let e0 = tagged-split "wavvon/dh-key/v1" (some-eq e) in
      let (h0, e1) = prefixed-split x.0 y.0 a.0 b.0 e0 in
      let h1 = prefixed-injective x.1 y.1 a.1 b.1 e1 in cc
  signing_bytes-injective Kind.group_dm x y a b e =
      let e0 = tagged-split "wavvon/group-dm-ciphertext/v1" (some-eq e) in
      let (h0, e1) = write_str-split x.0 y.0 a.0 b.0 e0 in
      let (v, e2) = write_number-split x.1 y.1 a.1 b.1 e1 in
      let (i, e3) = write_number-split x.2 y.2 a.2 b.2 e2 in
      let (h3, e4) = write_str-split x.3 y.3 a.3 b.3 e3 in
      let h4 = write_str-injective x.4 y.4 a.4 b.4 e4 in cc
  signing_bytes-injective Kind.challenge x y a b e =
      let p = auth_challenge_signing_bytes-accepts x a in
      let q = auth_challenge_signing_bytes-accepts y b in
      tagged-split "wavvon/auth-challenge/v1" (some-eq (sym p ∙ e ∙ q))
  signing_bytes-injective Kind.webhook x y a b e =
      let e0 = tagged-split "wavvon/webhook-delivery/v1" (some-eq e) in
      let (h0, e1) = write_u64_le-split x.0 y.0 a b e0 in cc
  signing_bytes-injective Kind.voice_grant x y a b e =
      tagged-split "wavvon/alliance-voice-grant/v1" (some-eq e)
  signing_bytes-injective Kind.key_dist x y a b e =
      let e0 = tagged-split "wavvon/group-key-dist/v1" (some-eq e) in
      let (h0, e1) = write_str-split x.0 y.0 a.0 b.0 e0 in
      let (v, e2) = write_number-split x.1 y.1 a.1 b.1 e1 in
      (h0, v, write_recipients-injective (sort_recipients x.2) (sort_recipients y.2) a.2 b.2 e2)
  signing_bytes-injective Kind.profile x y a b e =
      let e0 = tagged-split "wavvon/public-hub-profile/v1" (some-eq e) in
      let (h0, e1) = write_str-split x.0 y.0 a.0 b.0 e0 in
      let (h2, e2) = write_u64_le-split x.2 y.2 a.1 b.1 e1 in
      let (n, e3) =
        write_u32_le-split (length x.1 % 2 ^ 32) (length y.1 % 2 ^ 32) (omega arith) (omega arith)
          e2 in
      let h1 = write_entries-injective x.1 y.1 (omega arith) a.3 b.3 e3 in cc
