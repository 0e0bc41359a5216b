-- ===== src/Identity/Wire/Domains.antt =====
-- Domain separation of crates/identity/src/wire.rs: the tag in front of the signed bytes.
use wavvon_server.Base.{
  ◌≡◌, refl, sym, ◌∙◌, ap, String, List, [], ◌∷◌, ◌++◌, Bool, true, false, Option, none, some,
  arith, length, any, ◌==◌, if◌then◌else◌, Bool-cases, inl, inr,
}
use wavvon_server.Identity.Wire.Encode.{Bytes, codes}
use wavvon_server.Identity.Wire.Messages.{
  home_hub_list, subkey_cert, revocation_entry, signed_prefs_blob, pairing_offer, pairing_claim,
  dh_key_record, dm_envelope_signing_bytes, dr_envelope_signing_bytes,
  group_dm_envelope_signing_bytes, auth_challenge_signing_bytes, webhook_delivery_signing_bytes,
  voice_grant_signing_bytes, federated_plaintext_dm_signing_bytes, dm_member_change_signing_bytes,
  sender_key_dist_signing_bytes, recovery_request_signing_bytes, recovery_attestation_signing_bytes,
  public_hub_profile,
}
use wavvon_server.Identity.Wire.Kinds.{Kind, Payload, signing_bytes}

abbrev domain : Kind → String
domain Kind.home_hubs = "wavvon/home-hub-list/v1"
domain Kind.subkey = "wavvon/subkey-cert/v1"
domain Kind.revocation = "wavvon/revocation/v1"
domain Kind.prefs = "wavvon/prefs-blob/v1"
domain Kind.offer = "wavvon/pairing-offer/v1"
domain Kind.claim = "wavvon/pairing-claim/v1"
domain Kind.dh_key = "wavvon/dh-key/v1"
domain Kind.dm = "wavvon/dm-ciphertext/v1"
domain Kind.dr_dm = "wavvon/dm-ciphertext/v2"
domain Kind.group_dm = "wavvon/group-dm-ciphertext/v1"
domain Kind.challenge = "wavvon/auth-challenge/v1"
domain Kind.webhook = "wavvon/webhook-delivery/v1"
domain Kind.voice_grant = "wavvon/alliance-voice-grant/v1"
domain Kind.federated_dm = "wavvon/federated-dm/v1"
domain Kind.member_change = "wavvon/dm-member-change/v1"
domain Kind.key_dist = "wavvon/group-key-dist/v1"
domain Kind.recovery_request = "wavvon/recovery-request/v1"
domain Kind.attestation = "wavvon/recovery-attestation/v1"
domain Kind.profile = "wavvon/public-hub-profile/v1"

has_nul : Bytes → Bool
has_nul s = any (λ b. b == 0) s

-- Bytes before the first NUL.
before_nul : Bytes → Bytes
before_nul [] = []
before_nul (b ∷ bs) = let rest = before_nul bs in if b == 0 then [] else b ∷ rest

before_nul-append : (s r : Bytes) → has_nul s ≡ false → before_nul (s ++ 0 ∷ r) ≡ s
unfolding before_nul has_nul
before_nul-append [] r h = refl
before_nul-append (b ∷ s) r h = ground (arith, before_nul-append s r)

domain-no_nul : (k : Kind) → has_nul (codes (domain k)) ≡ false
unfolding has_nul
domain-no_nul Kind.home_hubs = refl
domain-no_nul Kind.subkey = refl
domain-no_nul Kind.revocation = refl
domain-no_nul Kind.prefs = refl
domain-no_nul Kind.offer = refl
domain-no_nul Kind.claim = refl
domain-no_nul Kind.dh_key = refl
domain-no_nul Kind.dm = refl
domain-no_nul Kind.dr_dm = refl
domain-no_nul Kind.group_dm = refl
domain-no_nul Kind.challenge = refl
domain-no_nul Kind.webhook = refl
domain-no_nul Kind.voice_grant = refl
domain-no_nul Kind.federated_dm = refl
domain-no_nul Kind.member_change = refl
domain-no_nul Kind.key_dist = refl
domain-no_nul Kind.recovery_request = refl
domain-no_nul Kind.attestation = refl
domain-no_nul Kind.profile = refl

bytes_eq : Bytes → Bytes → Bool
bytes_eq [] [] = true
bytes_eq [] (b ∷ t) = false
bytes_eq (a ∷ s) [] = false
bytes_eq (a ∷ s) (b ∷ t) = let rest = bytes_eq s t in if a == b then rest else false

-- The kind of a domain tag.
kind_in : List Kind → Bytes → Option Kind
kind_in [] s = none
kind_in (k ∷ ks) s =
    let rest = kind_in ks s in if bytes_eq (codes (domain k)) s then some k else rest

abbrev kinds : List Kind
kinds =
    Kind.home_hubs ∷ Kind.subkey ∷ Kind.revocation ∷ Kind.prefs ∷ Kind.offer ∷ Kind.claim
    ∷ Kind.dh_key ∷ Kind.dm ∷ Kind.dr_dm ∷ Kind.group_dm ∷ Kind.challenge ∷ Kind.webhook
    ∷ Kind.voice_grant ∷ Kind.federated_dm ∷ Kind.member_change ∷ Kind.key_dist
    ∷ Kind.recovery_request ∷ Kind.attestation ∷ Kind.profile ∷ []

kind_of : Bytes → Option Kind
kind_of s = kind_in kinds s

kind_of-domain : (k : Kind) → kind_of (codes (domain k)) ≡ some k
unfolding kind_of kind_in bytes_eq
kind_of-domain Kind.home_hubs = refl
kind_of-domain Kind.subkey = refl
kind_of-domain Kind.revocation = refl
kind_of-domain Kind.prefs = refl
kind_of-domain Kind.offer = refl
kind_of-domain Kind.claim = refl
kind_of-domain Kind.dh_key = refl
kind_of-domain Kind.dm = refl
kind_of-domain Kind.dr_dm = refl
kind_of-domain Kind.group_dm = refl
kind_of-domain Kind.challenge = refl
kind_of-domain Kind.webhook = refl
kind_of-domain Kind.voice_grant = refl
kind_of-domain Kind.federated_dm = refl
kind_of-domain Kind.member_change = refl
kind_of-domain Kind.key_dist = refl
kind_of-domain Kind.recovery_request = refl
kind_of-domain Kind.attestation = refl
kind_of-domain Kind.profile = refl

some-eq : {x y : Bytes} → some x ≡ some y → x ≡ y
some-eq e = cc

kind-eq : {j k : Kind} → some j ≡ some k → j ≡ k
kind-eq e = cc

module _ (sha256 : Bytes → Bytes) where
  -- Signed bytes begin with their tag.
  signing_bytes-prefix :
      (k : Kind) (x : Payload k) {b : Bytes}
      → signing_bytes sha256 k x ≡ some b
      → (r : Bytes) × (b ≡ codes (domain k) ++ 0 ∷ r)
  unfolding signing_bytes home_hub_list subkey_cert revocation_entry signed_prefs_blob pairing_offer
      pairing_claim dh_key_record dm_envelope_signing_bytes dr_envelope_signing_bytes
      group_dm_envelope_signing_bytes auth_challenge_signing_bytes webhook_delivery_signing_bytes
      voice_grant_signing_bytes federated_plaintext_dm_signing_bytes dm_member_change_signing_bytes
      sender_key_dist_signing_bytes recovery_request_signing_bytes
      recovery_attestation_signing_bytes public_hub_profile
  signing_bytes-prefix Kind.home_hubs x e = (_, sym (some-eq e))
  signing_bytes-prefix Kind.subkey x e = (_, sym (some-eq e))
  signing_bytes-prefix Kind.revocation x e = (_, sym (some-eq e))
  signing_bytes-prefix Kind.prefs x e = (_, sym (some-eq e))
  signing_bytes-prefix Kind.offer x e = (_, sym (some-eq e))
  signing_bytes-prefix Kind.claim x e = (_, sym (some-eq e))
  signing_bytes-prefix Kind.dh_key x e = (_, sym (some-eq e))
  signing_bytes-prefix Kind.dm x e = (_, sym (some-eq e))
  signing_bytes-prefix Kind.dr_dm x e = (_, sym (some-eq e))
  signing_bytes-prefix Kind.group_dm x e = (_, sym (some-eq e))
  signing_bytes-prefix Kind.challenge c e = elim (Bool-cases (length c == 32)) [
    | inl h ↦ (c, sym (some-eq (sym (rw h refl) ∙ e)))
    | inr h ↦ absurd (ground (arith))
  ]
  signing_bytes-prefix Kind.webhook x e = (_, sym (some-eq e))
  signing_bytes-prefix Kind.voice_grant x e = (_, sym (some-eq e))
  signing_bytes-prefix Kind.federated_dm x e = (_, sym (some-eq e))
  signing_bytes-prefix Kind.member_change x e = (_, sym (some-eq e))
  signing_bytes-prefix Kind.key_dist x e = (_, sym (some-eq e))
  signing_bytes-prefix Kind.recovery_request x e = (_, sym (some-eq e))
  signing_bytes-prefix Kind.attestation x e = (_, sym (some-eq e))
  signing_bytes-prefix Kind.profile x e = (_, sym (some-eq e))

  -- Bytes that are signed for a message of one kind and for a message of another show that the
  -- two kinds are one.
  pub signing_bytes-same_kind :
      (j k : Kind) (x : Payload j) (y : Payload k) {b : Bytes}
      → signing_bytes sha256 j x ≡ some b
      → signing_bytes sha256 k y ≡ some b
      → j ≡ k
  signing_bytes-same_kind j k x y d e =
      let (r, p) = signing_bytes-prefix j x d in
      let (q, t) = signing_bytes-prefix k y e in
      let same : codes (domain j) ≡ codes (domain k) =
        sym (before_nul-append (codes (domain j)) r (domain-no_nul j))
        ∙ ap before_nul (sym p ∙ t)
        ∙ before_nul-append (codes (domain k)) q (domain-no_nul k) in
      kind-eq (sym (kind_of-domain j) ∙ ap kind_of same ∙ kind_of-domain k)
