-- ===== src/Identity/Wire/Kinds.antt =====
-- The kinds of signed message as one type: the payload of each, the bytes that are signed for it,
-- and what the field types of the source promise of it.
use wavvon_server.Base.{ℕ, ◌^◌, ◌<◌, ◌≡◌, List, Option, none, some, All, length}
use wavvon_server.Identity.Wire.Encode.{Bytes}
use wavvon_server.Identity.Wire.Encode.Split.{IsU32, IsU64, IsText, AreTexts}
use wavvon_server.Identity.Wire.Messages.{
  home_hub_list, subkey_cert, revocation_entry, signed_prefs_blob, pairing_offer, pairing_claim,
  dh_key_record, dm_envelope_signing_bytes, dr_envelope_signing_bytes,
  group_dm_envelope_signing_bytes, auth_challenge_signing_bytes, webhook_delivery_signing_bytes,
  voice_grant_signing_bytes, federated_plaintext_dm_signing_bytes, dm_member_change_signing_bytes,
  sort_recipients, sender_key_dist_signing_bytes, recovery_request_signing_bytes,
  recovery_attestation_signing_bytes, PublicHubEntry, public_hub_profile,
}

pub data Kind : Type 0 where
  home_hubs subkey revocation prefs offer claim dh_key dm dr_dm group_dm : Kind
  challenge webhook voice_grant federated_dm member_change key_dist : Kind
  recovery_request attestation profile : Kind

-- The arguments of the function of each kind, in its order.
abbrev pub Payload : Kind → Type 0
Payload Kind.home_hubs = Bytes × List Bytes × ℕ × ℕ
Payload Kind.subkey = Bytes × Bytes × Bytes × ℕ × Option ℕ × List Bytes
Payload Kind.revocation = Bytes × Bytes × ℕ
Payload Kind.prefs = Bytes × ℕ × Bytes
Payload Kind.offer = Bytes × List Bytes × Bytes × ℕ × ℕ
Payload Kind.claim = Bytes × Bytes × Bytes
Payload Kind.dh_key = Bytes × Bytes
Payload Kind.dm = Bytes × Bytes × Bytes × Bytes
Payload Kind.dr_dm = Bytes × ℕ × ℕ × Bytes × Bytes
Payload Kind.group_dm = Bytes × ℕ × ℕ × Bytes × Bytes
Payload Kind.challenge = Bytes
Payload Kind.webhook = ℕ × Bytes
Payload Kind.voice_grant = Bytes
Payload Kind.federated_dm = Bytes × Bytes × Bytes
Payload Kind.member_change = Bytes × Bytes × List Bytes × List Bytes × ℕ
Payload Kind.key_dist = Bytes × ℕ × List (Bytes × Bytes)
Payload Kind.recovery_request = Bytes × Bytes × Bytes
Payload Kind.attestation = Bytes × Bytes × Bytes × Bytes
Payload Kind.profile = Bytes × List PublicHubEntry × ℕ

abbrev pub IsTime : Option ℕ → Type 0
IsTime none = Unit
IsTime (some t) = IsU64 t

abbrev pub IsRecipient : Bytes × Bytes → Type 0
IsRecipient x = IsText x.0 × IsText x.1

abbrev pub IsEntry : PublicHubEntry → Type 0
IsEntry e = IsText e.hub_url × IsText e.hub_name × IsU64 e.joined_at

-- The numbers fit their types, and the texts and lists have lengths that a `u32` holds.
abbrev pub IsValid : (k : Kind) → Payload k → Type 0
IsValid Kind.home_hubs (m, hubs, t, s) = IsText m × AreTexts hubs × IsU64 t × IsU64 s
IsValid Kind.subkey (m, k, l, t, n, hubs) =
    IsText m × IsText k × IsText l × IsU64 t × IsTime n × AreTexts hubs
IsValid Kind.revocation (m, k, t) = IsText m × IsText k × IsU64 t
IsValid Kind.prefs (m, v, c) = IsText m × IsU64 v
IsValid Kind.offer (m, hubs, k, t, x) = IsText m × AreTexts hubs × IsText k × IsU64 t × IsU64 x
IsValid Kind.claim (t, k, l) = IsText t × IsText k × IsText l
IsValid Kind.dh_key (k, d) = IsText k × IsText d
IsValid Kind.dm (c, t, n, d) = IsText c × IsText t × IsText n × IsText d
IsValid Kind.dr_dm (c, i, p, t, d) = IsText c × IsU32 i × IsU32 p × IsText t × IsText d
IsValid Kind.group_dm (c, v, i, t, n) = IsText c × IsU32 v × IsU32 i × IsText t × IsText n
IsValid Kind.challenge c = length c ≡ 32
IsValid Kind.webhook (t, b) = IsU64 t
IsValid Kind.voice_grant j = Unit
IsValid Kind.federated_dm (c, t, x) = IsText c × IsText t × IsText x
IsValid Kind.member_change (c, a, add, rem, t) =
    IsText c × IsText a × AreTexts add × AreTexts rem × IsU64 t
IsValid Kind.key_dist (c, v, rs) = IsText c × IsU32 v × All IsRecipient (sort_recipients rs)
IsValid Kind.recovery_request (h, o, n) = IsText h × IsText o × IsText n
IsValid Kind.attestation (h, o, n, x) = IsText h × IsText o × IsText n × IsText x
IsValid Kind.profile (k, es, t) = IsText k × IsU64 t × (length es < 2 ^ 32) × All IsEntry es

module _ (sha256 : Bytes → Bytes) where
  -- The bytes that are signed, or no bytes where the source refuses.
  unfoldable pub signing_bytes : (k : Kind) → Payload k → Option Bytes
  unfolding home_hub_list subkey_cert revocation_entry signed_prefs_blob pairing_offer pairing_claim
      dh_key_record dm_envelope_signing_bytes dr_envelope_signing_bytes
      group_dm_envelope_signing_bytes auth_challenge_signing_bytes webhook_delivery_signing_bytes
      voice_grant_signing_bytes federated_plaintext_dm_signing_bytes dm_member_change_signing_bytes
      sender_key_dist_signing_bytes recovery_request_signing_bytes
      recovery_attestation_signing_bytes public_hub_profile
  signing_bytes Kind.home_hubs (m, hubs, t, s) = some (home_hub_list m hubs t s)
  signing_bytes Kind.subkey (m, k, l, t, n, hubs) = some (subkey_cert m k l t n hubs)
  signing_bytes Kind.revocation (m, k, t) = some (revocation_entry m k t)
  signing_bytes Kind.prefs (m, v, c) = some (signed_prefs_blob sha256 m v c)
  signing_bytes Kind.offer (m, hubs, k, t, x) = some (pairing_offer m hubs k t x)
  signing_bytes Kind.claim (t, k, l) = some (pairing_claim t k l)
  signing_bytes Kind.dh_key (k, d) = some (dh_key_record k d)
  signing_bytes Kind.dm (c, t, n, d) = some (dm_envelope_signing_bytes c t n d)
  signing_bytes Kind.dr_dm (c, i, p, t, d) = some (dr_envelope_signing_bytes c i p t d)
  signing_bytes Kind.group_dm (c, v, i, t, n) = some (group_dm_envelope_signing_bytes c v i t n)
  signing_bytes Kind.challenge c = auth_challenge_signing_bytes c
  signing_bytes Kind.webhook (t, b) = some (webhook_delivery_signing_bytes t b)
  signing_bytes Kind.voice_grant j = some (voice_grant_signing_bytes j)
  signing_bytes Kind.federated_dm (c, t, x) = some (federated_plaintext_dm_signing_bytes c t x)
  signing_bytes Kind.member_change (c, a, add, rem, t) =
      some (dm_member_change_signing_bytes c a add rem t)
  signing_bytes Kind.key_dist (c, v, rs) = some (sender_key_dist_signing_bytes c v rs)
  signing_bytes Kind.recovery_request (h, o, n) = some (recovery_request_signing_bytes h o n)
  signing_bytes Kind.attestation (h, o, n, x) = some (recovery_attestation_signing_bytes h o n x)
  signing_bytes Kind.profile (k, es, t) = some (public_hub_profile k es t)
