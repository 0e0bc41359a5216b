-- ===== src/Hub/Moderation.antt =====
-- crates/hub/src/routes/moderation/helpers.rs: who is banned, muted, or denied by the federated
-- ban lists. `now` is the clock's reading.
pub mod Policy
pub mod Bans
pub mod Rooms
pub mod Rank
use wavvon_server.Base.{
  ℕ, String, Bool, true, false, not, ◌&&◌, ◌||◌, List, Option, none, some, str_eq, any, find, ℤ,
  pos, lt_ℤ, if◌then◌else◌,
}
use wavvon_server.Hub.Db.{Db, Sanction, FederatedBan, BanSource, BanOverride}

-- `expires_at IS NULL OR expires_at > now`
unfoldable pub is_active : ℕ → Option ℤ → Bool
is_active now none = true
is_active now (some t) = lt_ℤ (pos now) t

-- `SELECT COUNT(*) … > 0` over `bans` or `mutes`.
unfoldable pub is_sanctioned : List Sanction → String → ℕ → Bool
unfolding is_active
is_sanctioned rows public_key now =
    any (λ s. str_eq s.target_public_key public_key && is_active now s.expires_at) rows

unfoldable pub is_banned : Db → String → ℕ → Bool
unfolding is_sanctioned
is_banned db public_key now = is_sanctioned db.bans public_key now

unfoldable pub is_muted : Db → String → ℕ → Bool
unfolding is_sanctioned
is_muted db public_key now = is_sanctioned db.mutes public_key now

unfoldable pub is_channel_banned : Db → String → String → Bool
is_channel_banned db channel_id public_key =
    any (λ b. str_eq b.channel_id channel_id && str_eq b.target_public_key public_key)
      db.channel_bans

unfoldable pub is_voice_muted : Db → String → Bool
is_voice_muted db public_key = any (λ m. str_eq m.target_public_key public_key) db.voice_mutes

unfoldable pub is_channel_voice_muted : Db → String → String → Bool
is_channel_voice_muted db channel_id pubkey =
    any (λ m. str_eq m.channel_id channel_id && str_eq m.pubkey pubkey) db.channel_voice_mutes

-- `fbs.issuer_pubkey = fb.source_hub_pubkey`, which no issuer never is.
unfoldable pub issued_by : BanSource → FederatedBan → Bool
issued_by s b = elim s.issuer_pubkey [ none ↦ false | some k ↦ str_eq k b.source_hub_pubkey ]

-- The first count: the join has a row.
unfoldable pub is_hard_rejected : Db → String → Bool
unfolding issued_by
is_hard_rejected db check_key =
    any
      (λ b.
        any
          (λ s.
            issued_by s b
            && (str_eq b.target_master_pubkey check_key && str_eq s.policy "hard-reject"))
          db.federated_ban_sources)
      db.federated_bans

-- The second count: `NOT EXISTS` a source.
unfoldable pub is_legacy_rejected : Db → String → Bool
unfolding issued_by
is_legacy_rejected db check_key =
    any
      (λ b.
        str_eq b.target_master_pubkey check_key
        && not (any (λ s. issued_by s b) db.federated_ban_sources))
      db.federated_bans

unfoldable pub override_type : Db → String → Option String
override_type db check_key =
    elim (find (λ o. str_eq o.target_pubkey check_key) db.federated_ban_overrides) [
      | none ↦ none
      | some o ↦ some o.override_type
    ]

-- The two counts of `is_denied_by_federated_policy`.
unfoldable pub is_listed : Db → String → Bool
unfolding is_hard_rejected is_legacy_rejected
is_listed db check_key =
    if is_hard_rejected db check_key then true else is_legacy_rejected db check_key

unfoldable pub is_denied_by_federated_policy : Db → String → Bool
unfolding override_type is_listed
is_denied_by_federated_policy db check_key = elim (override_type db check_key) [
  | none ↦ is_listed db check_key
  | some t ↦
      if str_eq t "whitelist"
      then false
      else if str_eq t "blacklist"
      then true
      else is_listed db check_key
]

-- `master_pk.as_deref().unwrap_or(public_key)`
unfoldable pub check_key_of : Db → String → String
check_key_of db public_key = elim (find (λ u. str_eq u.public_key public_key) db.users) [
  | none ↦ public_key
  | some u ↦ elim u.master_pubkey [ none ↦ public_key | some m ↦ m ]
]

unfoldable pub is_federated_banned : Db → String → Bool
unfolding check_key_of is_denied_by_federated_policy
is_federated_banned db public_key = is_denied_by_federated_policy db (check_key_of db public_key)
