-- ===== src/Hub/Moderation/Rooms.antt =====
-- crates/hub/src/routes/moderation/channel_mod.rs: voice mutes, bans from a channel, talk power
-- and the raised hands. The listings, and what is sent to the connected clients, are not
-- modelled.
pub mod Effects
use wavvon_server.Base.{
  ℕ, String, Bool, true, false, not, ◌&&◌, List, ◌∷◌, Option, ℤ, str_eq, any, retain, remove,
  if◌then◌else◌,
}
use wavvon_server.Http.{Result, ok, err, fail, guard, conflict}
use wavvon_server.Hub.Db.{
  Db, ChannelBan, VoiceMute, ChannelVoiceMute, TalkPower, RaisedHand, Handler, query, execute,
  ◌>>=◌, ◌>>◌,
}
use wavvon_server.Hub.Permissions.Catalogue.{
  channels_manage, moderation_mute, moderation_ban_permanent,
}
use wavvon_server.Hub.Moderation.Bans.{require_can_moderate, check_permission, is_user}
use wavvon_server.Hub.Roles.{db_error}

-- `INSERT INTO voice_mutes … ON CONFLICT (target_public_key) DO UPDATE`: the target references
-- `users`.
unfoldable pub insert_voice_mute : VoiceMute → Handler (Unit {0})
unfolding is_user
insert_voice_mute row db =
    if is_user db row.target_public_key
    then (
      record db {
        voice_mutes =
            row
            ∷ retain (λ m. not (str_eq m.target_public_key row.target_public_key)) db.voice_mutes;
      },
      ok tt,
    )
    else (db, db_error)

unfoldable pub voice_mute : String → String → Option String → ℕ → Handler (Unit {0})
unfolding require_can_moderate insert_voice_mute
voice_mute user target reason now = do
  query (require_can_moderate user target moderation_mute)
  insert_voice_mute
      (record { target_public_key = target; muted_by = user; reason = reason; created_at = now })

unfoldable pub voice_unmute : String → String → Handler (Unit {0})
unfolding check_permission
voice_unmute user target_key = do
  query (check_permission user moderation_mute)
  execute (λ db. record db {
    voice_mutes = retain (λ m. not (str_eq m.target_public_key target_key)) db.voice_mutes;
  })

unfoldable pub is_channel : Db → String → Bool
is_channel db id = any (λ c. str_eq c.id id) db.channels

-- `INSERT INTO channel_settings … ON CONFLICT(channel_id) DO UPDATE`: the channel must exist.
unfoldable pub insert_talk_power : TalkPower → Handler (Unit {0})
unfolding is_channel
insert_talk_power row db =
    if is_channel db row.channel_id
    then (
      record db {
        channel_settings =
            row ∷ retain (λ s. not (str_eq s.channel_id row.channel_id)) db.channel_settings;
      },
      ok tt,
    )
    else (db, db_error)

unfoldable pub set_talk_power : String → String → ℤ → Handler (Unit {0})
unfolding check_permission insert_talk_power
set_talk_power user channel_id min_talk_power = do
  query (check_permission user channels_manage)
  insert_talk_power (record { channel_id = channel_id; min_talk_power = min_talk_power })

-- `INSERT INTO channel_bans … ON CONFLICT (channel_id, target_public_key) DO UPDATE`: the channel
-- and the target must exist.
unfoldable pub insert_channel_ban : ChannelBan → Handler (Unit {0})
unfolding is_channel is_user
insert_channel_ban row db =
    if is_channel db row.channel_id && is_user db row.target_public_key
    then (
      record db {
        channel_bans =
            row
            ∷ retain
                (λ b. not (
                  str_eq b.channel_id row.channel_id
                  && str_eq b.target_public_key row.target_public_key))
                db.channel_bans;
      },
      ok tt,
    )
    else (db, db_error)

unfoldable pub channel_ban : String → String → String → Option String → ℕ → Handler (Unit {0})
unfolding require_can_moderate insert_channel_ban
channel_ban user channel_id pubkey reason now = do
  query (require_can_moderate user pubkey moderation_ban_permanent)
  insert_channel_ban (record {
    channel_id = channel_id;
    target_public_key = pubkey;
    banned_by = user;
    reason = reason;
    created_at = now;
  })

unfoldable pub delete_channel_ban : String → String → Db → Db
delete_channel_ban channel_id pubkey db = record db {
  channel_bans =
      retain (λ b. not (str_eq b.channel_id channel_id && str_eq b.target_public_key pubkey))
        db.channel_bans;
}

unfoldable pub channel_unban : String → String → String → Handler (Unit {0})
unfolding check_permission delete_channel_ban
channel_unban user channel_id pubkey = do
  query (check_permission user moderation_ban_permanent)
  execute (delete_channel_ban channel_id pubkey)

-- `INSERT INTO channel_voice_mutes … ON CONFLICT (channel_id, pubkey) DO UPDATE`
unfoldable pub upsert_channel_voice_mute : ChannelVoiceMute → Db → Db
upsert_channel_voice_mute row db = record db {
  channel_voice_mutes =
      row
      ∷ retain (λ m. not (str_eq m.channel_id row.channel_id && str_eq m.pubkey row.pubkey))
          db.channel_voice_mutes;
}

unfoldable pub channel_voice_mute : String → String → String → ℕ → Handler (Unit {0})
unfolding require_can_moderate upsert_channel_voice_mute
channel_voice_mute user channel_id pubkey now = do
  query (require_can_moderate user pubkey moderation_mute)
  execute (
      upsert_channel_voice_mute
        (record { channel_id = channel_id; pubkey = pubkey; muted_by = user; muted_at = now }))

unfoldable pub channel_voice_unmute : String → String → String → Handler (Unit {0})
unfolding check_permission
channel_voice_unmute user channel_id pubkey = do
  query (check_permission user moderation_mute)
  execute (λ db. record db {
    channel_voice_mutes =
        retain (λ m. not (str_eq m.channel_id channel_id && str_eq m.pubkey pubkey))
          db.channel_voice_mutes;
  })

-- `INSERT INTO raise_hand_requests … ON CONFLICT (channel_id, pubkey) DO UPDATE`; `id` is the fresh
-- UUID.
unfoldable pub raise_hand : String → String → String → ℕ → Db → Db
raise_hand user channel_id id now db = record db {
  raise_hand_requests =
      record { id = id; channel_id = channel_id; pubkey = user; requested_at = now }
      ∷ retain (λ h. not (str_eq h.channel_id channel_id && str_eq h.pubkey user))
          db.raise_hand_requests;
}

unfoldable pub delete_hand : String → String → Db → Db
delete_hand channel_id pubkey db = record db {
  raise_hand_requests =
      retain (λ h. not (str_eq h.channel_id channel_id && str_eq h.pubkey pubkey))
        db.raise_hand_requests;
}

-- The caller's own hand needs no permission.
unfoldable pub check_lower : String → String → Db → Result (Unit {0})
unfolding check_permission
check_lower user pubkey db =
    if str_eq pubkey user then ok tt else check_permission user moderation_mute db

unfoldable pub lower_hand : String → String → String → Handler (Unit {0})
unfolding check_lower delete_hand
lower_hand user channel_id pubkey = do
  query (check_lower user pubkey)
  execute (delete_hand channel_id pubkey)

-- What the hub keeps in memory of its voice rooms: who is in which, and who may not talk.
pub record Voice : Type 0 where
  pub voice_channels : List (String × String)
  pub voice_talk_blocked : List String

unfoldable pub is_present : Voice → String → String → Bool
is_present v channel_id pubkey =
    any (λ p. str_eq p.0 channel_id && str_eq p.1 pubkey) v.voice_channels

unfoldable pub check_floor : String → String → String → Voice → Db → Result (Unit {0})
unfolding require_can_moderate is_present
check_floor user channel_id pubkey v db =
    let check : Result (Unit {0}) = require_can_moderate user pubkey moderation_mute db in
    elim check [
      | err e ↦ err e
      | ok u ↦
          guard (is_present v channel_id pubkey) conflict
            "That member is not in this voice channel."
    ]

-- The floor is given in memory, and the request is answered in the tables.
unfoldable pub grant_talk : String → String → String → Voice → Db → (Voice × Db) × Result (Unit {0})
unfolding check_floor delete_hand
grant_talk user channel_id pubkey v db =
    let check : Result (Unit {0}) = check_floor user channel_id pubkey v db in
    elim check [
      | err e ↦ ((v, db), err e)
      | ok u ↦ (
        (
          record v { voice_talk_blocked = remove pubkey v.voice_talk_blocked },
          delete_hand channel_id pubkey db,
        ),
        ok tt,
      )
    ]
