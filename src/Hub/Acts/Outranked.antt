-- ===== src/Hub/Acts/Outranked.antt =====
-- About the rank of a target of moderation.
use wavvon_server.Base.{String, true, ◌≡◌, Option, none, some, le_ℤ, arith}
use wavvon_server.Http.{ok}
use wavvon_server.Hub.Db.{Db}
use wavvon_server.Hub.Permissions.Catalogue.{
  moderation_kick, moderation_mute, moderation_timeout, moderation_ban_permanent,
}
use wavvon_server.Hub.Permissions.Caller.{user_permissions}
use wavvon_server.Hub.Moderation.Rank.{require_can_moderate-outranks}
use wavvon_server.Hub.Moderation.Bans.{
  require_can_moderate, ban_permission, ban_user, mute_user, timeout_user, kick_user,
}
use wavvon_server.Hub.Moderation.Rooms.{voice_mute, channel_ban, channel_voice_mute}
use wavvon_server.Hub.Acts.{
  Request, perform, creates_role, updates_role, deletes_role, assigns_role, removes_role,
  puts_permissions, clears_permissions, bans, unbans, mutes, unmutes, times_out, kicks, voice_mutes,
  voice_unmutes, sets_talk_power, channel_bans, channel_unbans, channel_voice_mutes,
  channel_voice_unmutes, raises_hand, lowers_hand,
}

-- Whom a sanction is meant for.
abbrev pub sanctioned : Request → Option String
sanctioned (bans req now) = some req.target_public_key
sanctioned (mutes req now) = some req.target_public_key
sanctioned (times_out req now) = some req.target_public_key
sanctioned (kicks key) = some key
sanctioned (voice_mutes key reason now) = some key
sanctioned (channel_bans channel key reason now) = some key
sanctioned (channel_voice_mutes channel key now) = some key
sanctioned (creates_role req id now) = none
sanctioned (updates_role id req) = none
sanctioned (deletes_role id) = none
sanctioned (assigns_role key id now) = none
sanctioned (removes_role key id) = none
sanctioned (puts_permissions channel id req now) = none
sanctioned (clears_permissions channel id) = none
sanctioned (unbans key) = none
sanctioned (unmutes key) = none
sanctioned (voice_unmutes key) = none
sanctioned (sets_talk_power channel n) = none
sanctioned (channel_unbans channel key) = none
sanctioned (channel_voice_unmutes channel key) = none
sanctioned (raises_hand channel id now) = none
sanctioned (lowers_hand channel key) = none

refused :
    (user t target permission : String) (db : Db)
    → some target ≡ some t
    → le_ℤ (user_permissions db user).max_priority (user_permissions db t).max_priority ≡ true
    → require_can_moderate user target permission db ≡ ok tt
    → ⊥
refused user t target permission db same h e =
    ground (arith, require_can_moderate-outranks user target permission db e)

-- A ban, kick, timeout or mute, of the hub or of a channel, of somebody whose priority is at least
-- the caller's changes nothing.
pub perform-outranked :
    (user target : String) (req : Request) (db : Db)
    → sanctioned req ≡ some target
    → le_ℤ (user_permissions db user).max_priority (user_permissions db target).max_priority ≡ true
    → perform user req db ≡ db
unfolding perform ban_user mute_user timeout_user kick_user voice_mute channel_ban
    channel_voice_mute
perform-outranked u t (bans req now) db e h =
    ground (arith, refused u t req.target_public_key (ban_permission req) db e h)
perform-outranked u t (mutes req now) db e h =
    ground (arith, refused u t req.target_public_key moderation_mute db e h)
perform-outranked u t (times_out req now) db e h =
    ground (arith, refused u t req.target_public_key moderation_timeout db e h)
perform-outranked u t (kicks key) db e h = ground (arith, refused u t key moderation_kick db e h)
perform-outranked u t (voice_mutes key reason now) db e h =
    ground (arith, refused u t key moderation_mute db e h)
perform-outranked u t (channel_bans channel key reason now) db e h =
    ground (arith, refused u t key moderation_ban_permanent db e h)
perform-outranked u t (channel_voice_mutes channel key now) db e h =
    ground (arith, refused u t key moderation_mute db e h)
perform-outranked u t (creates_role req id now) db e h = cc
perform-outranked u t (updates_role id req) db e h = cc
perform-outranked u t (deletes_role id) db e h = cc
perform-outranked u t (assigns_role key id now) db e h = cc
perform-outranked u t (removes_role key id) db e h = cc
perform-outranked u t (puts_permissions channel id req now) db e h = cc
perform-outranked u t (clears_permissions channel id) db e h = cc
perform-outranked u t (unbans key) db e h = cc
perform-outranked u t (unmutes key) db e h = cc
perform-outranked u t (voice_unmutes key) db e h = cc
perform-outranked u t (sets_talk_power channel n) db e h = cc
perform-outranked u t (channel_unbans channel key) db e h = cc
perform-outranked u t (channel_voice_unmutes channel key) db e h = cc
perform-outranked u t (raises_hand channel id now) db e h = cc
perform-outranked u t (lowers_hand channel key) db e h = cc
