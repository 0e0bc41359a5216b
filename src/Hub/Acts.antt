-- ===== src/Hub/Acts.antt =====
-- The handlers that write the hub's tables of roles, overwrites and sanctions, as one set of
-- requests: what the router of crates/hub/src/server.rs may call, one after the other. Handlers
-- lock nothing between a check and its write, so a run is of requests that do not overlap.
pub mod Sound
pub mod Runs
pub mod Outranked
mod Examples
mod Keep
mod Fair
mod Loss
mod Taken
mod Gain
mod Written
use wavvon_server.Base.{ℕ, String, List, [], ◌∷◌, Option, ℤ}
use wavvon_server.Hub.Db.{Db}
use wavvon_server.Hub.Roles.Checks.{CreateRoleRequest, UpdateRoleRequest}
use wavvon_server.Hub.Roles.{create_role, update_role, delete_role, assign_role, remove_role}
use wavvon_server.Hub.Overwrites.Checks.{OverwriteSet}
use wavvon_server.Hub.Overwrites.{put_channel_permissions, delete_channel_permissions}
use wavvon_server.Hub.Moderation.Bans.{
  BanRequest, MuteRequest, TimeoutRequest, ban_user, unban_user, mute_user, unmute_user,
  timeout_user, kick_user,
}
use wavvon_server.Hub.Moderation.Rooms.{
  voice_mute, voice_unmute, set_talk_power, channel_ban, channel_unban, channel_voice_mute,
  channel_voice_unmute, raise_hand, lower_hand,
}

-- The arguments of a handler behind its caller, in its order.
pub data Request : Type 0 where
  creates_role : CreateRoleRequest → String → ℕ → Request
  updates_role : String → UpdateRoleRequest → Request
  deletes_role : String → Request
  assigns_role : String → String → ℕ → Request
  removes_role : String → String → Request
  puts_permissions : String → String → OverwriteSet → ℕ → Request
  clears_permissions : String → String → Request
  bans : BanRequest → ℕ → Request
  unbans : String → Request
  mutes : MuteRequest → ℕ → Request
  unmutes : String → Request
  times_out : TimeoutRequest → ℕ → Request
  kicks : String → Request
  voice_mutes : String → Option String → ℕ → Request
  voice_unmutes : String → Request
  sets_talk_power : String → ℤ → Request
  channel_bans : String → String → Option String → ℕ → Request
  channel_unbans : String → String → Request
  channel_voice_mutes : String → String → ℕ → Request
  channel_voice_unmutes : String → String → Request
  raises_hand : String → String → ℕ → Request
  lowers_hand : String → String → Request

-- The tables behind a request, whatever it is answered.
unfoldable pub perform : String → Request → Db → Db
perform user (creates_role req id now) db = (create_role user req id now db).0
perform user (updates_role role_id req) db = (update_role user role_id req db).0
perform user (deletes_role role_id) db = (delete_role user role_id db).0
perform user (assigns_role key role_id now) db = (assign_role user key role_id now db).0
perform user (removes_role key role_id) db = (remove_role user key role_id db).0
perform user (puts_permissions channel role_id req now) db =
    (put_channel_permissions user channel role_id req now db).0
perform user (clears_permissions channel role_id) db =
    (delete_channel_permissions user channel role_id db).0
perform user (bans req now) db = (ban_user user req now db).0
perform user (unbans key) db = (unban_user user key db).0
perform user (mutes req now) db = (mute_user user req now db).0
perform user (unmutes key) db = (unmute_user user key db).0
perform user (times_out req now) db = (timeout_user user req now db).0
perform user (kicks key) db = (kick_user user key db).0
perform user (voice_mutes key reason now) db = (voice_mute user key reason now db).0
perform user (voice_unmutes key) db = (voice_unmute user key db).0
perform user (sets_talk_power channel n) db = (set_talk_power user channel n db).0
perform user (channel_bans channel key reason now) db =
    (channel_ban user channel key reason now db).0
perform user (channel_unbans channel key) db = (channel_unban user channel key db).0
perform user (channel_voice_mutes channel key now) db =
    (channel_voice_mute user channel key now db).0
perform user (channel_voice_unmutes channel key) db = (channel_voice_unmute user channel key db).0
perform user (raises_hand channel id now) db = raise_hand user channel id now db
perform user (lowers_hand channel key) db = (lower_hand user channel key db).0

-- A request and who sends it.
pub record Act : Type 0 where
  pub actor : String
  pub request : Request

unfoldable pub run : List Act → Db → Db
unfolding perform
run [] db = db
run (a ∷ acts) db = run acts (perform a.actor a.request db)
