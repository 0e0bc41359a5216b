-- ===== src/Hub/Acts/Examples.antt =====
-- The theorems about runs, and about moderation, applied to the sample hub.
use wavvon_server.Base.{◌≡◌, refl, true, false, [], ◌∷◌, none, some, List, arith}
use wavvon_server.Hub.Permissions.Caller.{has, user_permissions}
use wavvon_server.Hub.Permissions.Resolve.{channel_permissions}
use wavvon_server.Hub.Moderation.{is_banned}
use wavvon_server.Hub.Moderation.Bans.{BanRequest, ban_user}
use wavvon_server.Hub.Moderation.Bans.Effects.{ban_user-bans}
use wavvon_server.Hub.Moderation.Rooms.{channel_ban, channel_unban}
use wavvon_server.Hub.Moderation.Rooms.Effects.{channel_ban-closes, channel_unban-reopens}
use wavvon_server.Hub.Acts.{Act, perform, run, assigns_role, deletes_role, kicks}
use wavvon_server.Hub.Acts.Sound.{IsSound}
use wavvon_server.Hub.Acts.Runs.{run-IsSound, run-no_new_owner, run-no_escalation}
use wavvon_server.Hub.Acts.Outranked.{perform-outranked}
use wavvon_server.Hub.Sample.{sample, sample-IsRanked}

sample-IsSound : IsSound sample
unfolding wavvon_server.Hub.Roles.Checks.owner_count
sample-IsSound = record {
  ranked = sample-IsRanked;
  present = refl;
  unique = (refl, (refl, tt));
  owned = omega arith;
  granters = (refl, (refl, (refl, (refl, tt))));
}

-- Bob makes Carol a helper and tries to make her an owner; she tries to kick Alice; Bob deletes
-- the role.
abbrev acts : List Act
acts =
    record { actor = "bob"; request = assigns_role "carol" "helper" 2 }
    ∷ record { actor = "bob"; request = assigns_role "carol" "builtin-owner" 3 }
    ∷ record { actor = "carol"; request = kicks "alice" }
    ∷ record { actor = "bob"; request = deletes_role "helper" }
    ∷ []

run-IsSound_example : IsSound (run acts sample)
run-IsSound_example = run-IsSound acts sample sample-IsSound

run-no_new_owner_example : (user_permissions sample "alice").is_owner ≡ true
unfolding user_permissions run wavvon_server.Hub.Roles.delete_role
    wavvon_server.Hub.Roles.Checks.check_delete wavvon_server.Hub.Permissions.Caller.require
    wavvon_server.Hub.Moderation.Bans.kick_user wavvon_server.Hub.Roles.assign_role
    wavvon_server.Hub.Roles.Checks.check_assign wavvon_server.Hub.Roles.Checks.get_role
    wavvon_server.Hub.Permissions.Caller.require_can_grant
    wavvon_server.Hub.Roles.Checks.role_permissions
run-no_new_owner_example = run-no_new_owner acts sample "alice" sample-IsSound refl

run-no_escalation_example : has (user_permissions sample "alice") "channels.manage" ≡ true
unfolding has user_permissions run wavvon_server.Hub.Roles.delete_role
    wavvon_server.Hub.Roles.Checks.check_delete wavvon_server.Hub.Permissions.Caller.require
    wavvon_server.Hub.Moderation.Bans.kick_user wavvon_server.Hub.Roles.assign_role
    wavvon_server.Hub.Roles.Checks.check_assign wavvon_server.Hub.Roles.Checks.get_role
    wavvon_server.Hub.Permissions.Caller.require_can_grant
    wavvon_server.Hub.Roles.Checks.role_permissions
run-no_escalation_example =
    run-no_escalation acts sample "alice" "channels.manage" sample-IsSound
      (refl, (refl, (refl, (refl, tt)))) refl

perform-outranked_example : perform "bob" (kicks "alice") sample ≡ sample
unfolding user_permissions
perform-outranked_example = perform-outranked "bob" "alice" (kicks "alice") sample refl refl

-- Alice bans Carol for a minute.
abbrev minute : BanRequest
minute = record { target_public_key = "carol"; reason = none; duration_seconds = some 60 }

ban_user-bans_example : is_banned (ban_user "alice" minute 10 sample).0 "carol" 69 ≡ true
unfolding ban_user user_permissions
ban_user-bans_example = (ban_user-bans "alice" minute 10 sample (omega arith) refl).1 69

channel_ban-closes_example :
    has
      (channel_permissions (channel_ban "alice" "staff" "bob" none 10 sample).0 "bob" "staff")
      "messages.manage"
    ≡ false
unfolding channel_ban user_permissions
channel_ban-closes_example =
    channel_ban-closes "alice" "staff" "bob" none 10 sample "messages.manage" sample-IsRanked refl

-- Carol may read the lounge again.
channel_unban-reopens_example :
    has
      (channel_permissions (channel_unban "alice" "lounge" "carol" sample).0 "carol" "lounge")
      "messages.read"
    ≡ true
unfolding channel_unban user_permissions wavvon_server.Hub.Permissions.Cascade.Laws.cascade
    wavvon_server.Hub.Permissions.Cascade.Rows.role_overwrites
channel_unban-reopens_example =
    channel_unban-reopens "alice" "lounge" "carol" sample "messages.read" refl
