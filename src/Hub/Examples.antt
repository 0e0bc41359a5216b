-- ===== src/Hub/Examples.antt =====
-- The theorems about roles, permissions and bans applied to the sample hub.
use wavvon_server.Base.{◌≡◌, refl, true, false, [], ◌∷◌, contains}
use wavvon_server.Http.{ok}
use wavvon_server.Hub.Permissions.Caller.{has, require, user_permissions}
use wavvon_server.Hub.Permissions.Cascade.{parent_of, climb, fold_overwrites}
use wavvon_server.Hub.Permissions.Cascade.Rows.{role_overwrites}
use wavvon_server.Hub.Permissions.Cascade.Laws.{cascade, contains-fold_overwrites}
use wavvon_server.Hub.Permissions.Resolve.{
  banned_channels, channel_permissions, channels_with_permission,
}
use wavvon_server.Hub.Permissions.Resolve.Laws.{has-channel_permissions}
use wavvon_server.Hub.Permissions.Resolve.Batch.{channels_with_permission-agrees}
use wavvon_server.Hub.Roles.Checks.{check_delete, get_role}
use wavvon_server.Hub.Roles.{delete_role}
use wavvon_server.Hub.Roles.Effects.{IsErased, delete_role-erases}
use wavvon_server.Hub.Moderation.{is_denied_by_federated_policy}
use wavvon_server.Hub.Moderation.Policy.{is_denied_by_federated_policy_lem}
use wavvon_server.Hub.Db.{Db}
use wavvon_server.Hub.Permissions.Caller.{user_role_rows}
use wavvon_server.Hub.Permissions.Resolve.{everyone_channel_permissions}
use wavvon_server.Hub.Permissions.Resolve.Everyone.{everyone_channel_permissions-agrees}
use wavvon_server.Hub.Sample.{sample, sample-IsChannelTree}

-- The hub blacklists Dave.
abbrev blacklisting : Db
blacklisting = record sample {
  federated_ban_overrides = record { target_pubkey = "dave"; override_type = "blacklist" } ∷ [];
}

-- Bob reads the lounge, which allows what the channel above it denies.
has-channel_permissions_example :
    has (channel_permissions sample "bob" "lounge") "messages.read" ≡ true
unfolding cascade climb parent_of user_permissions banned_channels role_overwrites
has-channel_permissions_example = has-channel_permissions sample "bob" "lounge" "messages.read"

-- Carol is banned from the lounge.
channels_with_permission-agrees_example :
    contains (channels_with_permission sample "carol" "messages.read") "lounge" ≡ false
unfolding has channel_permissions user_permissions banned_channels
channels_with_permission-agrees_example =
    channels_with_permission-agrees sample "carol" "messages.read" "lounge" sample-IsChannelTree

contains-fold_overwrites_example :
    contains
      (fold_overwrites ("messages.read" ∷ []) ("staff" ∷ "lounge" ∷ []) sample.overwrites)
      "messages.read"
    ≡ true
unfolding cascade
contains-fold_overwrites_example =
    contains-fold_overwrites ("messages.read" ∷ []) ("staff" ∷ "lounge" ∷ []) sample.overwrites
      "messages.read"

delete_role-erases_example :
    ((delete_role "bob" "helper" sample).1 ≡ ok tt)
    × IsErased "helper" (delete_role "bob" "helper" sample).0
unfolding check_delete require user_permissions get_role
delete_role-erases_example = delete_role-erases "bob" "helper" sample refl

-- A soft-flag source does not keep Mallory out.
is_denied_by_federated_policy_lem_example : is_denied_by_federated_policy blacklisting "dave" ≡ true
is_denied_by_federated_policy_lem_example =
    is_denied_by_federated_policy_lem blacklisting "dave" (refl, tt)

-- Carol holds the everyone role alone.
everyone_channel_permissions-agrees_example :
    (channel_permissions sample "carol" "staff").effective
    ≡ (everyone_channel_permissions sample "staff").effective
unfolding user_role_rows banned_channels
everyone_channel_permissions-agrees_example =
    everyone_channel_permissions-agrees sample "carol" "staff" refl refl
