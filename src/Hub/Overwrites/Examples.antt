-- ===== src/Hub/Overwrites/Examples.antt =====
-- The theorems about channel overwrites applied to the sample hub.
use wavvon_server.Base.{◌≡◌, refl, true, false, ◌||◌, [], ◌∷◌}
use wavvon_server.Hub.Sample.{sample}
use wavvon_server.Hub.Permissions.Caller.{has}
use wavvon_server.Hub.Permissions.Resolve.{channel_permissions}
use wavvon_server.Hub.Overwrites.Checks.{OverwriteSet}
use wavvon_server.Hub.Overwrites.{put_channel_permissions}
use wavvon_server.Hub.Overwrites.Rows.{
  has_row, put_channel_permissions-sets, put_channel_permissions-atomic,
}
use wavvon_server.Hub.Overwrites.Ceiling.{put_channel_permissions-no_grant}

-- The owner lets helpers send messages in the lounge, and not manage them.
abbrev helpers : OverwriteSet
helpers = record { allow = "messages.send" ∷ []; deny = "messages.manage" ∷ [] }

-- One permission twice: the second row is refused.
abbrev twice : OverwriteSet
twice = record { allow = "messages.send" ∷ "messages.send" ∷ []; deny = [] }

put_channel_permissions-sets_example :
    has_row
      (put_channel_permissions "alice" "lounge" "helper" helpers 2 sample).0
      "lounge"
      "helper"
      "messages.manage"
      false
    ≡ true
unfolding put_channel_permissions channel_permissions
    wavvon_server.Hub.Permissions.Caller.user_permissions
    wavvon_server.Hub.Permissions.Catalogue.validate_channel_overwrite
    wavvon_server.Hub.Permissions.Catalogue.check_overwrite
    wavvon_server.Hub.Permissions.Catalogue.scope_of
    wavvon_server.Hub.Permissions.Catalogue.catalogue
    wavvon_server.Hub.Permissions.Catalogue.allows_channel
    wavvon_server.Hub.Permissions.Caller.first_not_held
put_channel_permissions-sets_example =
    put_channel_permissions-sets "alice" "lounge" "helper" helpers 2 sample "messages.manage" false
      refl

put_channel_permissions-atomic_example :
    (put_channel_permissions "alice" "lounge" "helper" twice 2 sample).0 ≡ sample
unfolding put_channel_permissions channel_permissions
    wavvon_server.Hub.Permissions.Caller.user_permissions
    wavvon_server.Hub.Permissions.Catalogue.validate_channel_overwrite
    wavvon_server.Hub.Permissions.Catalogue.check_overwrite
    wavvon_server.Hub.Permissions.Catalogue.scope_of
    wavvon_server.Hub.Permissions.Catalogue.catalogue
    wavvon_server.Hub.Permissions.Catalogue.allows_channel
    wavvon_server.Hub.Permissions.Caller.first_not_held
put_channel_permissions-atomic_example =
    put_channel_permissions-atomic "alice" "lounge" "helper" twice 2 sample _ refl

put_channel_permissions-no_grant_example :
    (has_row sample "lounge" "helper" "messages.send" true
      || has (channel_permissions sample "alice" "lounge") "messages.send")
    ≡ true
unfolding put_channel_permissions channel_permissions
    wavvon_server.Hub.Permissions.Caller.user_permissions
    wavvon_server.Hub.Permissions.Catalogue.validate_channel_overwrite
    wavvon_server.Hub.Permissions.Catalogue.check_overwrite
    wavvon_server.Hub.Permissions.Catalogue.scope_of
    wavvon_server.Hub.Permissions.Catalogue.catalogue
    wavvon_server.Hub.Permissions.Catalogue.allows_channel
    wavvon_server.Hub.Permissions.Caller.first_not_held
put_channel_permissions-no_grant_example =
    put_channel_permissions-no_grant "alice" "lounge" "helper" helpers 2 sample "lounge" "helper"
      "messages.send" refl
