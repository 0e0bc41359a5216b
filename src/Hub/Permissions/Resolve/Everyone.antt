-- ===== src/Hub/Permissions/Resolve/Everyone.antt =====
-- What `everyone_channel_permissions` says of ordinary members.
use wavvon_server.Base.{String, false, ◌≡◌, refl, List, [], ◌∷◌, arith, contains, is_empty}
use wavvon_server.Hub.Db.{Db, RoleRow}
use wavvon_server.Hub.Permissions.Caller.{
  user_permissions, user_role_rows, role_ids, builtin_everyone_role_id,
}
use wavvon_server.Hub.Permissions.Resolve.{
  banned_channels, channel_permissions, everyone_channel_permissions,
}

-- The roles are not none.
is_empty-role_ids :
    (rows : List RoleRow) (id : String) → role_ids rows ≡ id ∷ [] → is_empty rows ≡ false
is_empty-role_ids [] id h = cc
is_empty-role_ids (r ∷ rows) id h = refl

-- A member who holds the everyone role alone and is not banned from the channel has there the
-- permissions that the channel shows for everyone.
pub everyone_channel_permissions-agrees :
    (db : Db) (u c : String)
    → role_ids (user_role_rows db u) ≡ builtin_everyone_role_id ∷ []
    → contains (banned_channels db u) c ≡ false
    → (channel_permissions db u c).effective ≡ (everyone_channel_permissions db c).effective
unfolding channel_permissions everyone_channel_permissions user_permissions
everyone_channel_permissions-agrees db u c h k =
    ground (arith, is_empty-role_ids (user_role_rows db u) builtin_everyone_role_id h)
