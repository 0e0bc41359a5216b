-- ===== src/Hub/Permissions/Resolve/Laws.antt =====
-- The resolvers in closed form, and that the batch over all channels agrees with the resolver of
-- one channel.
use mathlib.Core.List.{reverse-reverse}
use wavvon_server.Base.{String, Bool, not, ◌&&◌, ◌||◌, ◌≡◌, List, ◌∷◌, arith, contains}
use wavvon_server.Hub.Db.{Db, OverwriteRow}
use wavvon_server.Hub.Permissions.Caller.{UserPermissions, has, user_permissions, role_ids}
use wavvon_server.Hub.Permissions.Cascade.{
  parent_of, climb, depth_cap, ancestor_chain, fetch_overwrites,
}
use wavvon_server.Hub.Permissions.Cascade.Laws.{cascade, contains-fold_overwrites}
use wavvon_server.Hub.Permissions.Cascade.Rows.{
  role_overwrites, cascade-fetch_overwrites, cascade-no_roles, All-contains_self,
  All-contains-reverse,
}
use wavvon_server.Hub.Permissions.Resolve.{banned_channels, channel_permissions}

-- The channel and its ancestors, the nearest first.
abbrev pub lineage : Db → String → List String
lineage db c = c ∷ climb depth_cap (parent_of db.channels) c

-- The overwrites of the roles that the user holds.
abbrev pub user_overwrites : Db → String → List OverwriteRow
user_overwrites db u = role_overwrites db.overwrites (role_ids (user_permissions db u).roles)

-- The answer of the cascade for a member who is neither the owner nor banned.
abbrev pub cascaded : Db → String → String → String → Bool
cascaded db u c p =
    cascade (user_overwrites db u) p (lineage db c) (contains (user_permissions db u).effective p)

-- On a channel a caller has a permission exactly when they own the hub, or are not banned from the
-- channel and the nearest of the channel and its ancestors that has an overwrite of their roles
-- for the permission allows it, their hub-wide permissions deciding where none has.
pub has-channel_permissions :
    (db : Db) (u c p : String)
    → has (channel_permissions db u c) p ≡ (
        (user_permissions db u).is_owner
        || (not (contains (banned_channels db u) c) && cascaded db u c p))
unfolding has channel_permissions ancestor_chain
has-channel_permissions db u c p =
    let b : UserPermissions = user_permissions db u in
    let chain = ancestor_chain db c in
    let rows = fetch_overwrites db chain (role_ids b.roles) in
    ground (
      arith,
      contains-fold_overwrites b.effective chain rows p,
      reverse-reverse (lineage db c),
      cascade-fetch_overwrites db chain (role_ids b.roles) p (lineage db c) (contains b.effective p)
          (All-contains-reverse (lineage db c) (lineage db c) (All-contains_self (lineage db c))),
      cascade-no_roles db.overwrites p (lineage db c) (contains b.effective p),
    )
