-- ===== src/Hub/Permissions/Resolve.antt =====
-- The resolvers of crates/hub/src/permissions.rs: one channel, and the batch over all channels.
pub mod Laws
pub mod Batch
pub mod Everyone
use wavvon_server.Base.{
  String, Bool, false, not, ◌&&◌, List, [], ◌∷◌, map, none, pos, str_eq, contains, retain, is_empty,
  if◌then◌else◌,
}
use wavvon_server.Hub.Db.{Db}
use wavvon_server.Hub.Permissions.Caller.{
  UserPermissions, user_permissions, fetch_permissions, role_ids, builtin_everyone_role_id,
}
use wavvon_server.Hub.Permissions.Cascade.{
  ParentMap, ancestor_chain, ancestor_chain_from_map, collect_parents, fetch_overwrites,
  fold_overwrites,
}

unfoldable pub banned_channels : Db → String → List String
banned_channels db user =
    map (λ b. b.channel_id) (retain (λ b. str_eq b.target_public_key user) db.channel_bans)

unfoldable pub channel_permissions : Db → String → String → UserPermissions
channel_permissions db user channel_id =
    let baseline : UserPermissions = user_permissions db user in
    if not baseline.is_owner && contains (banned_channels db user) channel_id
    then record baseline { effective = [] }
    else if is_empty baseline.roles
    then baseline
    else let chain = ancestor_chain db channel_id in
      let rows = fetch_overwrites db chain (role_ids baseline.roles) in
      record baseline { effective = fold_overwrites baseline.effective chain rows }

unfoldable pub everyone_channel_permissions : Db → String → UserPermissions
everyone_channel_permissions db channel_id =
    let floor : List String = builtin_everyone_role_id ∷ [] in
    let chain = ancestor_chain db channel_id in
    let rows = fetch_overwrites db chain floor in
    record {
      roles = [];
      effective = fold_overwrites (fetch_permissions db floor) chain rows;
      max_priority = pos 0;
      is_owner = false;
    }

abbrev pub channel_ids : Db → List String
channel_ids db = map (λ c. c.id) db.channels

-- The filter's closure in the last step of `channels_with_permission`.
unfoldable pub channel_allows : Db → String → String → String → Bool
channel_allows db user permission id =
    let baseline : UserPermissions = user_permissions db user in
    let parents : ParentMap = collect_parents db.channels (λ _. none) in
    let rows = fetch_overwrites db (channel_ids db) (role_ids baseline.roles) in
    if contains (banned_channels db user) id
    then false
    else contains (fold_overwrites baseline.effective (ancestor_chain_from_map parents id) rows)
        permission

unfoldable pub channels_with_permission : Db → String → String → List String
unfolding channel_allows
channels_with_permission db user permission =
    let baseline : UserPermissions = user_permissions db user in
    if baseline.is_owner
    then channel_ids db
    else if is_empty baseline.roles
    then retain
        (λ id.
          contains baseline.effective permission && not (contains (banned_channels db user) id))
        (channel_ids db)
    else retain (channel_allows db user permission) (channel_ids db)
