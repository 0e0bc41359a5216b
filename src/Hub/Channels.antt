-- ===== src/Hub/Channels.antt =====
-- crates/hub/src/routes/channels.rs: the handlers that create, change, order and delete channels.
-- What they send to the connected clients, the audit events and what `create_channel` answers are
-- not modelled.
pub mod Walks
pub mod Checks
pub mod Update
pub mod Forest
pub mod Moves
mod Subtree
pub mod Deletion
mod Examples
use wavvon_server.Base.{
  ℕ, suc, ◌+◌, max, String, Bool, true, false, not, ◌&&◌, ◌||◌, List, [], ◌∷◌, map, Option, none,
  some, ℤ, pos, str_eq, any, retain, contains, if◌then◌else◌,
}
use wavvon_server.Base.Chars.{chars_eq}
use wavvon_server.Http.{Result, ok, err, fail, guard, conflict, not_found, ◌>>◌}
use wavvon_server.Hub.Db.{Db, ChannelRow, Handler}
use wavvon_server.Hub.Permissions.Catalogue.{channels_manage}
use wavvon_server.Hub.Permissions.Caller.{user_permissions, require}
use wavvon_server.Hub.Permissions.Resolve.{channel_permissions}
use Walks.{channel_subtree_ids}
use Checks.{CreateChannelRequest, check_create_channel, is_some, row_of}
use Update.{set_channel}

-- `SELECT COALESCE(MAX(display_order), -1) + 1 FROM channels`
unfoldable pub next_order : List ChannelRow → ℕ
next_order [] = 0
next_order (c ∷ cs) = max (c.display_order + 1) (next_order cs)

unfoldable pub new_channel : String → CreateChannelRequest → String → String → ℕ → ℕ → ChannelRow
new_channel user req channel_type id order now = record {
  id = id;
  name = req.name;
  created_by = user;
  parent_id = req.parent_id;
  is_category = req.is_category;
  display_order = order;
  description = req.description;
  created_at = now;
  icon = none;
  color = none;
  custom_icon_svg = none;
  min_talk_power = pos 0;
  channel_type = channel_type;
  retention_days = none;
  banner_url = req.banner_url;
  banner_file_id = req.banner_file_id;
  is_temporary = false;
  owner_pubkey = none;
  spawner_name_template = req.spawner_name_template;
  forum_require_tag = false;
  nsfw = req.nsfw;
}

-- `INSERT INTO channels`: the id and the name are unique. The text of the conflict leaves out the name,
-- which is a list of numbers here.
unfoldable pub insert_channel : ChannelRow → Handler (Unit {0})
insert_channel row db =
    if any (λ c. str_eq c.id row.id || chars_eq c.name row.name) db.channels
    then (db, fail conflict "Channel already exists")
    else (record db { channels = row ∷ db.channels }, ok tt)

-- `id` is the fresh UUID.
unfoldable pub create_channel : String → CreateChannelRequest → String → ℕ → Handler (Unit {0})
unfolding check_create_channel next_order new_channel insert_channel
create_channel user req id now db =
    let check : Result String = check_create_channel user req db in
    elim check [
      | err e ↦ (db, err e)
      | ok channel_type ↦
          insert_channel (new_channel user req channel_type id (next_order db.channels) now) db
    ]

-- The loop of `reorder_channels`, from an index on.
unfoldable pub write_order : List String → ℕ → Db → Db
unfolding set_channel
write_order [] index db = db
write_order (id ∷ ids) index db =
    write_order ids (suc index) (set_channel id (λ c. record c { display_order = index }) db)

unfoldable pub reorder_channels : String → List String → Handler (Unit {0})
unfolding require write_order
reorder_channels user channel_ids db =
    let check : Result (Unit {0}) = require (user_permissions db user) channels_manage in
    elim check [ err e ↦ (db, err e) | ok u ↦ (write_order channel_ids 0 db, ok tt) ]

-- The transaction of `delete_channels`, on the tables of the model; overwrites and attachments go
-- with their channel by the schema.
unfoldable pub delete_channels : List String → Db → Db
delete_channels ids db = record db {
  channel_bans = retain (λ b. not (contains ids b.channel_id)) db.channel_bans;
  channel_settings = retain (λ s. not (contains ids s.channel_id)) db.channel_settings;
  overwrites = retain (λ o. not (contains ids o.channel_id)) db.overwrites;
  attachments = retain (λ a. not (contains ids a.channel_id)) db.attachments;
  channels = retain (λ c. not (contains ids c.id)) db.channels;
}

unfoldable pub check_delete_channel : String → String → Db → Result (Unit {0})
unfolding require
check_delete_channel user channel_id db = do
  require (channel_permissions db user channel_id) channels_manage
  guard (is_some (row_of db channel_id)) not_found "Channel not found"

unfoldable pub delete_channel : String → String → Handler (Unit {0})
unfolding check_delete_channel channel_subtree_ids delete_channels
delete_channel user channel_id db =
    let check : Result (Unit {0}) = check_delete_channel user channel_id db in
    elim check [
      | err e ↦ (db, err e)
      | ok u ↦ (delete_channels (channel_subtree_ids db channel_id) db, ok tt)
    ]
