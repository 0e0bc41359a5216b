-- ===== src/Hub/Channels/Update.antt =====
-- `update_channel` of crates/hub/src/routes/channels.rs: its checks in their order, and its two
-- statements. What is sent to the connected clients is not modelled.
use wavvon_server.Base.{
  ℕ, ◌+◌, ltb, String, Bool, false, not, ◌&&◌, ◌||◌, List, map, Option, none, some, str_eq, any,
  is_empty, if◌then◌else◌,
}
use wavvon_server.Base.Chars.{chars_eq, trim}
use wavvon_server.Http.{Result, ok, err, fail, guard, bad_request, not_found, conflict, ◌>>=◌, ◌>>◌}
use wavvon_server.Hub.Db.{Db, ChannelRow, Handler}
use wavvon_server.Hub.Permissions.Catalogue.{
  channels_manage, channels_appearance, forum_posts_manage,
}
use wavvon_server.Hub.Permissions.Caller.{UserPermissions, require}
use wavvon_server.Hub.Permissions.Resolve.{channel_permissions}
use wavvon_server.Hub.Channels.Walks.{node_depth, is_ancestor, read_max_depth}
use wavvon_server.Hub.Channels.Checks.{
  UpdateChannelRequest, is_some, when, when_given, row_of, require_category, check_depth, check_url,
}

unfoldable pub get_channel : Db → String → Result ChannelRow
get_channel db id = elim (row_of db id) [
  | none ↦ fail not_found "Channel not found"
  | some c ↦ ok c
]

abbrev switchable : String → Bool
switchable t = str_eq t "text" || str_eq t "voice"

unfoldable pub check_switch : UserPermissions → ChannelRow → String → Result (Unit {0})
unfolding require
check_switch perms c to = do
  guard (switchable to && switchable c.channel_type) bad_request
      "channel_type can only switch between text and voice"
  require perms channels_manage

unfoldable pub changes_structure : UpdateChannelRequest → Bool
changes_structure req =
    is_some req.name
    || (is_some req.description
        || (is_some req.parent_id
            || (is_some req.banner_url || (is_some req.banner_file_id || is_some req.nsfw))))

abbrev pub is_owner_of : ChannelRow → String → Bool
is_owner_of c user = elim c.owner_pubkey [ none ↦ false | some k ↦ str_eq k user ]

-- The owner of a temporary channel may rename it, and nothing else.
unfoldable pub owner_rename_only : String → ChannelRow → UpdateChannelRequest → Bool
owner_rename_only user c req =
    c.is_temporary
    && (is_owner_of c user
        && (is_some req.name
            && not (
                is_some req.description
                || (is_some req.parent_id
                    || (is_some req.banner_url
                        || (is_some req.banner_file_id || is_some req.nsfw))))))

unfoldable pub check_forum : UserPermissions → ChannelRow → Result (Unit {0})
unfolding require
check_forum perms c = do
  guard (str_eq c.channel_type "forum") bad_request
      "forum_require_tag is only valid for forum channels"
  require perms forum_posts_manage

-- The permissions that the fields of the request need.
unfoldable pub check_fields :
    String → UserPermissions → ChannelRow → UpdateChannelRequest → Result (Unit {0})
unfolding check_switch changes_structure owner_rename_only check_forum require
check_fields user perms c req = do
  when_given req.channel_type (check_switch perms c)
  when (changes_structure req && not (owner_rename_only user c req)) (require perms channels_manage)
  when (is_some req.icon || (is_some req.color || is_some req.custom_icon_svg))
      (require perms channels_appearance)
  when (is_some req.min_talk_power || is_some req.retention_days) (require perms channels_manage)
  when (is_some req.forum_require_tag) (check_forum perms c)

-- `node_depth` of the new parent is already the depth of what stands under it, and 1 is added.
unfoldable pub check_moved_depth : Db → ChannelRow → String → Result (Unit {0})
unfolding read_max_depth node_depth check_depth
check_moved_depth db c parent_id =
    if ltb 0 (read_max_depth db)
    then (do
      parent_depth ← node_depth db (some parent_id)
      check_depth (read_max_depth db) (parent_depth + 1) c.is_category)
    else ok tt

-- A move under another channel.
unfoldable pub check_parent : Db → ChannelRow → String → String → Result (Unit {0})
unfolding require_category is_ancestor check_moved_depth
check_parent db c channel_id parent_id = do
  guard (not (str_eq parent_id channel_id)) bad_request "A channel can't be its own parent"
  require_category db parent_id
  guard (not (is_ancestor db channel_id parent_id)) bad_request
      "Cannot move a channel into its own descendant"
  check_moved_depth db c parent_id

abbrev pub check_new_parent : Db → ChannelRow → String → Option (Option String) → Result (Unit {0})
check_new_parent db c channel_id none = ok tt
check_new_parent db c channel_id (some none) = ok tt
check_new_parent db c channel_id (some (some parent_id)) = check_parent db c channel_id parent_id

-- The join of `attachments` with `attachment_blobs`: an image of the channel that is still there.
unfoldable pub is_image_of : Db → String → String → Bool
is_image_of db channel_id file_id =
    any
      (λ a.
        str_eq a.id file_id
        && (str_eq a.channel_id channel_id
            && (not (is_some a.removed_at)
                && (not (is_some a.expired_at) && elim a.sha256 [
                  | none ↦ false
                  | some h ↦
                      any (λ b. str_eq b.sha256 h && str_eq b.kind "image") db.attachment_blobs
                ]))))
      db.attachments

unfoldable pub check_banner : Db → ChannelRow → String → UpdateChannelRequest → Result (Unit {0})
unfolding check_url is_image_of
check_banner db c channel_id req = do
  guard (str_eq c.channel_type "banner") bad_request
      "banner_url and banner_file_id are only valid for banner channels"
  when_given req.banner_url check_url
  when_given req.banner_file_id (λ f.
      guard (is_image_of db channel_id f) bad_request
        "banner_file_id must reference an image uploaded to this channel")
  guard (not (is_some req.banner_url && is_some req.banner_file_id)) bad_request
      "banner_url and banner_file_id are mutually exclusive"

-- What `update_channel` checks before it writes.
unfoldable pub check_update_channel :
    String → String → UpdateChannelRequest → Db → Result (Unit {0})
unfolding get_channel check_fields check_parent check_banner
check_update_channel user channel_id req db = do
  c ← get_channel db channel_id
  check_fields user (channel_permissions db user channel_id) c req
  check_new_parent db c channel_id req.parent_id
  when (is_some req.banner_url || is_some req.banner_file_id) (check_banner db c channel_id req)

-- `SET column = …` for a field that is given.
abbrev pub or_else {ℓ} : {A : Type ℓ} → Option A → A → A
or_else none a = a
or_else (some b) a = b

abbrev given {ℓ} : {A : Type ℓ} → Option A → Option A → Option A
given none a = a
given (some b) a = some b

-- A new source of the banner clears the other.
abbrev banner_url_after : UpdateChannelRequest → Option (List ℕ) → Option (List ℕ)
banner_url_after req old = elim req.banner_url [
  | some u ↦ some u
  | none ↦ if is_some req.banner_file_id then none else old
]

abbrev banner_file_after : UpdateChannelRequest → Option String → Option String
banner_file_after req old = elim req.banner_file_id [
  | some f ↦ some f
  | none ↦ if is_some req.banner_url then none else old
]

-- The columns that the built `UPDATE channels SET …` writes; the name has a statement of its own.
unfoldable pub updated_channel : UpdateChannelRequest → ChannelRow → ChannelRow
updated_channel req c = record c {
  description = given req.description c.description;
  icon = or_else req.icon c.icon;
  color = or_else req.color c.color;
  custom_icon_svg = or_else req.custom_icon_svg c.custom_icon_svg;
  parent_id = or_else req.parent_id c.parent_id;
  min_talk_power = or_else req.min_talk_power c.min_talk_power;
  retention_days = or_else req.retention_days c.retention_days;
  banner_url = banner_url_after req c.banner_url;
  banner_file_id = banner_file_after req c.banner_file_id;
  forum_require_tag = or_else req.forum_require_tag c.forum_require_tag;
  nsfw = or_else req.nsfw c.nsfw;
  channel_type = or_else req.channel_type c.channel_type;
}

-- `UPDATE channels SET … WHERE id = $1`
unfoldable pub set_channel : String → (ChannelRow → ChannelRow) → Db → Db
set_channel id f db = record db {
  channels = map (λ c. if str_eq c.id id then f c else c) db.channels;
}

-- The name is unique.
unfoldable pub rename_channel : String → List ℕ → Handler (Unit {0})
unfolding set_channel
rename_channel id name db =
    if is_empty (trim name)
    then (db, fail bad_request "Channel name cannot be empty")
    else if any (λ c. chars_eq c.name (trim name) && not (str_eq c.id id)) db.channels
    then (db, fail conflict "A channel with that name already exists")
    else (set_channel id (λ c. record c { name = trim name }) db, ok tt)

abbrev pub rename_given : String → Option (List ℕ) → Handler (Unit {0})
rename_given id none db = (db, ok tt)
rename_given id (some name) db = rename_channel id name db

unfoldable pub update_channel : String → String → UpdateChannelRequest → Handler (Unit {0})
unfolding check_update_channel updated_channel set_channel rename_channel
update_channel user channel_id req db =
    let check : Result (Unit {0}) = check_update_channel user channel_id req db in
    elim check [
      | err e ↦ (db, err e)
      | ok u ↦ rename_given channel_id req.name (set_channel channel_id (updated_channel req) db)
    ]
