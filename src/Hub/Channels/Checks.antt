-- ===== src/Hub/Channels/Checks.antt =====
-- The requests of crates/hub/src/routes/chat_models.rs for channels, and what the handlers of
-- channels.rs check before they write.
use Prim.Native.String.{◌++◌}
use wavvon_server.Base.{
  ℕ, ◌-◌, ltb, leb, String, Bool, true, false, not, ◌&&◌, ◌||◌, List, [], ◌∷◌, Option, none, some,
  ℤ, str_eq, any, find, if◌then◌else◌,
}
use wavvon_server.Base.Chars.{chars, starts_with}
use wavvon_server.Http.{Result, ok, fail, guard, bad_request, not_found, ◌>>=◌, ◌>>◌}
use wavvon_server.Hub.Db.{Db, ChannelRow}
use wavvon_server.Hub.Permissions.Catalogue.{channels_manage}
use wavvon_server.Hub.Permissions.Caller.{UserPermissions, user_permissions, require}
use wavvon_server.Hub.Permissions.Resolve.{channel_permissions}
use wavvon_server.Hub.Channels.Walks.{node_depth, read_max_depth}

pub record CreateChannelRequest : Type 0 where
  pub name : List ℕ
  pub parent_id : Option String
  pub is_category : Bool
  pub description : Option String
  pub channel_type : Option String
  pub banner_url : Option (List ℕ)
  pub banner_file_id : Option String
  pub spawner_name_template : Option String
  pub nsfw : Bool

-- An absent field is `none`; where a field is twice optional, `some none` clears it.
pub record UpdateChannelRequest : Type 0 where
  pub name : Option (List ℕ)
  pub description : Option String
  pub parent_id : Option (Option String)
  pub icon : Option (Option String)
  pub color : Option (Option String)
  pub custom_icon_svg : Option (Option String)
  pub min_talk_power : Option ℤ
  pub retention_days : Option (Option ℤ)
  pub banner_url : Option (List ℕ)
  pub banner_file_id : Option String
  pub forum_require_tag : Option Bool
  pub nsfw : Option Bool
  pub channel_type : Option String

abbrev pub is_some {ℓ} : {A : Type ℓ} → Option A → Bool
is_some none = false
is_some (some a) = true

-- `if b { check? }`
abbrev pub when : Bool → Result (Unit {0}) → Result (Unit {0})
when true r = r
when false r = ok tt

-- A check of a field that is given.
abbrev pub when_given {ℓ} : {A : Type ℓ} → Option A → (A → Result (Unit {0})) → Result (Unit {0})
when_given none f = ok tt
when_given (some a) f = f a

abbrev pub row_of : Db → String → Option ChannelRow
row_of db id = find (λ c. str_eq c.id id) db.channels

-- The `match` on `is_category` of the parent.
unfoldable pub require_category : Db → String → Result (Unit {0})
require_category db parent_id = elim (row_of db parent_id) [
  | none ↦ fail not_found "Parent channel not found"
  | some c ↦ guard c.is_category bad_request "Parent must be a category"
]

-- The limit of the setting, which counts from 1; 0 is none.
unfoldable pub check_depth : ℕ → ℕ → Bool → Result (Unit {0})
check_depth max_depth new_depth is_category = do
  guard (not (ltb (max_depth - 1) new_depth)) bad_request "depth_exceeded"
  guard (not (is_category && leb (max_depth - 1) new_depth)) bad_request "category_at_max_depth"

unfoldable pub check_new_depth : Db → CreateChannelRequest → Result (Unit {0})
unfolding read_max_depth node_depth check_depth
check_new_depth db req =
    if ltb 0 (read_max_depth db)
    then (do
      new_depth ← node_depth db req.parent_id
      check_depth (read_max_depth db) new_depth req.is_category)
    else ok tt

-- The type that a new channel gets; a category is "text".
unfoldable pub new_channel_type : CreateChannelRequest → Result String
new_channel_type req = if req.is_category then ok "text" else elim req.channel_type [
  | none ↦ ok "text"
  | some t ↦
      if any (str_eq t) ("text" ∷ "voice" ∷ "forum" ∷ "banner" ∷ "spawner" ∷ [])
      then ok t
      else fail bad_request ("unknown channel_type: " ++ t)
]

abbrev https : List ℕ
https = chars "https://"

unfoldable pub check_url : List ℕ → Result (Unit {0})
check_url url = guard (starts_with https url) bad_request "banner_url must be an https:// URL"

unfoldable pub check_new_banner : CreateChannelRequest → String → Result (Unit {0})
unfolding check_url
check_new_banner req channel_type =
    if str_eq channel_type "banner"
    then (do
      guard (not (is_some req.banner_url && is_some req.banner_file_id)) bad_request
          "banner_url and banner_file_id are mutually exclusive"
      when_given req.banner_url check_url)
    else guard (not (is_some req.banner_url || is_some req.banner_file_id)) bad_request
        "banner_url and banner_file_id are only valid for banner channels"

abbrev pub parent_permissions : Db → String → Option String → UserPermissions
parent_permissions db user none = user_permissions db user
parent_permissions db user (some parent_id) = channel_permissions db user parent_id

-- What `create_channel` checks before it writes, and the type that it writes.
unfoldable pub check_create_channel : String → CreateChannelRequest → Db → Result String
unfolding require require_category check_new_depth new_channel_type check_new_banner
check_create_channel user req db = do
  require (parent_permissions db user req.parent_id) channels_manage
  when_given req.parent_id (require_category db)
  check_new_depth db req
  channel_type ← new_channel_type req
  guard (not (is_some req.spawner_name_template && not (str_eq channel_type "spawner"))) bad_request
      "spawner_name_template is only valid for spawner channels"
  check_new_banner req channel_type
  ok channel_type
