-- ===== src/Hub/Sample.antt =====
-- A small hub, to which the theorems are applied.
use wavvon_server.Base.{ℕ, refl, String, Bool, true, false, [], ◌∷◌, Option, none, some, pos}
use wavvon_server.Base.Chars.{chars}
use wavvon_server.Hub.Db.{Db, RoleRow, RolePermission, UserRole, UserRow, ChannelRow, OverwriteRow}
use wavvon_server.Hub.Permissions.Resolve.Batch.{IsChannelTree}
use wavvon_server.Hub.Roles.Ownership.{IsRanked}

abbrev pub role : String → String → ℕ → RoleRow
role id name priority = record {
  id = id;
  name = name;
  priority = pos priority;
  display_separately = false;
  created_at = 1;
  color = none;
  icon = none;
  category_id = none;
}

abbrev pub grant : String → String → RolePermission
grant role_id permission = record { role_id = role_id; permission = permission }

abbrev pub holds : String → String → UserRole
holds user role_id = record { user_public_key = user; role_id = role_id; assigned_at = 1 }

abbrev pub member : String → UserRow
member key = record {
  public_key = key;
  master_pubkey = none;
  is_member = true;
  approval_status = "approved";
}

abbrev pub channel : String → Option String → ChannelRow
channel id parent_id = record {
  id = id;
  name = chars id;
  created_by = "alice";
  parent_id = parent_id;
  is_category = true;
  display_order = 0;
  description = none;
  created_at = 1;
  icon = none;
  color = none;
  custom_icon_svg = none;
  min_talk_power = pos 0;
  channel_type = "text";
  retention_days = none;
  banner_url = none;
  banner_file_id = none;
  is_temporary = false;
  owner_pubkey = none;
  spawner_name_template = none;
  forum_require_tag = false;
  nsfw = false;
}

abbrev pub overwrite : String → String → String → Bool → OverwriteRow
overwrite channel_id role_id permission allow = record {
  channel_id = channel_id;
  role_id = role_id;
  permission = permission;
  allow = allow;
  created_at = 1;
}

-- Alice owns the hub, Bob may manage roles and messages, Carol is a member. The staff channel is
-- closed to everyone, and the lounge under it is open again; Carol is banned from the lounge.
abbrev pub sample : Db
sample = record {
  roles =
      role "builtin-owner" "Owner" 999999
      ∷ role "mod" "Moderator" 10
      ∷ role "helper" "Helper" 5
      ∷ role "builtin-everyone" "everyone" 0
      ∷ [];
  role_permissions =
      grant "builtin-everyone" "messages.read"
      ∷ grant "mod" "roles.manage"
      ∷ grant "mod" "messages.manage"
      ∷ grant "helper" "messages.manage"
      ∷ [];
  user_roles = holds "alice" "builtin-owner" ∷ holds "bob" "mod" ∷ [];
  users = member "alice" ∷ member "bob" ∷ member "carol" ∷ [];
  channels = channel "lounge" (some "staff") ∷ channel "staff" none ∷ [];
  attachments = [];
  attachment_blobs = [];
  overwrites =
      overwrite "staff" "builtin-everyone" "messages.read" false
      ∷ overwrite "lounge" "builtin-everyone" "messages.read" true
      ∷ [];
  channel_bans =
      record {
        channel_id = "lounge";
        target_public_key = "carol";
        banned_by = "alice";
        reason = none;
        created_at = 1;
      }
      ∷ [];
  bans =
      record {
        target_public_key = "mallory";
        issued_by = "alice";
        reason = none;
        expires_at = some (pos 100);
        created_at = 1;
      }
      ∷ [];
  mutes = [];
  voice_mutes = [];
  channel_voice_mutes = [];
  sessions = record { token = "t1"; public_key = "carol" } ∷ [];
  ip_sightings = record { public_key = "carol"; ip_hash = "h1"; seen_at = 5 } ∷ [];
  ban_ip_flags = [];
  channel_settings = [];
  raise_hand_requests = [];
  federated_bans = record { source_hub_pubkey = "hub2"; target_master_pubkey = "mallory" } ∷ [];
  federated_ban_sources =
      record { url = "https://hub2"; policy = "soft-flag"; issuer_pubkey = some "hub2" } ∷ [];
  federated_ban_overrides = [];
  role_categories = [];
  admission_flags = [];
  surveys = [];
  invites =
      record {
        code = "c";
        created_by = "bob";
        max_uses = some (pos 1);
        uses = 0;
        expires_at = none;
        grant_role_id = some "helper";
        bound_pubkey = none;
      }
      ∷ [];
  hub_settings = [];
}

pub sample-IsChannelTree : IsChannelTree sample
sample-IsChannelTree = record { unique = (refl, (refl, tt)); parents = (refl, (tt, tt)) }

pub sample-IsRanked : IsRanked sample
sample-IsRanked = record {
  below = (refl, (refl, (refl, (refl, tt))));
  owner = (λ e. refl, (λ e. cc, (λ e. cc, (λ e. cc, tt))));
}
