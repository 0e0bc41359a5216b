-- ===== src/Hub/Db/Rows.antt =====
-- The rows of the tables of crates/hub/src/db/migrations.rs.
use wavvon_server.Base.{ℕ, String, List, Bool, Option, ℤ}

pub record RoleRow : Type 0 where
  pub id : String
  pub name : String
  pub priority : ℤ
  pub display_separately : Bool
  pub created_at : ℕ
  -- Colours and icons are texts that the code walks: their characters.
  pub color : Option (List ℕ)
  pub icon : Option (List ℕ)
  pub category_id : Option String

pub record RolePermission : Type 0 where
  pub role_id : String
  pub permission : String

pub record UserRole : Type 0 where
  pub user_public_key : String
  pub role_id : String
  pub assigned_at : ℕ

pub record UserRow : Type 0 where
  pub public_key : String
  pub master_pubkey : Option String
  pub is_member : Bool
  pub approval_status : String

pub record ChannelRow : Type 0 where
  pub id : String
  -- Names and addresses are texts that the code walks: their characters.
  pub name : List ℕ
  pub created_by : String
  pub parent_id : Option String
  pub is_category : Bool
  pub display_order : ℕ
  pub description : Option String
  pub created_at : ℕ
  pub icon : Option String
  pub color : Option String
  pub custom_icon_svg : Option String
  pub min_talk_power : ℤ
  pub channel_type : String
  pub retention_days : Option ℤ
  pub banner_url : Option (List ℕ)
  pub banner_file_id : Option String
  pub is_temporary : Bool
  pub owner_pubkey : Option String
  pub spawner_name_template : Option String
  pub forum_require_tag : Bool
  pub nsfw : Bool

pub record AttachmentBlob : Type 0 where
  pub sha256 : String
  pub kind : String

pub record Attachment : Type 0 where
  pub id : String
  pub sha256 : Option String
  pub channel_id : String
  pub removed_at : Option ℕ
  pub expired_at : Option ℕ

pub record OverwriteRow : Type 0 where
  pub channel_id : String
  pub role_id : String
  pub permission : String
  pub allow : Bool
  pub created_at : ℕ

-- A row of `channel_bans`.
pub record ChannelBan : Type 0 where
  pub channel_id : String
  pub target_public_key : String
  pub banned_by : String
  pub reason : Option String
  pub created_at : ℕ

-- A row of `bans` or of `mutes`: no expiry is permanent. The author is the column `banned_by`, or
-- `muted_by`.
pub record Sanction : Type 0 where
  pub target_public_key : String
  pub issued_by : String
  pub reason : Option String
  pub expires_at : Option ℤ
  pub created_at : ℕ

-- A row of `voice_mutes`.
pub record VoiceMute : Type 0 where
  pub target_public_key : String
  pub muted_by : String
  pub reason : Option String
  pub created_at : ℕ

-- A row of `channel_voice_mutes`.
pub record ChannelVoiceMute : Type 0 where
  pub channel_id : String
  pub pubkey : String
  pub muted_by : String
  pub muted_at : ℕ

pub record Session : Type 0 where
  pub token : String
  pub public_key : String

-- Where an identity was last seen, as the keyed hash of its address.
pub record IpSighting : Type 0 where
  pub public_key : String
  pub ip_hash : String
  pub seen_at : ℕ

pub record BanIpFlag : Type 0 where
  pub ip_hash : String
  pub banned_pubkey : String
  pub expires_at : ℤ

-- A row of `channel_settings`.
pub record TalkPower : Type 0 where
  pub channel_id : String
  pub min_talk_power : ℤ

pub record RaisedHand : Type 0 where
  pub id : String
  pub channel_id : String
  pub pubkey : String
  pub requested_at : ℕ

pub record FederatedBan : Type 0 where
  pub source_hub_pubkey : String
  pub target_master_pubkey : String

pub record BanSource : Type 0 where
  pub url : String
  pub policy : String
  pub issuer_pubkey : Option String

pub record BanOverride : Type 0 where
  pub target_pubkey : String
  pub override_type : String

pub record AdmissionFlag : Type 0 where
  pub public_key : String
  pub matched_pubkey : String
  pub flagged_at : ℕ

-- A row of `surveys`.
pub record Survey : Type 0 where
  pub id : String
  pub purpose : String
  pub enabled : Bool

pub record Invite : Type 0 where
  pub code : String
  pub created_by : String
  -- None is unlimited, and never.
  pub max_uses : Option ℤ
  pub uses : ℕ
  pub expires_at : Option ℤ
  pub grant_role_id : Option String
  pub bound_pubkey : Option String

pub record Setting : Type 0 where
  pub key : String
  pub value : String
