-- ===== src/Hub/Moderation/Rooms/Effects.antt =====
-- What a ban from a channel, and its end, do to the permissions there.
use wavvon_server.Base.{
  ℕ, String, true, false, not, ◌&&◌, ◌||◌, ◌≡◌, refl, List, [], ◌∷◌, map, Option, arith, str_eq,
  str_eq_refl, retain, contains,
}
use wavvon_server.Http.{ok}
use wavvon_server.Hub.Db.{Db, ChannelBan}
use wavvon_server.Hub.Permissions.Catalogue.{moderation_ban_permanent}
use wavvon_server.Hub.Permissions.Caller.{has, user_permissions, member_role}
use wavvon_server.Hub.Permissions.Caller.Laws.{user_permissions-same}
use wavvon_server.Hub.Permissions.Resolve.{banned_channels, channel_permissions}
use wavvon_server.Hub.Permissions.Resolve.Laws.{has-channel_permissions, cascaded}
use wavvon_server.Hub.Roles.Ownership.{IsRanked}
use wavvon_server.Hub.Moderation.Bans.{require_can_moderate}
use wavvon_server.Hub.Moderation.Rank.{require_can_moderate-not_owner}
use wavvon_server.Hub.Moderation.Rooms.{
  insert_channel_ban, channel_ban, delete_channel_ban, channel_unban,
}

abbrev ban_row : String → String → String → Option String → ℕ → ChannelBan
ban_row user channel_id pubkey reason now = record {
  channel_id = channel_id;
  target_public_key = pubkey;
  banned_by = user;
  reason = reason;
  created_at = now;
}

channel_ban-passed :
    (user channel_id pubkey : String) (reason : Option String) (now : ℕ) (db : Db)
    → (channel_ban user channel_id pubkey reason now db).1 ≡ ok tt
    → (require_can_moderate user pubkey moderation_ban_permanent db ≡ ok tt)
      × ((channel_ban user channel_id pubkey reason now db).0
          ≡ (insert_channel_ban (ban_row user channel_id pubkey reason now) db).0)
      × ((insert_channel_ban (ban_row user channel_id pubkey reason now) db).1 ≡ ok tt)
unfolding channel_ban
channel_ban-passed user channel_id pubkey reason now db h =
    (ground arith, ground arith, ground arith)

banned-insert_channel_ban :
    (row : ChannelBan) (db : Db)
    → (insert_channel_ban row db).1 ≡ ok tt
    → contains (banned_channels (insert_channel_ban row db).0 row.target_public_key) row.channel_id
      ≡ true
unfolding insert_channel_ban banned_channels
banned-insert_channel_ban row db h =
    ground (arith, str_eq_refl row.target_public_key, str_eq_refl row.channel_id)

user_permissions-insert_channel_ban :
    (row : ChannelBan) (db : Db) (u : String)
    → user_permissions (insert_channel_ban row db).0 u ≡ user_permissions db u
unfolding insert_channel_ban member_role
user_permissions-insert_channel_ban row db u =
    user_permissions-same (insert_channel_ban row db).0 db u (ground arith) (ground arith)
      λ id. ground arith

-- Where the owner role is on top, a ban from a channel that succeeds leaves the target without any
-- permission there, whatever the overwrites say.
pub channel_ban-closes :
    (user channel_id pubkey : String) (reason : Option String) (now : ℕ) (db : Db) (p : String)
    → IsRanked db
    → (channel_ban user channel_id pubkey reason now db).1 ≡ ok tt
    → has
        (channel_permissions (channel_ban user channel_id pubkey reason now db).0 pubkey channel_id)
        p
      ≡ false
channel_ban-closes user channel_id pubkey reason now db p ranked done =
    let row = ban_row user channel_id pubkey reason now in
    let (passed, written, stored) = channel_ban-passed user channel_id pubkey reason now db done in
    rw written (
      ground (
        arith,
        has-channel_permissions (insert_channel_ban row db).0 pubkey channel_id p,
        banned-insert_channel_ban row db stored,
        user_permissions-insert_channel_ban row db pubkey,
        require_can_moderate-not_owner user pubkey moderation_ban_permanent db ranked passed,
      ))

banned-delete_channel_ban :
    (channel_id pubkey : String) (rows : List ChannelBan)
    → contains
        (map
          (λ b. b.channel_id)
          (retain
            (λ b. str_eq b.target_public_key pubkey)
            (retain
              (λ b. not (str_eq b.channel_id channel_id && str_eq b.target_public_key pubkey))
              rows)))
        channel_id
      ≡ false
banned-delete_channel_ban channel_id pubkey [] = refl
banned-delete_channel_ban channel_id pubkey (b ∷ rows) =
    ground (arith, banned-delete_channel_ban channel_id pubkey rows)

has-delete_channel_ban :
    (channel_id pubkey : String) (db : Db) (p : String)
    → has (channel_permissions (delete_channel_ban channel_id pubkey db) pubkey channel_id) p
      ≡ ((user_permissions db pubkey).is_owner || cascaded db pubkey channel_id p)
unfolding delete_channel_ban user_permissions banned_channels
has-delete_channel_ban channel_id pubkey db p = ground (
  arith,
  has-channel_permissions (delete_channel_ban channel_id pubkey db) pubkey channel_id p,
  banned-delete_channel_ban channel_id pubkey db.channel_bans,
)

channel_unban-written :
    (user channel_id pubkey : String) (db : Db)
    → (channel_unban user channel_id pubkey db).1 ≡ ok tt
    → (channel_unban user channel_id pubkey db).0 ≡ delete_channel_ban channel_id pubkey db
unfolding channel_unban
channel_unban-written user channel_id pubkey db h = ground arith

-- After the end of a ban from a channel that succeeds, the target has there what they have hub-wide
-- and what the overwrites of the channel and its ancestors make of it.
pub channel_unban-reopens :
    (user channel_id pubkey : String) (db : Db) (p : String)
    → (channel_unban user channel_id pubkey db).1 ≡ ok tt
    → has (channel_permissions (channel_unban user channel_id pubkey db).0 pubkey channel_id) p
      ≡ ((user_permissions db pubkey).is_owner || cascaded db pubkey channel_id p)
channel_unban-reopens user channel_id pubkey db p done =
    rw (channel_unban-written user channel_id pubkey db done)
      (has-delete_channel_ban channel_id pubkey db p)
