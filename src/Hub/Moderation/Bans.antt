-- ===== src/Hub/Moderation/Bans.antt =====
-- crates/hub/src/routes/moderation/bans.rs, with `require_can_moderate` of models.rs: the handlers
-- that ban, mute, time out and kick. What they answer on success is the row that they wrote, and is
-- not modelled, and neither are the messages to the connected clients and the audit events. `now` is the clock's reading.

pub mod Effects
use wavvon_server.Base.{
  ℕ, ◌+◌, ◌*◌, ◌==◌, String, Bool, true, false, not, ◌&&◌, List, [], ◌∷◌, map, ◌++◌, Option, none,
  some, ℤ, pos, le_ℤ, min_ℤ, as_i64, str_eq, ltb, any, retain, if◌then◌else◌,
}
use wavvon_server.Http.{Result, ok, err, guard, bad_request, forbidden}
use wavvon_server.Hub.Db.{
  Db, Sanction, UserRow, IpSighting, BanIpFlag, Handler, query, execute, ◌>>=◌, ◌>>◌,
}
use wavvon_server.Hub.Permissions.Catalogue.{
  moderation_kick, moderation_mute, moderation_timeout, moderation_ban_temporary,
  moderation_ban_permanent,
}
use wavvon_server.Hub.Permissions.Caller.{user_permissions, require}
use wavvon_server.Hub.Roles.{db_error}
use wavvon_server.Hub.BanEvasion.{flag_banned, unflag}

pub record BanRequest : Type 0 where
  pub target_public_key : String
  pub reason : Option String
  pub duration_seconds : Option ℕ

pub record MuteRequest : Type 0 where
  pub target_public_key : String
  pub reason : Option String

pub record TimeoutRequest : Type 0 where
  pub target_public_key : String
  pub reason : Option String
  pub duration_seconds : ℕ

-- The caller has the permission, and outranks the target.
unfoldable pub require_can_moderate : String → String → String → Db → Result (Unit {0})
unfolding require
require_can_moderate actor_key target_key permission db =
    let check : Result (Unit {0}) = require (user_permissions db actor_key) permission in
    elim check [
      | err e ↦ err e
      | ok u ↦
          guard
            (not (
              le_ℤ (user_permissions db actor_key).max_priority
                (user_permissions db target_key).max_priority))
            forbidden "Cannot moderate a user with equal or higher priority"
    ]

unfoldable pub is_user : Db → String → Bool
is_user db key = any (λ u. str_eq u.public_key key) db.users

-- `INSERT … ON CONFLICT (target_public_key) DO UPDATE` on `bans` or `mutes`.
unfoldable pub upsert_sanction : Sanction → List Sanction → List Sanction
upsert_sanction row rows =
    row ∷ retain (λ s. not (str_eq s.target_public_key row.target_public_key)) rows

-- The target references `users`.
unfoldable pub insert_ban : Sanction → Handler (Unit {0})
unfolding is_user upsert_sanction
insert_ban row db =
    if is_user db row.target_public_key
    then (record db { bans = upsert_sanction row db.bans }, ok tt)
    else (db, db_error)

unfoldable pub insert_mute : Sanction → Handler (Unit {0})
unfolding is_user upsert_sanction
insert_mute row db =
    if is_user db row.target_public_key
    then (record db { mutes = upsert_sanction row db.mutes }, ok tt)
    else (db, db_error)

unfoldable pub delete_sessions : String → Db → Db
delete_sessions target db = record db {
  sessions = retain (λ s. not (str_eq s.public_key target)) db.sessions;
}

-- The two statements of the transaction.
unfoldable pub end_membership : String → Db → Db
end_membership target db = record db {
  users =
      map (λ u. if str_eq u.public_key target then record u { is_member = false } else u) db.users;
  user_roles = retain (λ r. not (str_eq r.user_public_key target)) db.user_roles;
}

-- The permission depends on whether the ban ends.
unfoldable pub ban_permission : BanRequest → String
ban_permission req = elim req.duration_seconds [
  | none ↦ moderation_ban_permanent
  | some secs ↦ moderation_ban_temporary
]

unfoldable pub check_duration : BanRequest → Db → Result (Unit {0})
check_duration req db = elim req.duration_seconds [
  | none ↦ ok tt
  | some secs ↦ guard (not (secs == 0)) bad_request "duration_seconds must be greater than zero"
]

unfoldable pub ban_expiry : BanRequest → ℕ → Option ℤ
ban_expiry req now = elim req.duration_seconds [
  | none ↦ none
  | some secs ↦ some (as_i64 (now + secs))
]

-- The rest of `ban_user`, behind the guards and the ban itself.
unfoldable pub expel : BanRequest → ℕ → Db → Db
unfolding ban_expiry flag_banned delete_sessions end_membership
expel req now db = end_membership req.target_public_key (
    delete_sessions req.target_public_key
      (flag_banned req.target_public_key (ban_expiry req now) now db))

unfoldable pub ban_user : String → BanRequest → ℕ → Handler (Unit {0})
unfolding ban_permission require_can_moderate check_duration ban_expiry insert_ban expel
ban_user user req now = do
  query (require_can_moderate user req.target_public_key (ban_permission req))
  query (check_duration req)
  insert_ban (record {
    target_public_key = req.target_public_key;
    issued_by = user;
    reason = req.reason;
    expires_at = ban_expiry req now;
    created_at = now;
  })
  execute (expel req now)

unfoldable pub check_permission : String → String → Db → Result (Unit {0})
unfolding require
check_permission user permission db = require (user_permissions db user) permission

unfoldable pub unban_user : String → String → Handler (Unit {0})
unfolding check_permission unflag
unban_user user target_key = do
  query (check_permission user moderation_ban_permanent)
  execute (λ db.
      unflag target_key
        (record db { bans = retain (λ s. not (str_eq s.target_public_key target_key)) db.bans }))

unfoldable pub mute_user : String → MuteRequest → ℕ → Handler (Unit {0})
unfolding require_can_moderate insert_mute
mute_user user req now = do
  query (require_can_moderate user req.target_public_key moderation_mute)
  insert_mute (record {
    target_public_key = req.target_public_key;
    issued_by = user;
    reason = req.reason;
    expires_at = none;
    created_at = now;
  })

unfoldable pub unmute_user : String → String → Handler (Unit {0})
unfolding check_permission
unmute_user user target_key = do
  query (check_permission user moderation_mute)
  execute (λ db. record db {
    mutes = retain (λ s. not (str_eq s.target_public_key target_key)) db.mutes;
  })

unfoldable pub timeout_user : String → TimeoutRequest → ℕ → Handler (Unit {0})
unfolding require_can_moderate insert_mute
timeout_user user req now = do
  query (require_can_moderate user req.target_public_key moderation_timeout)
  insert_mute (record {
    target_public_key = req.target_public_key;
    issued_by = user;
    reason = req.reason;
    expires_at = some (as_i64 (now + req.duration_seconds));
    created_at = now;
  })

unfoldable pub kick_user : String → String → Handler (Unit {0})
unfolding require_can_moderate delete_sessions end_membership
kick_user user target_key = do
  query (require_can_moderate user target_key moderation_kick)
  execute (delete_sessions target_key)
  execute (end_membership target_key)
