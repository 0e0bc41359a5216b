-- ===== src/Hub/Invites/Grant.antt =====
-- `apply_invite_role_grant` of crates/hub/src/routes/invites.rs: the role that comes with an
-- invite, or with the hub's default.
pub mod Ownership
use wavvon_server.Base.{
  ℕ, String, Bool, true, false, not, ◌&&◌, ◌||◌, Option, none, some, le_ℤ, str_eq, any, find,
  if◌then◌else◌,
}
use wavvon_server.Http.{ok}
use wavvon_server.Hub.Db.{Db, UserRole, Handler}
use wavvon_server.Hub.Permissions.Catalogue.{roles_manage}
use wavvon_server.Hub.Permissions.Caller.{builtin_owner_role_id, user_permissions}
use wavvon_server.Hub.Roles.{db_error, insert_user_role}

unfoldable pub role_is_a_takeover_token : Db → String → Bool
role_is_a_takeover_token db role_id =
    str_eq role_id builtin_owner_role_id
    || any (λ g. str_eq g.role_id role_id && str_eq g.permission roles_manage) db.role_permissions

-- The setting, unless it is empty.
unfoldable pub default_invite_role : Db → Option String
default_invite_role db = elim (find (λ s. str_eq s.key "default_invite_role_id") db.hub_settings) [
  | none ↦ none
  | some s ↦ if str_eq s.value "" then none else some s.value
]

unfoldable pub role_exists : Db → String → Bool
role_exists db role_id = any (λ r. str_eq r.id role_id) db.roles

-- The guard of an explicit grant.
unfoldable pub explicit_role : String → String → Db → Option String
explicit_role created_by role_id db =
    if str_eq created_by "system"
    then some role_id
    else elim (find (λ r. str_eq r.id role_id) db.roles) [
      | none ↦ none
      | some r ↦
          if le_ℤ (user_permissions db created_by).max_priority r.priority
          then none
          else some role_id
    ]

-- The guard of the default.
unfoldable pub default_role : Db → Option String
unfolding default_invite_role role_exists role_is_a_takeover_token
default_role db = elim (default_invite_role db) [
  | none ↦ none
  | some d ↦
      if not (role_exists db d)
      then none
      else if role_is_a_takeover_token db d
      then none
      else some d
]

unfoldable pub granted_role : String → Option String → Db → Option String
unfolding explicit_role default_role
granted_role created_by (some role_id) db = explicit_role created_by role_id db
granted_role created_by none db = default_role db

-- The statement at the end: the role must exist, which an invite of the system is not asked for
-- before.
unfoldable pub grant_role : UserRole → Handler (Unit {0})
unfolding role_exists insert_user_role
grant_role row db =
    if not (role_exists db row.role_id) then (db, db_error) else insert_user_role row db

unfoldable pub apply_invite_role_grant : String → Option String → String → ℕ → Handler (Unit {0})
unfolding granted_role grant_role
apply_invite_role_grant created_by grant_role_id user now db =
    elim (granted_role created_by grant_role_id db) [
      | none ↦ (db, ok tt)
      | some id ↦ grant_role (record { user_public_key = user; role_id = id; assigned_at = now }) db
    ]
