-- ===== src/Hub/Roles/Checks.antt =====
-- The requests of crates/hub/src/routes/role_models.rs, and what the handlers of roles.rs check
-- before they write.
use wavvon_server.Base.{
  ℕ, String, Bool, true, false, not, ◌&&◌, ◌||◌, List, Option, none, some, ℤ, le_ℤ, str_eq, find,
  map, retain, length, leb, if◌then◌else◌,
}
use wavvon_server.Http.{Result, ok, fail, guard, forbidden, not_found, ◌>>=◌, ◌>>◌}
use wavvon_server.Hub.Db.{Db, RoleRow}
use wavvon_server.Hub.Permissions.Catalogue.{roles_manage, validate_permissions}
use wavvon_server.Hub.Permissions.Caller.{
  UserPermissions, builtin_owner_role_id, builtin_everyone_role_id, user_permissions, require,
  require_can_grant,
}
use wavvon_server.Hub.Roles.Appearance.{validate_appearance}

pub record CreateRoleRequest : Type 0 where
  pub name : String
  pub permissions : List String
  pub priority : ℤ
  pub display_separately : Bool
  pub color : Option (List ℕ)
  pub icon : Option (List ℕ)
  pub category_id : Option String

-- An absent field is `none`; of the last three `some none` clears the column.
pub record UpdateRoleRequest : Type 0 where
  pub name : Option String
  pub permissions : Option (List String)
  pub priority : Option ℤ
  pub display_separately : Option Bool
  pub color : Option (Option (List ℕ))
  pub icon : Option (Option (List ℕ))
  pub category_id : Option (Option String)

unfoldable pub require_not_builtin : String → Result (Unit {0})
require_not_builtin role_id =
    guard (not (str_eq role_id builtin_owner_role_id || str_eq role_id builtin_everyone_role_id))
      forbidden "Cannot modify built-in roles"

unfoldable pub get_role : Db → String → Result RoleRow
get_role db role_id = elim (find (λ r. str_eq r.id role_id) db.roles) [
  | none ↦ fail not_found "Role not found"
  | some r ↦ ok r
]

-- What `create_role` checks before it writes.
unfoldable pub check_create : String → CreateRoleRequest → Db → Result (Unit {0})
unfolding require require_can_grant
check_create user req db = do
  let perms : UserPermissions = user_permissions db user
  require perms roles_manage
  guard (not (le_ℤ perms.max_priority req.priority)) forbidden
      "Cannot create role with priority >= your own"
  validate_permissions req.permissions
  require_can_grant perms req.permissions
  validate_appearance db req.color req.icon req.category_id

abbrev pub is_none {ℓ} : {A : Type ℓ} → Option A → Bool
is_none none = true
is_none (some a) = false

unfoldable pub only_permissions : UpdateRoleRequest → Bool
only_permissions req =
    is_none req.name
    && (is_none req.priority
        && (is_none req.display_separately
            && (is_none req.color && (is_none req.icon && is_none req.category_id))))

unfoldable pub check_builtin : String → UpdateRoleRequest → Result (Unit {0})
unfolding only_permissions require_not_builtin
check_builtin role_id req =
    if str_eq role_id builtin_everyone_role_id
    then guard (only_permissions req) forbidden
        "Only the permissions of the everyone role can be changed"
    else require_not_builtin role_id

abbrev pub flat {ℓ} : {A : Type ℓ} → Option (Option A) → Option A
flat none = none
flat (some a) = a

unfoldable pub check_grant : UserPermissions → Option (List String) → Result (Unit {0})
check_grant perms none = ok tt
check_grant perms (some ps) = do validate_permissions ps; require_can_grant perms ps

unfoldable pub check_priority : UserPermissions → Option ℤ → Result (Unit {0})
check_priority perms none = ok tt
check_priority perms (some p) =
    guard (not (le_ℤ perms.max_priority p)) forbidden "Cannot set priority >= your own"

-- What `update_role` checks before it writes; the new priority is the last of it.
unfoldable pub check_update : String → String → UpdateRoleRequest → Db → Result (Unit {0})
unfolding check_builtin check_grant check_priority
check_update user role_id req db = do
  check_builtin role_id req
  let perms : UserPermissions = user_permissions db user
  require perms roles_manage
  existing ← get_role db role_id
  guard (not (le_ℤ perms.max_priority existing.priority)) forbidden
      "Cannot modify role with priority >= your own"
  check_grant perms req.permissions
  validate_appearance db (flat req.color) (flat req.icon) (flat req.category_id)
  check_priority perms req.priority

-- The guard of `delete_role`, `assign_role` and `remove_role`: the role is beneath the caller.
unfoldable pub check_outranks : UserPermissions → RoleRow → String → Result (Unit {0})
check_outranks perms role message =
    guard (not (le_ℤ perms.max_priority role.priority)) forbidden message

unfoldable pub check_delete : String → String → Db → Result (Unit {0})
unfolding require_not_builtin check_outranks
check_delete user role_id db = do
  require_not_builtin role_id
  let perms : UserPermissions = user_permissions db user
  require perms roles_manage
  existing ← get_role db role_id
  check_outranks perms existing "Cannot delete role with priority >= your own"

unfoldable pub role_permissions : Db → String → List String
role_permissions db role_id =
    map (λ g. g.permission) (retain (λ g. str_eq g.role_id role_id) db.role_permissions)

unfoldable pub check_assign : String → String → Db → Result (Unit {0})
unfolding check_outranks
check_assign user role_id db = do
  let perms : UserPermissions = user_permissions db user
  require perms roles_manage
  role ← get_role db role_id
  check_outranks perms role "Cannot assign role with priority >= your own"
  require_can_grant perms (role_permissions db role_id)

-- `SELECT COUNT(*) FROM user_roles WHERE role_id = 'builtin-owner'`
unfoldable pub owner_count : Db → ℕ
owner_count db = length (retain (λ r. str_eq r.role_id builtin_owner_role_id) db.user_roles)

unfoldable pub check_last_owner : String → Db → Result (Unit {0})
unfolding owner_count
check_last_owner role_id db =
    if str_eq role_id builtin_owner_role_id
    then guard (not (leb (owner_count db) 1)) forbidden "Cannot remove the last owner"
    else ok tt

unfoldable pub check_remove : String → String → Db → Result (Unit {0})
unfolding check_outranks check_last_owner
check_remove user role_id db = do
  guard (not (str_eq role_id builtin_everyone_role_id)) forbidden "Cannot remove the everyone role"
  let perms : UserPermissions = user_permissions db user
  require perms roles_manage
  role ← get_role db role_id
  check_outranks perms role "Cannot remove role with priority >= your own"
  check_last_owner role_id db
