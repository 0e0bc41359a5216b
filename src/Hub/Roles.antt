-- ===== src/Hub/Roles.antt =====
-- crates/hub/src/routes/roles.rs, with the validators of role_models.rs: the handlers that create,
-- change, delete, assign and remove roles.
pub mod Appearance
pub mod Checks
pub mod Updates
pub mod Ranked
pub mod Ownership
pub mod Escalation
pub mod Effects
use Prim.Native.String.{◌++◌}
use wavvon_server.Base.{
  ℕ, String, Bool, true, false, not, ◌&&◌, ◌||◌, List, [], ◌∷◌, map, Option, none, some, ℤ, le_ℤ,
  leb, length, str_eq, contains, find, any, retain, if◌then◌else◌,
}
use wavvon_server.Http.{
  Result, ok, err, fail, guard, bad_request, forbidden, not_found, conflict, internal_server_error,
}
use wavvon_server.Hub.Db.{
  Db, RoleRow, RolePermission, UserRole, Handler, query, execute, answer, ◌>>=◌, ◌>>◌,
}
use wavvon_server.Hub.Permissions.Catalogue.{roles_manage, validate_permissions}
use wavvon_server.Hub.Permissions.Caller.{
  UserPermissions, builtin_owner_role_id, builtin_everyone_role_id, user_permissions, require,
  require_can_grant, member_role,
}
use Checks.{
  CreateRoleRequest, UpdateRoleRequest, check_create, check_update, check_delete, check_assign,
  check_remove, get_role, role_permissions,
}

pub record RoleResponse : Type 0 where
  pub role : RoleRow
  pub permissions : List String

-- A refused statement, as a handler reports it; the driver's own words are left out.
abbrev pub db_error {ℓ} : {A : Type ℓ} → Result A
db_error = fail internal_server_error "DB error"

-- `INSERT INTO roles`: the id and the name are unique.
unfoldable pub insert_role : RoleRow → Handler (Unit {0})
insert_role row db =
    if any (λ r. str_eq r.id row.id || str_eq r.name row.name) db.roles
    then (db, fail conflict ("Role '" ++ (row.name ++ "' already exists")))
    else (record db { roles = row ∷ db.roles }, ok tt)

-- `INSERT INTO role_permissions`: the pair is the primary key.
unfoldable pub insert_permission : String → String → Handler (Unit {0})
insert_permission role_id p db =
    if any (λ g. str_eq g.role_id role_id && str_eq g.permission p) db.role_permissions
    then (db, db_error)
    else (
      record db {
        role_permissions = record { role_id = role_id; permission = p } ∷ db.role_permissions;
      },
      ok tt,
    )

unfoldable pub insert_permissions : String → List String → Handler (Unit {0})
unfolding insert_permission
insert_permissions role_id [] = answer tt
insert_permissions role_id (p ∷ ps) = do insert_permission role_id p; insert_permissions role_id ps

abbrev pub new_role : CreateRoleRequest → String → ℕ → RoleRow
new_role req id now = record {
  id = id;
  name = req.name;
  priority = req.priority;
  display_separately = req.display_separately;
  created_at = now;
  color = req.color;
  icon = req.icon;
  category_id = req.category_id;
}

-- `id` is the fresh UUID.
unfoldable pub create_role : String → CreateRoleRequest → String → ℕ → Handler RoleResponse
unfolding check_create insert_role insert_permissions
create_role user req id now = do
  query (check_create user req)
  insert_role (new_role req id now)
  insert_permissions id req.permissions
  answer (record { role = new_role req id now; permissions = req.permissions })

-- `UPDATE roles SET … WHERE id = $1`
unfoldable pub set_role : String → (RoleRow → RoleRow) → Db → Db
set_role role_id f db = record db {
  roles = map (λ r. if str_eq r.id role_id then f r else r) db.roles;
}

-- `if let Some(a) = …` round a statement.
abbrev pub when_some {ℓ} : {A : Type ℓ} → Option A → (A → Handler (Unit {0})) → Handler (Unit {0})
when_some none f = answer tt
when_some (some a) f = f a

unfoldable pub set_priority : String → ℤ → Handler (Unit {0})
unfolding set_role
set_priority role_id priority = execute (set_role role_id (λ r. record r { priority = priority }))

-- The name is unique.
unfoldable pub set_name : String → String → Handler (Unit {0})
unfolding set_role
set_name role_id name db =
    if any (λ r. str_eq r.name name && not (str_eq r.id role_id)) db.roles
    then (db, db_error)
    else (set_role role_id (λ r. record r { name = name }) db, ok tt)

unfoldable pub replace_permissions : String → List String → Handler (Unit {0})
unfolding insert_permissions
replace_permissions role_id ps = do
  execute (λ db. record db {
    role_permissions = retain (λ g. not (str_eq g.role_id role_id)) db.role_permissions;
  })
  insert_permissions role_id ps

unfoldable pub set_display_separately : String → Option Bool → Handler (Unit {0})
unfolding set_role
set_display_separately role_id o =
    when_some o (λ flag. execute (set_role role_id (λ r. record r { display_separately = flag })))

unfoldable pub set_color : String → Option (Option (List ℕ)) → Handler (Unit {0})
unfolding set_role
set_color role_id o =
    when_some o (λ color. execute (set_role role_id (λ r. record r { color = color })))

unfoldable pub set_icon : String → Option (Option (List ℕ)) → Handler (Unit {0})
unfolding set_role
set_icon role_id o =
    when_some o (λ icon. execute (set_role role_id (λ r. record r { icon = icon })))

unfoldable pub set_category : String → Option (Option String) → Handler (Unit {0})
unfolding set_role
set_category role_id o =
    when_some o (λ id. execute (set_role role_id (λ r. record r { category_id = id })))

-- The statements of `update_role`, in their order; the first that fails is the last.
unfoldable pub write_update : String → UpdateRoleRequest → Handler (Unit {0})
unfolding set_priority set_name replace_permissions set_display_separately set_color set_icon
    set_category
write_update role_id req = do
  when_some req.priority (set_priority role_id)
  when_some req.name (set_name role_id)
  when_some req.permissions (replace_permissions role_id)
  set_display_separately role_id req.display_separately
  set_color role_id req.color
  set_icon role_id req.icon
  set_category role_id req.category_id

-- What `update_role` reads back.
unfoldable pub updated_role : String → Db → Result RoleResponse
updated_role role_id db = elim (get_role db role_id) [
  | ok updated ↦ ok (record { role = updated; permissions = role_permissions db role_id })
  | err e ↦ err e
]

unfoldable pub update_role : String → String → UpdateRoleRequest → Handler RoleResponse
unfolding check_update write_update updated_role
update_role user role_id req = do
  query (check_update user role_id req)
  write_update role_id req
  query (updated_role role_id)

-- The five statements of the transaction, and the overwrites of the role, which the schema
-- deletes with it.
unfoldable pub erase_role : String → Db → Db
erase_role role_id db = record db {
  invites =
      map
        (λ i. elim i.grant_role_id [
          | none ↦ i
          | some g ↦ if str_eq g role_id then record i { grant_role_id = none } else i
        ])
        db.invites;
  hub_settings =
      map
        (λ s.
          if str_eq s.key "default_invite_role_id" && str_eq s.value role_id
          then record s { value = "" }
          else s)
        db.hub_settings;
  user_roles = retain (λ r. not (str_eq r.role_id role_id)) db.user_roles;
  role_permissions = retain (λ g. not (str_eq g.role_id role_id)) db.role_permissions;
  roles = retain (λ r. not (str_eq r.id role_id)) db.roles;
  overwrites = retain (λ o. not (str_eq o.role_id role_id)) db.overwrites;
}

unfoldable pub delete_role : String → String → Handler (Unit {0})
unfolding erase_role
delete_role user role_id = do query (check_delete user role_id); execute (erase_role role_id)

-- `INSERT INTO user_roles … ON CONFLICT DO NOTHING`: the user must exist.
unfoldable pub insert_user_role : UserRole → Handler (Unit {0})
insert_user_role row db =
    if not (any (λ u. str_eq u.public_key row.user_public_key) db.users)
    then (db, db_error)
    else if any (λ r. str_eq r.user_public_key row.user_public_key && str_eq r.role_id row.role_id)
        db.user_roles
    then (db, ok tt)
    else (record db { user_roles = row ∷ db.user_roles }, ok tt)

unfoldable pub assign_role : String → String → String → ℕ → Handler (Unit {0})
unfolding insert_user_role
assign_role user public_key role_id now = do
  query (check_assign user role_id)
  insert_user_role (record { user_public_key = public_key; role_id = role_id; assigned_at = now })

unfoldable pub delete_user_role : String → String → Db → Db
delete_user_role public_key role_id db = record db {
  user_roles =
      retain (λ r. not (str_eq r.user_public_key public_key && str_eq r.role_id role_id))
        db.user_roles;
}

unfoldable pub remove_role : String → String → String → Handler (Unit {0})
unfolding delete_user_role
remove_role user public_key role_id = do
  query (check_remove user role_id)
  execute (delete_user_role public_key role_id)
