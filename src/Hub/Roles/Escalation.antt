-- ===== src/Hub/Roles/Escalation.antt =====
-- Nobody gains, by an act on roles, a permission that the actor does not hold.
pub mod Update
pub mod Create
use wavvon_server.Base.{
  ℕ, String, Bool, true, false, not, ◌&&◌, ◌||◌, ◌≡◌, refl, ◌∙◌, ap, List, [], ◌∷◌, map, Option,
  none, some, inl, inr, arith, str_eq, eq_iff, contains, contains-map, any, any-retain, retain, All,
  Bool-cases, if◌then◌else◌,
}
use wavvon_server.Http.{Result, ok, err, fail}
use wavvon_server.Hub.Db.{Db, RoleRow, RolePermission, UserRole, query_then}
use wavvon_server.Hub.Permissions.Caller.{
  UserPermissions, has, require, require_can_grant, member_role, user_permissions,
}
use wavvon_server.Hub.Permissions.Caller.Laws.{
  holds_role, contains-user_permissions, require_can_grant_lem, All-has-contains,
}
use wavvon_server.Hub.Roles.Checks.{check_assign, role_permissions}
use wavvon_server.Hub.Roles.{assign_role, insert_user_role}

-- What `check_assign` has established when it passes.
check_assign-grants :
    (actor role_id : String) (db : Db)
    → check_assign actor role_id db ≡ ok tt
    → All (λ p. has (user_permissions db actor) p ≡ true) (role_permissions db role_id)
unfolding check_assign
check_assign-grants actor role_id db h =
    let perms : UserPermissions = user_permissions db actor in
    require_can_grant_lem perms (role_permissions db role_id) (ground arith)

-- The permissions that a role carries, in a table of grants.
abbrev pub carried : List RolePermission → String → List String
carried gs role_id = map (λ g. g.permission) (retain (λ g. str_eq g.role_id role_id) gs)

-- Holding one more role adds what that role carries and no more.
pub any-one_role_more :
    (before after : String → Bool) (role_id p : String)
    → ((id : String) → after id ≡ true → (before id || str_eq id role_id) ≡ true)
    → (gs : List RolePermission) → any (λ g. after g.role_id && str_eq g.permission p) gs ≡ true
    → (any (λ g. before g.role_id && str_eq g.permission p) gs || contains (carried gs role_id) p)
      ≡ true
any-one_role_more before after role_id p h [] e = cc
any-one_role_more before after role_id p h (g ∷ gs) e =
    ground (arith, h g.role_id, any-one_role_more before after role_id p h gs)

holds_role-insert_user_role :
    (row : UserRole) (db : Db) (u id : String)
    → holds_role (insert_user_role row db).0 u id ≡ true
    → (holds_role db u id || str_eq id row.role_id) ≡ true
unfolding insert_user_role member_role
holds_role-insert_user_role row db u id e =
    ground (arith, eq_iff id row.role_id, eq_iff row.role_id id)

role_permissions-insert_user_role :
    (row : UserRole) (db : Db) → (insert_user_role row db).0.role_permissions ≡ db.role_permissions
unfolding insert_user_role
role_permissions-insert_user_role row db = ground arith

-- What `insert_user_role` gives anyone was held before, or comes with the role.
insert_user_role-gain :
    (row : UserRole) (db : Db) (u p : String)
    → contains (user_permissions (insert_user_role row db).0 u).effective p ≡ true
    → (contains (user_permissions db u).effective p || contains (role_permissions db row.role_id) p)
      ≡ true
unfolding role_permissions
insert_user_role-gain row db u p e = rw (contains-user_permissions db u p) (
    any-one_role_more (holds_role db u) (holds_role (insert_user_role row db).0 u) row.role_id p
      (holds_role-insert_user_role row db u) db.role_permissions
      (rw (contains-user_permissions, role_permissions-insert_user_role row db) at e))

-- Whatever `assign_role` answers, a permission that any user holds after it they held before it,
-- or the actor holds it too.
pub assign_role-no_escalation :
    (actor target role_id : String) (now : ℕ) (db : Db) (u p : String)
    → contains (user_permissions (assign_role actor target role_id now db).0 u).effective p ≡ true
    → (contains (user_permissions db u).effective p || has (user_permissions db actor) p) ≡ true
unfolding assign_role
assign_role-no_escalation actor target role_id now db u p =
    let row : UserRole = record {
      user_public_key = target;
      role_id = role_id;
      assigned_at = now;
    } in
    query_then
      (λ d.
        contains (user_permissions d u).effective p ≡ true
        → (contains (user_permissions db u).effective p || has (user_permissions db actor) p)
          ≡ true)
      (check_assign actor role_id) (insert_user_role row) db (λ e. ground arith)
      λ passed e. ground (
        arith,
        insert_user_role-gain row db u p e,
        All-has-contains (user_permissions db actor) (role_permissions db role_id) p
            (check_assign-grants actor role_id db passed),
      )
