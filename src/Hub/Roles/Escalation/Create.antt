-- ===== src/Hub/Roles/Escalation/Create.antt =====
-- `create_role`: nobody gains anything but what the actor holds.
use wavvon_server.Base.{
  ℕ, String, Bool, true, ◌&&◌, ◌||◌, ◌≡◌, refl, ◌∙◌, sym, List, [], ◌∷◌, arith, str_eq, eq_iff,
  contains, any, All,
}
use wavvon_server.Http.{ok}
use wavvon_server.Hub.Db.{Db, RoleRow, RolePermission, answer, query_then, then_keeps, ◌>>◌}
use wavvon_server.Hub.Permissions.Caller.{UserPermissions, has, member_role, user_permissions}
use wavvon_server.Hub.Permissions.Caller.Laws.{
  holds_role, contains-user_permissions, require_can_grant_lem,
}
use wavvon_server.Hub.Roles.Checks.{CreateRoleRequest, check_create}
use wavvon_server.Hub.Roles.{
  RoleResponse, create_role, new_role, insert_role, insert_permission, insert_permissions,
}
use wavvon_server.Hub.Roles.Escalation.Update.{carries, any-carried}

-- Every grant is of a role of the hub: `role_permissions` references `roles`.
abbrev pub HasGranters : Db → Type 0
HasGranters db = All (λ g. any (λ r. str_eq r.id g.role_id) db.roles ≡ true) db.role_permissions

any-granters :
    (holds before : String → Bool) (p : String) (rows : List RoleRow) (gs : List RolePermission)
    → ((id : String) → any (λ r. str_eq r.id id) rows ≡ true → holds id ≡ true → before id ≡ true)
    → All (λ g. any (λ r. str_eq r.id g.role_id) rows ≡ true) gs
    → any (λ g. holds g.role_id && str_eq g.permission p) gs ≡ true
    → any (λ g. before g.role_id && str_eq g.permission p) gs ≡ true
any-granters holds before p rows [] h k e = cc
any-granters holds before p rows (g ∷ gs) h k e =
    ground (arith, h g.role_id, any-granters holds before p rows gs h k.1)

module _ (db : Db) (actor : UserPermissions) (p : String) where
  -- In `d` a role of `db` has the members that it had, and a role carries `p` only if it did in
  -- `db` or the actor holds `p`.
  pub record IsExtended (d : Db) : Type 0 where
    pub members : (u id : String) → member_role d u id ≡ member_role db u id
    pub carried : (id : String) → carries d id p ≡ true → (carries db id p || has actor p) ≡ true

  IsExtended-gain :
      (d : Db) (u : String)
      → HasGranters db
      → IsExtended d
      → contains (user_permissions d u).effective p ≡ true
      → (contains (user_permissions db u).effective p || has actor p) ≡ true
  IsExtended-gain d u k b e = ground (
    arith,
    contains-user_permissions db u p,
    any-carried (holds_role d u) p (has actor p) d.role_permissions db.role_permissions b.carried
        (sym (contains-user_permissions d u p) ∙ e),
    any-granters (holds_role d u) (holds_role db u) p db.roles db.role_permissions
        (λ id here held. ground (arith, b.members u id)) k,
  )

  insert_role-IsExtended : (row : RoleRow) → IsExtended (insert_role row db).0
  unfolding insert_role member_role
  insert_role-IsExtended row = record {
    members = λ u id. ground arith;
    carried = λ id e. ground arith;
  }

  insert_permission-IsExtended :
      (id q : String) (d : Db)
      → has actor q ≡ true
      → IsExtended d
      → IsExtended (insert_permission id q d).0
  unfolding insert_permission member_role
  insert_permission-IsExtended id q d h b = record {
    members = λ u i. ground (arith, b.members u i);
    carried = λ i e. ground (arith, eq_iff q p, b.carried i);
  }

  insert_permissions-IsExtended :
      (id : String) (qs : List String) (d : Db)
      → All (λ q. has actor q ≡ true) qs
      → IsExtended d
      → IsExtended (insert_permissions id qs d).0
  unfolding insert_permissions
  insert_permissions-IsExtended id [] d h b = b
  insert_permissions-IsExtended id (q ∷ qs) d h b =
      then_keeps IsExtended (insert_permission id q) (insert_permissions id qs) d
        (insert_permission-IsExtended id q d h.0 b)
        (λ e k. insert_permissions-IsExtended id qs e h.1 k)

check_create-grants :
    (actor : String) (req : CreateRoleRequest) (db : Db)
    → check_create actor req db ≡ ok tt
    → All (λ q. has (user_permissions db actor) q ≡ true) req.permissions
unfolding check_create
check_create-grants actor req db h =
    require_can_grant_lem (user_permissions db actor) req.permissions (ground arith)

pub create_role-IsExtended :
    (actor : String) (req : CreateRoleRequest) (id : String) (now : ℕ) (db : Db) (p : String)
    → IsExtended db (user_permissions db actor) p (create_role actor req id now db).0
unfolding create_role
create_role-IsExtended actor req id now db p =
    let me : UserPermissions = user_permissions db actor in
    let response : RoleResponse = record {
      role = new_role req id now;
      permissions = req.permissions;
    } in
    query_then (IsExtended db me p) (check_create actor req)
      (insert_role (new_role req id now)
        >> (insert_permissions id req.permissions >> answer response))
      db (record { members = λ u i. refl; carried = λ i e. ground arith })
      λ passed.
        then_keeps (IsExtended db me p) (insert_role (new_role req id now))
          (insert_permissions id req.permissions >> answer response) db
          (insert_role-IsExtended db me p (new_role req id now))
          λ d b.
            then_keeps (IsExtended db me p) (insert_permissions id req.permissions)
              (answer response) d
              (insert_permissions-IsExtended db me p id req.permissions d
                (check_create-grants actor req db passed) b)
              (λ e k. k)

-- Where every grant is of a role of the hub, whatever `create_role` answers, a permission that any
-- user holds after it they held before it, or the actor holds it too.
pub create_role-no_escalation :
    (actor : String) (req : CreateRoleRequest) (id : String) (now : ℕ) (db : Db) (u p : String)
    → HasGranters db
    → contains (user_permissions (create_role actor req id now db).0 u).effective p ≡ true
    → (contains (user_permissions db u).effective p || has (user_permissions db actor) p) ≡ true
create_role-no_escalation actor req id now db u p k =
    IsExtended-gain db (user_permissions db actor) p (create_role actor req id now db).0 u k
      (create_role-IsExtended actor req id now db p)
