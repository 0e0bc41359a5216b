-- ===== src/Hub/Roles/Escalation/Update.antt =====
-- `update_role`: the members of the changed role gain at most what the actor holds.
use mathlib.Core.Path.{fun_ext, subst}
use wavvon_server.Base.{
  String, Bool, true, not, ◌&&◌, ◌||◌, ◌≡◌, refl, ◌∙◌, sym, List, [], ◌∷◌, map, Option, none, some,
  ℤ, arith, str_eq, eq_iff, contains, any, retain, All, if◌then◌else◌,
}
use wavvon_server.Http.{ok}
use wavvon_server.Hub.Db.{Db, RoleRow, RolePermission, query, query_then, then_keeps, ◌>>◌}
use wavvon_server.Hub.Permissions.Caller.{UserPermissions, has, member_role, user_permissions}
use wavvon_server.Hub.Permissions.Caller.Laws.{
  holds_role, contains-user_permissions, require_can_grant_lem,
}
use wavvon_server.Hub.Roles.Checks.{UpdateRoleRequest, check_update, check_grant}
use wavvon_server.Hub.Roles.Updates.{write_update_keeps}
use wavvon_server.Hub.Roles.{
  update_role, set_role, set_priority, replace_permissions, insert_permission, insert_permissions,
  write_update, updated_role,
}

-- The table has the grant.
abbrev pub carries : Db → String → String → Bool
carries d id p = any (λ g. str_eq g.role_id id && str_eq g.permission p) d.role_permissions

any-holds :
    (holds : String → Bool) (id p : String) (gs : List RolePermission)
    → holds id ≡ true
    → any (λ g. str_eq g.role_id id && str_eq g.permission p) gs ≡ true
    → any (λ g. holds g.role_id && str_eq g.permission p) gs ≡ true
any-holds holds id p [] h e = cc
any-holds holds id p (g ∷ gs) h e = ground (arith, eq_iff g.role_id id, any-holds holds id p gs h)

pub any-carried :
    (holds : String → Bool) (p : String) (b : Bool) (gs hs : List RolePermission)
    → ((id : String)
        → any (λ g. str_eq g.role_id id && str_eq g.permission p) gs ≡ true
        → (any (λ g. str_eq g.role_id id && str_eq g.permission p) hs || b) ≡ true)
    → any (λ g. holds g.role_id && str_eq g.permission p) gs ≡ true
    → (any (λ g. holds g.role_id && str_eq g.permission p) hs || b) ≡ true
any-carried holds p b [] hs h e = cc
any-carried holds p b (g ∷ gs) hs h e = ground (
  arith,
  h g.role_id,
  eq_iff g.role_id g.role_id,
  any-holds holds g.role_id p hs,
  any-carried holds p b gs hs (λ id k. h id (ground arith)),
)

pub any-map_id :
    (f : RoleRow → RoleRow) (id : String) (c : RoleRow → Bool)
    → ((r : RoleRow) → (f r).id ≡ r.id)
    → (rows : List RoleRow)
    → any (λ r. str_eq r.id id) (map (λ r. if c r then f r else r) rows)
      ≡ any (λ r. str_eq r.id id) rows
any-map_id f id c h [] = refl
any-map_id f id c h (r ∷ rows) = ground (arith, h r, any-map_id f id c h rows)

module _ (db : Db) (actor : UserPermissions) (p : String) where
  -- In `d` there are the roles and the members of `db`, and a role carries `p` only if it did in
  -- `db` or the actor holds `p`.
  pub record IsBounded (d : Db) : Type 0 where
    pub roles :
        (id : String) → any (λ r. str_eq r.id id) d.roles ≡ any (λ r. str_eq r.id id) db.roles
    pub user_roles : d.user_roles ≡ db.user_roles
    pub users : d.users ≡ db.users
    pub carried : (id : String) → carries d id p ≡ true → (carries db id p || has actor p) ≡ true

  IsBounded-refl : IsBounded db
  IsBounded-refl = record {
    roles = λ id. refl;
    user_roles = refl;
    users = refl;
    carried = λ id e. ground arith;
  }

  pub holds_role-IsBounded : (d : Db) (u : String) → IsBounded d → holds_role d u ≡ holds_role db u
  unfolding member_role
  holds_role-IsBounded d u b = fun_ext λ id. rw (b.roles id, b.user_roles, b.users)

  IsBounded-gain :
      (d : Db) (u : String)
      → IsBounded d
      → contains (user_permissions d u).effective p ≡ true
      → (contains (user_permissions db u).effective p || has actor p) ≡ true
  IsBounded-gain d u b e = rw (contains-user_permissions db u p) (
      any-carried (holds_role db u) p (has actor p) d.role_permissions db.role_permissions b.carried
        (subst
          (λ (h : String → Bool).
            any (λ g. h g.role_id && str_eq g.permission p) d.role_permissions ≡ true)
          (holds_role-IsBounded d u b) (sym (contains-user_permissions d u p) ∙ e)))

  set_role-IsBounded :
      (role_id : String) (f : RoleRow → RoleRow)
      → ((r : RoleRow) → (f r).id ≡ r.id)
      → (d : Db) → IsBounded d
      → IsBounded (set_role role_id f d)
  unfolding set_role
  set_role-IsBounded role_id f h d b = record {
    roles = λ id. any-map_id f id (λ r. str_eq r.id role_id) h d.roles ∙ b.roles id;
    user_roles = b.user_roles;
    users = b.users;
    carried = b.carried;
  }

  insert_permission-IsBounded :
      (role_id q : String) (d : Db)
      → has actor q ≡ true
      → IsBounded d
      → IsBounded (insert_permission role_id q d).0
  unfolding insert_permission
  insert_permission-IsBounded role_id q d h b = record {
    roles = λ id. ground (arith, b.roles id);
    user_roles = ground (arith, b.user_roles);
    users = ground (arith, b.users);
    carried = λ id e. ground (arith, eq_iff q p, b.carried id);
  }

  insert_permissions-IsBounded :
      (role_id : String) (qs : List String) (d : Db)
      → All (λ q. has actor q ≡ true) qs
      → IsBounded d
      → IsBounded (insert_permissions role_id qs d).0
  unfolding insert_permissions
  insert_permissions-IsBounded role_id [] d h b = b
  insert_permissions-IsBounded role_id (q ∷ qs) d h b =
      then_keeps IsBounded (insert_permission role_id q) (insert_permissions role_id qs) d
        (insert_permission-IsBounded role_id q d h.0 b)
        (λ d' b'. insert_permissions-IsBounded role_id qs d' h.1 b')

  any-retained :
      (role_id id : String) (gs : List RolePermission)
      → any
          (λ g. str_eq g.role_id id && str_eq g.permission p)
          (retain (λ g. not (str_eq g.role_id role_id)) gs)
        ≡ true
      → any (λ g. str_eq g.role_id id && str_eq g.permission p) gs ≡ true
  any-retained role_id id [] e = cc
  any-retained role_id id (g ∷ gs) e = ground (arith, any-retained role_id id gs)

  replace_permissions-IsBounded :
      (role_id : String) (qs : List String) (d : Db)
      → All (λ q. has actor q ≡ true) qs
      → IsBounded d
      → IsBounded (replace_permissions role_id qs d).0
  unfolding replace_permissions
  replace_permissions-IsBounded role_id qs d h b =
      insert_permissions-IsBounded role_id qs _ h (record {
        roles = b.roles;
        user_roles = b.user_roles;
        users = b.users;
        carried = λ id e. b.carried id (any-retained role_id id d.role_permissions e);
      })

  set_priority-IsBounded :
      (role_id : String) (n : ℤ) (d : Db) → IsBounded d → IsBounded (set_priority role_id n d).0
  unfolding set_priority
  set_priority-IsBounded role_id n d b =
      set_role-IsBounded role_id (λ r. record r { priority = n }) (λ r. refl) d b

check_grant-All :
    (actor : UserPermissions) (o : Option (List String)) (ps : List String)
    → check_grant actor o ≡ ok tt
    → o ≡ some ps
    → All (λ q. has actor q ≡ true) ps
unfolding check_grant
check_grant-All actor none ps h e = cc
check_grant-All actor (some qs) ps h e = require_can_grant_lem actor ps (ground arith)

check_update-check_grant :
    (user role_id : String) (req : UpdateRoleRequest) (db : Db)
    → check_update user role_id req db ≡ ok tt
    → check_grant (user_permissions db user) req.permissions ≡ ok tt
unfolding check_update
check_update-check_grant user role_id req db h = ground arith

pub update_role-IsBounded :
    (actor role_id : String) (req : UpdateRoleRequest) (db : Db) (p : String)
    → IsBounded db (user_permissions db actor) p (update_role actor role_id req db).0
unfolding update_role
update_role-IsBounded actor role_id req db p =
    let me : UserPermissions = user_permissions db actor in
    query_then (IsBounded db me p) (check_update actor role_id req)
      (write_update role_id req >> query (updated_role role_id)) db (IsBounded-refl db me p)
      λ passed.
        then_keeps (IsBounded db me p) (write_update role_id req) (query (updated_role role_id)) db
          (write_update_keeps (IsBounded db me p) role_id req
            (λ n e. set_priority-IsBounded db me p role_id n)
            (λ f h. set_role-IsBounded db me p role_id f (λ r. (h r).0))
            (λ ps e d. replace_permissions-IsBounded db me p role_id ps d (
              check_grant-All me req.permissions ps
                (check_update-check_grant actor role_id req db passed) e))
            db (IsBounded-refl db me p))
          (λ d b. b)

-- Whatever `update_role` answers, also where it fails half-way, a permission that any user holds
-- after it they held before it, or the actor holds it too.
pub update_role-no_escalation :
    (actor role_id : String) (req : UpdateRoleRequest) (db : Db) (u p : String)
    → contains (user_permissions (update_role actor role_id req db).0 u).effective p ≡ true
    → (contains (user_permissions db u).effective p || has (user_permissions db actor) p) ≡ true
update_role-no_escalation actor role_id req db u p =
    IsBounded-gain db (user_permissions db actor) p (update_role actor role_id req db).0 u
      (update_role-IsBounded actor role_id req db p)
