-- ===== src/Hub/Acts/Written.antt =====
-- What the statements that write a role leave of a sound hub.
use wavvon_server.Base.{
  String, true, not, ◌&&◌, ◌≡◌, refl, ◌∙◌, List, [], ◌∷◌, str_eq, any, All, inl, inr, ℤ, Bool-cases,
}
use wavvon_server.Hub.Db.{Db, RoleRow, RolePermission, then_keeps}
use wavvon_server.Hub.Permissions.Caller.{builtin_owner_role_id}
use wavvon_server.Hub.Roles.Checks.{UpdateRoleRequest, owner_count}
use wavvon_server.Hub.Roles.Ownership.{IsRanked}
use wavvon_server.Hub.Roles.Escalation.Create.{HasGranters}
use wavvon_server.Hub.Roles.Escalation.Update.{any-map_id}
use wavvon_server.Hub.Roles.Updates.{write_update_keeps}
use wavvon_server.Hub.Roles.{
  insert_permission, insert_permissions, set_role, set_priority, replace_permissions, write_update,
}
use wavvon_server.Hub.Acts.Sound.{IsSound, All-retain}

-- What a sound hub is besides the ranks of its roles, while a role is being written.
pub record IsKept (role_id : String) (db d : Db) : Type 0 where
  pub exists : any (λ r. str_eq r.id role_id) d.roles ≡ true
  pub present : any (λ r. str_eq r.id builtin_owner_role_id) d.roles ≡ true
  pub user_roles : d.user_roles ≡ db.user_roles
  pub granters : HasGranters d

pub All-granted :
    (rows more : List RoleRow) (gs : List RolePermission)
    → ((id : String)
        → any (λ r. str_eq r.id id) rows ≡ true
        → any (λ r. str_eq r.id id) more ≡ true)
    → All (λ g. any (λ r. str_eq r.id g.role_id) rows ≡ true) gs
    → All (λ g. any (λ r. str_eq r.id g.role_id) more ≡ true) gs
All-granted rows more [] h k = tt
All-granted rows more (g ∷ gs) h k = (h g.role_id k.0, All-granted rows more gs h k.1)

insert_permission-IsKept :
    (id q : String) (db d : Db) → IsKept id db d → IsKept id db (insert_permission id q d).0
unfolding insert_permission
insert_permission-IsKept id q db d b =
    elim (Bool-cases (any (λ g. str_eq g.role_id id && str_eq g.permission q) d.role_permissions)) [
      | inl e ↦ rw (e, insert_permission) b
      | inr e ↦
          rw (e, insert_permission)
            (record {
              exists = b.exists;
              present = b.present;
              user_roles = b.user_roles;
              granters = (b.exists, b.granters);
            })
    ]

pub insert_permissions-IsKept :
    (id : String) (qs : List String) (db d : Db)
    → IsKept id db d
    → IsKept id db (insert_permissions id qs d).0
unfolding insert_permissions
insert_permissions-IsKept id [] db d b = b
insert_permissions-IsKept id (q ∷ qs) db d b =
    then_keeps (IsKept id db) (insert_permission id q) (insert_permissions id qs) d
      (insert_permission-IsKept id q db d b) (insert_permissions-IsKept id qs db)

set_role-IsKept :
    (id : String) (f : RoleRow → RoleRow) (db d : Db)
    → ((r : RoleRow) → (f r).id ≡ r.id)
    → IsKept id db d
    → IsKept id db (set_role id f d)
unfolding set_role
set_role-IsKept id f db d h b = record {
  exists = any-map_id f id (λ r. str_eq r.id id) h d.roles ∙ b.exists;
  present = any-map_id f builtin_owner_role_id (λ r. str_eq r.id id) h d.roles ∙ b.present;
  user_roles = b.user_roles;
  granters =
      All-granted d.roles _ d.role_permissions
        (λ i e. any-map_id f i (λ r. str_eq r.id id) h d.roles ∙ e) b.granters;
}

replace_permissions-IsKept :
    (id : String) (qs : List String) (db d : Db)
    → IsKept id db d
    → IsKept id db (replace_permissions id qs d).0
unfolding replace_permissions
replace_permissions-IsKept id qs db d b = insert_permissions-IsKept id qs db _ (record {
  exists = b.exists;
  present = b.present;
  user_roles = b.user_roles;
  granters =
      All-retain (λ g. any (λ r. str_eq r.id g.role_id) d.roles ≡ true)
        (λ g. not (str_eq g.role_id id)) d.role_permissions b.granters;
})

set_priority-IsKept :
    (id : String) (n : ℤ) (db d : Db) → IsKept id db d → IsKept id db (set_priority id n d).0
unfolding set_priority
set_priority-IsKept id n db d b =
    set_role-IsKept id (λ r. record r { priority = n }) db d (λ r. refl) b

pub write_update-IsKept :
    (id : String) (req : UpdateRoleRequest) (db d : Db)
    → IsKept id db d
    → IsKept id db (write_update id req d).0
write_update-IsKept id req db d b =
    write_update_keeps (IsKept id db) id req (λ n e. set_priority-IsKept id n db)
      (λ f h d. set_role-IsKept id f db d (λ r. (h r).0))
      (λ ps e. replace_permissions-IsKept id ps db) d b

-- The ranks are shown elsewhere; the rest follows from what is kept.
pub IsSound-kept : (id : String) (db d : Db) → IsSound db → IsRanked d → IsKept id db d → IsSound d
unfolding owner_count
IsSound-kept id db d s ranked b = record {
  ranked = ranked;
  present = b.present;
  unique = rw b.user_roles s.unique;
  owned = rw b.user_roles s.owned;
  granters = b.granters;
}
