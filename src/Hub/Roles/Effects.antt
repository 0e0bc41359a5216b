-- ===== src/Hub/Roles/Effects.antt =====
-- What the handlers of crates/hub/src/routes/roles.rs achieve once their checks have passed.
use mathlib.Core.Path.{subst}
use wavvon_server.Base.{
  ℕ, String, Bool, true, false, not, ◌&&◌, ◌≡◌, refl, sym, List, [], ◌∷◌, none, some, arith, any,
  map, retain, str_eq, str_eq_refl, if◌then◌else◌,
}
use wavvon_server.Http.{ok}
use wavvon_server.Hub.Db.{Db, UserRole, Invite, execute, query_passes}
use wavvon_server.Hub.Roles.Checks.{check_assign, check_remove, check_delete}
use wavvon_server.Hub.Roles.{
  assign_role, insert_user_role, remove_role, delete_user_role, delete_role, erase_role,
}

-- The pair stands in `user_roles`.
abbrev pub is_assigned : Db → String → String → Bool
is_assigned db user role_id =
    any (λ r. str_eq r.user_public_key user && str_eq r.role_id role_id) db.user_roles

insert_user_role-assigns :
    (row : UserRole) (db : Db)
    → any (λ u. str_eq u.public_key row.user_public_key) db.users ≡ true
    → ((insert_user_role row db).1 ≡ ok tt)
      × (is_assigned (insert_user_role row db).0 row.user_public_key row.role_id ≡ true)
unfolding insert_user_role
insert_user_role-assigns row db h =
    (ground arith, ground (arith, str_eq_refl row.user_public_key, str_eq_refl row.role_id))

-- Where the checks pass and the target is a user of the hub, `assign_role` succeeds, and the target
-- has the role, also where they had it before.
assign_role-assigns :
    (actor target role_id : String) (now : ℕ) (db : Db)
    → check_assign actor role_id db ≡ ok tt
    → any (λ u. str_eq u.public_key target) db.users ≡ true
    → ((assign_role actor target role_id now db).1 ≡ ok tt)
      × (is_assigned (assign_role actor target role_id now db).0 target role_id ≡ true)
unfolding assign_role
assign_role-assigns actor target role_id now db passed h =
    let row : UserRole = record {
      user_public_key = target;
      role_id = role_id;
      assigned_at = now;
    } in
    subst (λ o. (o.1 ≡ ok tt) × (is_assigned o.0 target role_id ≡ true))
      (sym (query_passes (check_assign actor role_id) (insert_user_role row) db passed))
      (insert_user_role-assigns row db h)

any-retain_other :
    (user role_id : String) (rows : List UserRole)
    → any
        (λ r. str_eq r.user_public_key user && str_eq r.role_id role_id)
        (retain (λ r. not (str_eq r.user_public_key user && str_eq r.role_id role_id)) rows)
      ≡ false
any-retain_other user role_id [] = refl
any-retain_other user role_id (r ∷ rows) = ground (arith, any-retain_other user role_id rows)

-- Where the checks pass, `remove_role` succeeds, and the target does not have the role.
remove_role-revokes :
    (actor target role_id : String) (db : Db)
    → check_remove actor role_id db ≡ ok tt
    → ((remove_role actor target role_id db).1 ≡ ok tt)
      × (is_assigned (remove_role actor target role_id db).0 target role_id ≡ false)
unfolding remove_role delete_user_role
remove_role-revokes actor target role_id db passed =
    subst (λ o. (o.1 ≡ ok tt) × (is_assigned o.0 target role_id ≡ false))
      (sym (
        query_passes (check_remove actor role_id) (execute (delete_user_role target role_id)) db
          passed))
      (refl, any-retain_other target role_id db.user_roles)

any-retain-not {ℓ} :
    {A : Type ℓ} (f : A → Bool) (xs : List A) → any f (retain (λ x. not (f x)) xs) ≡ false
any-retain-not f [] = refl
any-retain-not f (x ∷ xs) = ground (arith, any-retain-not f xs)

-- An invite grants the role.
abbrev pub grants : String → Invite → Bool
grants role_id i = elim i.grant_role_id [ none ↦ false | some g ↦ str_eq g role_id ]

-- No table has the role, or refers to it.
pub record IsErased (role_id : String) (db : Db) : Type 0 where
  pub role : any (λ r. str_eq r.id role_id) db.roles ≡ false
  pub assignments : any (λ r. str_eq r.role_id role_id) db.user_roles ≡ false
  pub permissions : any (λ g. str_eq g.role_id role_id) db.role_permissions ≡ false
  pub overwrites : any (λ o. str_eq o.role_id role_id) db.overwrites ≡ false
  pub invites : any (grants role_id) db.invites ≡ false

any-ungranted :
    (role_id : String) (is : List Invite)
    → any (grants role_id) (
        map
          (λ i. elim i.grant_role_id [
            | none ↦ i
            | some g ↦ if str_eq g role_id then record i { grant_role_id = none } else i
          ])
          is)
      ≡ false
any-ungranted role_id [] = refl
any-ungranted role_id (i ∷ is) = ground (arith, any-ungranted role_id is)

-- Where the checks pass, `delete_role` succeeds: the role is gone, and no assignment,
-- permission, overwrite or invite refers to it.
pub delete_role-erases :
    (actor role_id : String) (db : Db)
    → check_delete actor role_id db ≡ ok tt
    → ((delete_role actor role_id db).1 ≡ ok tt) × IsErased role_id (delete_role actor role_id db).0
unfolding delete_role erase_role
delete_role-erases actor role_id db passed =
    subst (λ o. (o.1 ≡ ok tt) × IsErased role_id o.0)
      (sym (query_passes (check_delete actor role_id) (execute (erase_role role_id)) db passed))
      (
        refl,
        record {
          role = any-retain-not (λ r. str_eq r.id role_id) db.roles;
          assignments = any-retain-not (λ r. str_eq r.role_id role_id) db.user_roles;
          permissions = any-retain-not (λ g. str_eq g.role_id role_id) db.role_permissions;
          overwrites = any-retain-not (λ o. str_eq o.role_id role_id) db.overwrites;
          invites = any-ungranted role_id db.invites;
        },
      )
