-- ===== src/Hub/Acts/Gain.antt =====
-- About the requests that create, change and assign roles.
use wavvon_server.Base.{
  ℕ, ◌≤◌, String, true, ◌&&◌, ◌||◌, ◌≡◌, refl, ◌⊎◌, List, [], ◌∷◌, some, arith, str_eq, str_eq_refl,
  any, find, inl, inr, Option-cases, Bool-cases,
}
use wavvon_server.Http.{ApiError, ok, err, Result-cases}
use wavvon_server.Hub.Db.{
  Db, RoleRow, UserRole, query, answer, query_then, then_keeps, then_goes_on, ◌>>◌,
}
use wavvon_server.Hub.Roles.Checks.{
  CreateRoleRequest, UpdateRoleRequest, check_create, check_update, check_assign, get_role,
  owner_count,
}
use wavvon_server.Hub.Roles.Ownership.{UniquePairs}
use wavvon_server.Hub.Roles.Ranked.{create_role-IsRanked, update_role-IsRanked, roles-IsRanked}
use wavvon_server.Hub.Roles.{
  RoleResponse, create_role, new_role, insert_role, insert_permissions, update_role, write_update,
  updated_role, assign_role, insert_user_role,
}
use wavvon_server.Hub.Acts.Sound.{IsSound}
use wavvon_server.Hub.Acts.Written.{
  IsKept, All-granted, insert_permissions-IsKept, write_update-IsKept, IsSound-kept,
}

find-any :
    (id : String) (rows : List RoleRow) (r : RoleRow)
    → find (λ s. str_eq s.id id) rows ≡ some r
    → any (λ s. str_eq s.id id) rows ≡ true
find-any id [] r e = cc
find-any id (s ∷ rows) r e = ground (arith, find-any id rows r)

check_update-exists :
    (user id : String) (req : UpdateRoleRequest) (db : Db)
    → check_update user id req db ≡ ok tt
    → any (λ r. str_eq r.id id) db.roles ≡ true
unfolding check_update get_role
check_update-exists user id req db h = elim (Option-cases (find (λ r. str_eq r.id id) db.roles)) [
  | inl e ↦ absurd (ground arith)
  | inr (r, e) ↦ find-any id db.roles r e
]

update_role-IsKept :
    (user id : String) (req : UpdateRoleRequest) (db : Db)
    → IsSound db
    → (IsKept id db (update_role user id req db).0 ⊎ ((update_role user id req db).0 ≡ db))
unfolding update_role
update_role-IsKept user id req db s =
    query_then (λ d. IsKept id db d ⊎ (d ≡ db)) (check_update user id req)
      (write_update id req >> query (updated_role id)) db (inr refl)
      λ passed. inl (
        then_keeps (IsKept id db) (write_update id req) (query (updated_role id)) db
          (write_update-IsKept id req db db (record {
            exists = check_update-exists user id req db passed;
            present = s.present;
            user_roles = refl;
            granters = s.granters;
          }))
          (λ d b. b))

pub update_role-IsSound :
    (user id : String) (req : UpdateRoleRequest) (db : Db)
    → IsSound db
    → IsSound (update_role user id req db).0
update_role-IsSound user id req db s = elim (update_role-IsKept user id req db s) [
  | inl b ↦
      IsSound-kept id db (update_role user id req db).0 s
        (update_role-IsRanked user id req db s.ranked) b
  | inr e ↦ rw e s
]

insert_role-IsKept :
    (row : RoleRow) (db : Db)
    → IsSound db
    → (insert_role row db).1 ≡ ok tt
    → IsKept row.id db (insert_role row db).0
unfolding insert_role
insert_role-IsKept row db s done =
    elim (Bool-cases (any (λ r. str_eq r.id row.id || str_eq r.name row.name) db.roles)) [
      | inl e ↦ absurd (ground arith)
      | inr e ↦
          rw (e, insert_role)
            (record {
              exists = ground (arith, str_eq_refl row.id);
              present = ground (arith, s.present);
              user_roles = refl;
              granters =
                  All-granted db.roles (row ∷ db.roles) db.role_permissions (λ i k. ground arith)
                    s.granters;
            })
    ]

insert_role-err :
    (row : RoleRow) (db : Db) (x : ApiError)
    → (insert_role row db).1 ≡ err x
    → (insert_role row db).0 ≡ db
unfolding insert_role
insert_role-err row db x e = ground arith

insert_role_refused :
    (row : RoleRow) (db : Db)
    → IsSound db
    → IsKept row.id db (insert_role row db).0 ⊎ ((insert_role row db).0 ≡ db)
insert_role_refused row db s = elim (Result-cases (insert_role row db).1) [
  | inl (w, e) ↦ inl (insert_role-IsKept row db s e)
  | inr (x, e) ↦ inr (insert_role-err row db x e)
]

create_role-IsKept :
    (user : String) (req : CreateRoleRequest) (id : String) (now : ℕ) (db : Db)
    → IsSound db
    → (IsKept id db (create_role user req id now db).0 ⊎ ((create_role user req id now db).0 ≡ db))
unfolding create_role
create_role-IsKept user req id now db s =
    let response : RoleResponse = record {
      role = new_role req id now;
      permissions = req.permissions;
    } in
    query_then (λ d. IsKept id db d ⊎ (d ≡ db)) (check_create user req)
      (insert_role (new_role req id now)
        >> (insert_permissions id req.permissions >> answer response))
      db (inr refl)
      λ passed.
        then_goes_on (λ d. IsKept id db d ⊎ (d ≡ db)) (insert_role (new_role req id now))
          (insert_permissions id req.permissions >> answer response) db
          (insert_role_refused (new_role req id now) db s)
          λ done. inl (
            then_keeps (IsKept id db) (insert_permissions id req.permissions) (answer response)
              (insert_role (new_role req id now) db).0
              (insert_permissions-IsKept id req.permissions db _
                (insert_role-IsKept (new_role req id now) db s done))
              (λ d b. b))

pub create_role-IsSound :
    (user : String) (req : CreateRoleRequest) (id : String) (now : ℕ) (db : Db)
    → IsSound db
    → IsSound (create_role user req id now db).0
create_role-IsSound user req id now db s = elim (create_role-IsKept user req id now db s) [
  | inl b ↦
      IsSound-kept id db (create_role user req id now db).0 s
        (create_role-IsRanked user req id now db s.present s.ranked) b
  | inr e ↦ rw e s
]

UniquePairs-insert_user_role :
    (row : UserRole) (db : Db)
    → UniquePairs db.user_roles
    → UniquePairs (insert_user_role row db).0.user_roles
unfolding insert_user_role
UniquePairs-insert_user_role row db h =
    elim (Bool-cases (any (λ u. str_eq u.public_key row.user_public_key) db.users)) [
      | inl e ↦
          elim (Bool-cases (
            any (λ r. str_eq r.user_public_key row.user_public_key && str_eq r.role_id row.role_id)
              db.user_roles)) [
                | inl k ↦ rw (e, k, insert_user_role) h
                | inr k ↦ rw (e, k, insert_user_role) (k, h)
              ]
      | inr e ↦ rw (e, insert_user_role) h
    ]

owner_count-insert_user_role :
    (row : UserRole) (db : Db) → owner_count db ≤ owner_count (insert_user_role row db).0
unfolding insert_user_role owner_count
owner_count-insert_user_role row db = ground arith

insert_user_role-tables :
    (row : UserRole) (db : Db)
    → ((insert_user_role row db).0.roles ≡ db.roles)
      × ((insert_user_role row db).0.role_permissions ≡ db.role_permissions)
unfolding insert_user_role
insert_user_role-tables row db = (ground arith, ground arith)

insert_user_role-IsSound :
    (row : UserRole) (db : Db) → IsSound db → IsSound (insert_user_role row db).0
insert_user_role-IsSound row db s =
    let (roles, role_permissions) = insert_user_role-tables row db in
    record {
      ranked = roles-IsRanked db (insert_user_role row db).0 roles s.ranked;
      present = rw roles s.present;
      unique = UniquePairs-insert_user_role row db s.unique;
      owned = omega (arith, s.owned, owner_count-insert_user_role row db);
      granters = rw (roles, role_permissions) s.granters;
    }

pub assign_role-IsSound :
    (user key id : String) (now : ℕ) (db : Db)
    → IsSound db
    → IsSound (assign_role user key id now db).0
unfolding assign_role
assign_role-IsSound user key id now db s =
    let row : UserRole = record { user_public_key = key; role_id = id; assigned_at = now } in
    query_then IsSound (check_assign user id) (insert_user_role row) db s
      (λ _. insert_user_role-IsSound row db s)
