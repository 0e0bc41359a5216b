-- ===== src/Hub/Roles/Ranked.antt =====
-- The invariant that the owner role is on top, which `create_role`, `update_role` and
-- `delete_role` keep.
use wavvon_server.Base.{
  ℕ, String, true, false, ◌||◌, ◌≡◌, refl, ◌∙◌, sym, ap, List, [], ◌∷◌, map, some, inl, inr, ℤ,
  le_ℤ, le_ℤ_trans, le_ℤ_total, arith, str_eq, eq_iff, any, All, Bool-cases, if◌then◌else◌,
}
use wavvon_server.Http.{ok}
use wavvon_server.Hub.Db.{Db, RoleRow, query, answer, query_then, then_keeps, ◌>>◌}
use wavvon_server.Hub.Permissions.Caller.{
  builtin_owner_role_id, builtin_everyone_role_id, user_permissions,
}
use wavvon_server.Hub.Permissions.Caller.Laws.{max_priority-le}
use wavvon_server.Hub.Roles.Ownership.{owner_priority, IsOwnerRanked, IsRanked}
use wavvon_server.Hub.Roles.Checks.{
  CreateRoleRequest, UpdateRoleRequest, check_create, check_update, check_builtin, check_priority,
  require_not_builtin, only_permissions,
}
use wavvon_server.Hub.Roles.Updates.{KeepsIdentity, write_update_keeps}
use wavvon_server.Hub.Roles.{
  create_role, update_role, new_role, insert_role, insert_permission, insert_permissions, set_role,
  set_priority, replace_permissions, write_update, updated_role, RoleResponse,
}

-- A change of the owner role's row, or of another's, that leaves the ranks in order.
record KeepsRank (role_id : String) (f : RoleRow → RoleRow) : Type 0 where
  priority :
      (r : RoleRow)
      → str_eq r.id role_id ≡ true
      → le_ℤ r.priority owner_priority ≡ true
      → le_ℤ (f r).priority owner_priority ≡ true
  owner : (r : RoleRow) → str_eq r.id role_id ≡ true → IsOwnerRanked r → IsOwnerRanked (f r)

map-below :
    (role_id : String) (f : RoleRow → RoleRow)
    → KeepsRank role_id f
    → (rows : List RoleRow) → All (λ r. le_ℤ r.priority owner_priority ≡ true) rows
    → All
        (λ r. le_ℤ r.priority owner_priority ≡ true)
        (map (λ r. if str_eq r.id role_id then f r else r) rows)
map-below role_id f k [] h = tt
map-below role_id f k (r ∷ rows) h = (ground (arith, k.priority r), map-below role_id f k rows h.1)

map-owner :
    (role_id : String) (f : RoleRow → RoleRow)
    → KeepsRank role_id f
    → (rows : List RoleRow) → All IsOwnerRanked rows
    → All IsOwnerRanked (map (λ r. if str_eq r.id role_id then f r else r) rows)
map-owner role_id f k [] h = tt
map-owner role_id f k (r ∷ rows) h = (here, map-owner role_id f k rows h.1)
  where
    here : IsOwnerRanked (if str_eq r.id role_id then f r else r)
    here = elim (Bool-cases (str_eq r.id role_id)) [
      | inl e ↦ rw e (k.owner r e h.0)
      | inr e ↦ rw e h.0
    ]

set_role-IsRanked :
    (role_id : String) (f : RoleRow → RoleRow)
    → KeepsRank role_id f
    → (d : Db) → IsRanked d
    → IsRanked (set_role role_id f d)
unfolding set_role
set_role-IsRanked role_id f k d b = record {
  below = map-below role_id f k d.roles b.below;
  owner = map-owner role_id f k d.roles b.owner;
}

-- What is below a caller is below the top.
below_top :
    (db : Db) (actor : String) (n : ℤ)
    → IsRanked db
    → le_ℤ (user_permissions db actor).max_priority n ≡ false
    → le_ℤ n owner_priority ≡ true
below_top db actor n ranked h =
    le_ℤ_trans n (user_permissions db actor).max_priority owner_priority
      (le_ℤ_total (user_permissions db actor).max_priority n h)
      (max_priority-le db actor owner_priority refl ranked.below)

same_rank : (role_id : String) (f : RoleRow → RoleRow) → KeepsIdentity f → KeepsRank role_id f
same_rank role_id f h = record {
  priority = λ r e b. rw ((h r).1) b;
  owner = λ r e o k. (h r).1 ∙ o (sym (ap (λ i. str_eq i builtin_owner_role_id) (h r).0) ∙ k);
}

-- A new priority below the top, of another role than the owner's.
new_rank :
    (role_id : String) (n : ℤ)
    → str_eq role_id builtin_owner_role_id ≡ false
    → le_ℤ n owner_priority ≡ true
    → KeepsRank role_id (λ r. record r { priority = n })
new_rank role_id n h b = record {
  priority = λ r e k. b;
  owner = λ r e o k. ground (arith, eq_iff r.id role_id);
}

pub insert_permissions-roles :
    (role_id : String) (ps : List String) (d : Db)
    → (insert_permissions role_id ps d).0.roles ≡ d.roles
unfolding insert_permissions insert_permission
insert_permissions-roles role_id [] d = refl
insert_permissions-roles role_id (p ∷ ps) d =
    then_keeps (λ e. e.roles ≡ d.roles) (insert_permission role_id p)
      (insert_permissions role_id ps) d (insert_permission-roles role_id p d)
      (λ e h. insert_permissions-roles role_id ps e ∙ h)
  where
    insert_permission-roles :
        (role_id p : String) (d : Db) → (insert_permission role_id p d).0.roles ≡ d.roles
    insert_permission-roles role_id p d = ground arith

pub roles-IsRanked : (d e : Db) → e.roles ≡ d.roles → IsRanked d → IsRanked e
roles-IsRanked d e h b = record { below = rw h b.below; owner = rw h b.owner }

replace_permissions-IsRanked :
    (role_id : String) (ps : List String) (d : Db)
    → IsRanked d
    → IsRanked (replace_permissions role_id ps d).0
unfolding replace_permissions
replace_permissions-IsRanked role_id ps d b =
    roles-IsRanked d (replace_permissions role_id ps d).0 (insert_permissions-roles role_id ps _) b

-- What `check_update` has established of a new priority.
check_update-rank :
    (actor role_id : String) (req : UpdateRoleRequest) (db : Db) (n : ℤ)
    → check_update actor role_id req db ≡ ok tt
    → req.priority ≡ some n
    → (str_eq role_id builtin_owner_role_id ≡ false)
      × (le_ℤ (user_permissions db actor).max_priority n ≡ false)
unfolding check_update check_builtin require_not_builtin check_priority only_permissions
check_update-rank actor role_id req db n h e =
    (ground (arith, eq_iff role_id builtin_everyone_role_id), ground arith)

-- Where the owner role has the top priority and no role is above it, that is still so after
-- `update_role`, whatever it answers.
pub update_role-IsRanked :
    (actor role_id : String) (req : UpdateRoleRequest) (db : Db)
    → IsRanked db
    → IsRanked (update_role actor role_id req db).0
unfolding update_role set_priority
update_role-IsRanked actor role_id req db ranked =
    query_then IsRanked (check_update actor role_id req)
      (write_update role_id req >> query (updated_role role_id)) db ranked
      λ passed.
        then_keeps IsRanked (write_update role_id req) (query (updated_role role_id)) db
          (write_update_keeps IsRanked role_id req
            (λ n e. set_priority-IsRanked n (check_update-rank actor role_id req db n passed e))
            (λ f h. set_role-IsRanked role_id f (same_rank role_id f h))
            (λ ps e. replace_permissions-IsRanked role_id ps) db ranked)
          (λ d b. b)
  where
    set_priority-IsRanked :
        (n : ℤ)
        → (str_eq role_id builtin_owner_role_id ≡ false)
          × (le_ℤ (user_permissions db actor).max_priority n ≡ false)
        → (d : Db) → IsRanked d
        → IsRanked (set_priority role_id n d).0
    set_priority-IsRanked n h d b =
        set_role-IsRanked role_id (λ r. record r { priority = n })
          (new_rank role_id n h.0 (below_top db actor n ranked h.1)) d b

check_create-rank :
    (actor : String) (req : CreateRoleRequest) (db : Db)
    → check_create actor req db ≡ ok tt
    → le_ℤ (user_permissions db actor).max_priority req.priority ≡ false
unfolding check_create
check_create-rank actor req db h = ground arith

insert_role-IsRanked :
    (row : RoleRow) (d : Db)
    → any (λ r. str_eq r.id builtin_owner_role_id) d.roles ≡ true
    → le_ℤ row.priority owner_priority ≡ true
    → IsRanked d
    → IsRanked (insert_role row d).0
unfolding insert_role
insert_role-IsRanked row d present h b =
    elim (Bool-cases (any (λ r. str_eq r.id row.id || str_eq r.name row.name) d.roles)) [
      | inl e ↦ rw e b
      | inr e ↦ rw e (record {
        below = (h, b.below);
        owner = (λ same. absurd (taken row.id row.name d.roles present same e), b.owner);
      })
    ]
  where
    taken :
        (id name : String) (rows : List RoleRow)
        → any (λ r. str_eq r.id builtin_owner_role_id) rows ≡ true
        → str_eq id builtin_owner_role_id ≡ true
        → any (λ r. str_eq r.id id || str_eq r.name name) rows ≡ false
        → ⊥
    taken id name [] p s e = cc
    taken id name (r ∷ rows) p s e = ground (
      arith,
      eq_iff id builtin_owner_role_id,
      eq_iff r.id id,
      eq_iff r.id builtin_owner_role_id,
      taken id name rows,
    )

-- On a hub that has an owner role, with the top priority and no role above it, that is still so
-- after `create_role`, whatever it answers.
pub create_role-IsRanked :
    (actor : String) (req : CreateRoleRequest) (id : String) (now : ℕ) (db : Db)
    → any (λ r. str_eq r.id builtin_owner_role_id) db.roles ≡ true
    → IsRanked db
    → IsRanked (create_role actor req id now db).0
unfolding create_role
create_role-IsRanked actor req id now db present ranked =
    let response : RoleResponse = record {
      role = new_role req id now;
      permissions = req.permissions;
    } in
    query_then IsRanked (check_create actor req)
      (insert_role (new_role req id now)
        >> (insert_permissions id req.permissions >> answer response))
      db ranked
      λ passed.
        then_keeps IsRanked (insert_role (new_role req id now))
          (insert_permissions id req.permissions >> answer response) db
          (insert_role-IsRanked (new_role req id now) db present
            (below_top db actor req.priority ranked (check_create-rank actor req db passed)) ranked)
          λ d b.
            then_keeps IsRanked (insert_permissions id req.permissions) (answer response) d
              (roles-IsRanked d _ (insert_permissions-roles id req.permissions d) b) (λ e k. k)
