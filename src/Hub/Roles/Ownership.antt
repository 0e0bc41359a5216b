-- ===== src/Hub/Roles/Ownership.antt =====
-- Ownership: the owner role outranks everyone, so no act on roles hands it out or takes the last
-- one away.
use wavvon_server.Base.{
  ℕ, suc, ◌≤◌, String, true, false, not, ◌&&◌, ◌≡◌, refl, ◌∙◌, sym, ap, List, [], ◌∷◌, some, inl,
  inr, ℤ, pos, le_ℤ, arith, str_eq, eq_iff, any, find, retain, length, All, Bool-cases,
}
use wavvon_server.Http.{ok, Result-cases}
use wavvon_server.Hub.Db.{Db, RoleRow, UserRole, execute, query_then}
use wavvon_server.Hub.Permissions.Caller.{builtin_owner_role_id, member_role, user_permissions}
use wavvon_server.Hub.Permissions.Caller.Laws.{
  holds_role, is_owner-user_permissions, max_priority-le,
}
use wavvon_server.Hub.Roles.Checks.{
  check_assign, check_remove, check_last_owner, check_outranks, owner_count, get_role,
}
use wavvon_server.Hub.Roles.{assign_role, insert_user_role, remove_role, delete_user_role}

-- The priority that the migrations give the owner role.
abbrev pub owner_priority : ℤ
owner_priority = pos 999999

-- Where the row is the owner role's, it has that priority.
abbrev pub IsOwnerRanked : RoleRow → Type 0
IsOwnerRanked r = str_eq r.id builtin_owner_role_id ≡ true → r.priority ≡ owner_priority

-- The owner role has the top priority, and no role is above it.
pub record IsRanked (db : Db) : Type 0 where
  pub below : All (λ r. le_ℤ r.priority owner_priority ≡ true) db.roles
  pub owner : All IsOwnerRanked db.roles

pub find-IsOwnerRanked :
    (rows : List RoleRow) (r : RoleRow)
    → All IsOwnerRanked rows
    → find (λ s. str_eq s.id builtin_owner_role_id) rows ≡ some r
    → r.priority ≡ owner_priority
find-IsOwnerRanked [] r h e = cc
find-IsOwnerRanked (s ∷ rows) r h e = ground (arith, find-IsOwnerRanked rows r h.1)

-- Nobody outranks the owner role.
pub get_role_owner :
    (db : Db) (actor : String) (r : RoleRow) (message : String)
    → IsRanked db
    → get_role db builtin_owner_role_id ≡ ok r
    → check_outranks (user_permissions db actor) r message ≡ ok tt
    → ⊥
unfolding get_role check_outranks
get_role_owner db actor r message ranked e h = ground (
  arith,
  find-IsOwnerRanked db.roles r ranked.owner,
  max_priority-le db actor owner_priority refl ranked.below,
)

check_assign-outranks :
    (actor role_id : String) (db : Db)
    → check_assign actor role_id db ≡ ok tt
    → (r : RoleRow) × (get_role db role_id ≡ ok r)
      × (check_outranks (user_permissions db actor) r "Cannot assign role with priority >= your own"
          ≡ ok tt)
unfolding check_assign
check_assign-outranks actor role_id db h = elim (Result-cases (get_role db role_id)) [
  | inl (r, e) ↦ (r, e, ground arith)
  | inr (x, e) ↦ absurd (ground arith)
]

check_assign-not_owner :
    (actor role_id : String) (db : Db)
    → IsRanked db
    → check_assign actor role_id db ≡ ok tt
    → str_eq role_id builtin_owner_role_id ≡ true
    → ⊥
check_assign-not_owner actor role_id db ranked h e =
    let (r, found, outranks) = check_assign-outranks actor role_id db h in
    let same : role_id ≡ builtin_owner_role_id = (eq_iff role_id builtin_owner_role_id).0 e in
    get_role_owner db actor r "Cannot assign role with priority >= your own" ranked
      (sym (ap (get_role db) same) ∙ found) outranks

pub insert_user_role-owner :
    (row : UserRole) (db : Db) (u : String)
    → str_eq row.role_id builtin_owner_role_id ≡ false
    → holds_role (insert_user_role row db).0 u builtin_owner_role_id
      ≡ holds_role db u builtin_owner_role_id
unfolding insert_user_role member_role
insert_user_role-owner row db u h = ground arith

-- While the owner role is on top, assigning a role makes nobody an owner: whatever
-- `assign_role` answers, the owners are those that were.
pub assign_role-same_owners :
    (actor target role_id : String) (now : ℕ) (db : Db) (u : String)
    → IsRanked db
    → (user_permissions (assign_role actor target role_id now db).0 u).is_owner
      ≡ (user_permissions db u).is_owner
unfolding assign_role
assign_role-same_owners actor target role_id now db u ranked =
    let row : UserRole = record {
      user_public_key = target;
      role_id = role_id;
      assigned_at = now;
    } in
    query_then (λ d. (user_permissions d u).is_owner ≡ (user_permissions db u).is_owner)
      (check_assign actor role_id) (insert_user_role row) db refl
      λ passed. elim (Bool-cases (str_eq role_id builtin_owner_role_id)) [
        | inl e ↦ absurd (check_assign-not_owner actor role_id db ranked passed e)
        | inr e ↦
            is_owner-user_permissions (insert_user_role row db).0 u
            ∙ insert_user_role-owner row db u e
            ∙ sym (is_owner-user_permissions db u)
      ]

-- `user_roles` has each pair once: its primary key.
abbrev pub UniquePairs : List UserRole → Type 0
UniquePairs [] = Unit
UniquePairs (r ∷ rs) =
    (any (λ s. str_eq s.user_public_key r.user_public_key && str_eq s.role_id r.role_id) rs ≡ false)
    × UniquePairs rs

abbrev owners : List UserRole → List UserRole
owners rs = retain (λ r. str_eq r.role_id builtin_owner_role_id) rs

delete_absent :
    (u role : String) (rs : List UserRole)
    → any (λ s. str_eq s.user_public_key u && str_eq s.role_id role) rs ≡ false
    → retain (λ r. not (str_eq r.user_public_key u && str_eq r.role_id role)) rs ≡ rs
delete_absent u role [] h = refl
delete_absent u role (r ∷ rs) h = ground (arith, delete_absent u role rs)

delete_one :
    (u role : String) (rs : List UserRole)
    → UniquePairs rs
    → length (owners rs)
      ≤ suc (
          length
            (owners (retain (λ r. not (str_eq r.user_public_key u && str_eq r.role_id role)) rs)))
delete_one u role [] h = omega arith
delete_one u role (r ∷ rs) h = ground (
  arith,
  eq_iff r.user_public_key u,
  eq_iff r.role_id role,
  delete_absent u role rs,
  delete_one u role rs h.1,
)

delete_other :
    (u role : String) (rs : List UserRole)
    → str_eq role builtin_owner_role_id ≡ false
    → owners (retain (λ r. not (str_eq r.user_public_key u && str_eq r.role_id role)) rs)
      ≡ owners rs
delete_other u role [] h = refl
delete_other u role (r ∷ rs) h = ground (arith, eq_iff r.role_id role, delete_other u role rs h)

check_remove-last_owner :
    (actor role_id : String) (db : Db)
    → check_remove actor role_id db ≡ ok tt
    → check_last_owner role_id db ≡ ok tt
unfolding check_remove
check_remove-last_owner actor role_id db h = ground arith

check_last_owner-two :
    (role_id : String) (db : Db)
    → check_last_owner role_id db ≡ ok tt
    → str_eq role_id builtin_owner_role_id ≡ true
    → 2 ≤ owner_count db
unfolding check_last_owner
check_last_owner-two role_id db h e = ground arith

pub delete_user_role-keeps_owner :
    (actor target role_id : String) (db : Db)
    → UniquePairs db.user_roles
    → 1 ≤ owner_count db
    → check_remove actor role_id db ≡ ok tt
    → 1 ≤ owner_count (delete_user_role target role_id db)
unfolding owner_count delete_user_role
delete_user_role-keeps_owner actor target role_id db unique h passed =
    elim (Bool-cases (str_eq role_id builtin_owner_role_id)) [
      | inl e ↦ omega (
        arith,
        check_last_owner-two role_id db (check_remove-last_owner actor role_id db passed) e,
        delete_one target role_id db.user_roles unique,
      )
      | inr e ↦ rw (delete_other target role_id db.user_roles e) h
    ]

-- A hub that has an owner keeps one: whatever `remove_role` answers, somebody still holds the
-- owner role, where the table of assignments has each pair once.
remove_role-keeps_owner :
    (actor target role_id : String) (db : Db)
    → UniquePairs db.user_roles
    → 1 ≤ owner_count db
    → 1 ≤ owner_count (remove_role actor target role_id db).0
unfolding remove_role
remove_role-keeps_owner actor target role_id db unique h =
    query_then (λ d. 1 ≤ owner_count d) (check_remove actor role_id)
      (execute (delete_user_role target role_id)) db h
      (delete_user_role-keeps_owner actor target role_id db unique h)
