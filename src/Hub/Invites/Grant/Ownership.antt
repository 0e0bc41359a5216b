-- ===== src/Hub/Invites/Grant/Ownership.antt =====
-- An invite of a user never hands out the hub.
use wavvon_server.Base.{
  ℕ, String, true, false, ◌≡◌, refl, ◌∙◌, sym, ap, Option, none, some, le_ℤ, arith, str_eq, eq_iff,
  find, inl, inr, Option-cases, Bool-cases,
}
use wavvon_server.Hub.Db.{Db, RoleRow, UserRole}
use wavvon_server.Hub.Permissions.Caller.{builtin_owner_role_id, user_permissions}
use wavvon_server.Hub.Permissions.Caller.Laws.{is_owner-user_permissions, max_priority-le}
use wavvon_server.Hub.Roles.Ownership.{
  owner_priority, IsRanked, find-IsOwnerRanked, insert_user_role-owner,
}
use wavvon_server.Hub.Roles.{insert_user_role}
use wavvon_server.Hub.Invites.Grant.{
  role_is_a_takeover_token, default_invite_role, role_exists, explicit_role, default_role,
  granted_role, grant_role, apply_invite_role_grant,
}

find-owner :
    (db : Db) (created_by : String) (r : RoleRow)
    → IsRanked db
    → find (λ s. str_eq s.id builtin_owner_role_id) db.roles ≡ some r
    → le_ℤ (user_permissions db created_by).max_priority r.priority ≡ true
find-owner db created_by r ranked e =
    ap (le_ℤ (user_permissions db created_by).max_priority)
      (find-IsOwnerRanked db.roles r ranked.owner e)
    ∙ max_priority-le db created_by owner_priority refl ranked.below

explicit_role-not_owner :
    (created_by role_id id : String) (db : Db)
    → IsRanked db
    → str_eq created_by "system" ≡ false
    → explicit_role created_by role_id db ≡ some id
    → str_eq id builtin_owner_role_id ≡ false
unfolding explicit_role
explicit_role-not_owner created_by role_id id db ranked u e =
    elim (Option-cases (find (λ r. str_eq r.id role_id) db.roles)) [
      | inl k ↦ absurd (ground arith)
      | inr (r, k) ↦ elim (Bool-cases (str_eq role_id builtin_owner_role_id)) [
        | inl o ↦
            let same : role_id ≡ builtin_owner_role_id =
              (eq_iff role_id builtin_owner_role_id).0 o in
            let top =
              find-owner db created_by r ranked
                (sym (ap (λ i. find (λ s. str_eq s.id i) db.roles) same) ∙ k) in
            absurd (ground arith)
        | inr o ↦ ground arith
      ]
    ]

default_role-not_owner :
    (id : String) (db : Db) → default_role db ≡ some id → str_eq id builtin_owner_role_id ≡ false
unfolding default_role role_is_a_takeover_token
default_role-not_owner id db e = elim (Option-cases (default_invite_role db)) [
  | inl k ↦ absurd (ground arith)
  | inr (d, k) ↦ ground arith
]

granted_role-not_owner :
    (created_by id : String) (o : Option String) (db : Db)
    → IsRanked db
    → str_eq created_by "system" ≡ false
    → granted_role created_by o db ≡ some id
    → str_eq id builtin_owner_role_id ≡ false
unfolding granted_role
granted_role-not_owner created_by id none db ranked u e = default_role-not_owner id db e
granted_role-not_owner created_by id (some role_id) db ranked u e =
    explicit_role-not_owner created_by role_id id db ranked u e

grant_role-owner :
    (row : UserRole) (db : Db) (u : String)
    → str_eq row.role_id builtin_owner_role_id ≡ false
    → (user_permissions (grant_role row db).0 u).is_owner ≡ (user_permissions db u).is_owner
unfolding grant_role
grant_role-owner row db u h = elim (Bool-cases (role_exists db row.role_id)) [
  | inl e ↦ rw e (
      is_owner-user_permissions (insert_user_role row db).0 u
      ∙ insert_user_role-owner row db u h
      ∙ sym (is_owner-user_permissions db u))
  | inr e ↦ rw e refl
]

-- While the owner role is on top, the role grant of an invite that a user minted, or of the
-- hub's default in its place, makes nobody an owner.
pub apply_invite_role_grant-same_owners :
    (created_by : String) (grant_role_id : Option String) (user : String) (now : ℕ) (db : Db)
    (u : String)
    → IsRanked db
    → str_eq created_by "system" ≡ false
    → (user_permissions (apply_invite_role_grant created_by grant_role_id user now db).0 u).is_owner
      ≡ (user_permissions db u).is_owner
unfolding apply_invite_role_grant
apply_invite_role_grant-same_owners created_by grant_role_id user now db u ranked minted =
    elim (Option-cases (granted_role created_by grant_role_id db)) [
      | inl e ↦ rw (e, apply_invite_role_grant) refl
      | inr (id, e) ↦
          rw (e, apply_invite_role_grant)
            (grant_role-owner (record { user_public_key = user; role_id = id; assigned_at = now })
              db u (granted_role-not_owner created_by id grant_role_id db ranked minted e))
    ]
