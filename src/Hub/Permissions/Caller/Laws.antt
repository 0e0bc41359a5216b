-- ===== src/Hub/Permissions/Caller/Laws.antt =====
-- What a caller holds, read off the tables, and the ceiling on what a caller may grant.
use mathlib.Core.Path.{fun_ext}
use wavvon_server.Base.{
  String, Bool, true, false, ◌&&◌, ◌≡◌, refl, ◌∙◌, ap, is_empty, if◌then◌else◌, List, [], ◌∷◌, map,
  ℤ, pos, le_ℤ, inl, inr, arith, str_eq, eq_iff, contains, contains-map, any, any-retain, retain,
  All, Bool-cases,
}
use wavvon_server.Http.{ok}
use wavvon_server.Hub.Db.{Db, RoleRow, RolePermission}
use wavvon_server.Hub.Permissions.Caller.{
  UserPermissions, has, first_not_held, require_can_grant, member_role, user_role_rows,
  fetch_permissions, max_priority_of, role_ids, user_permissions, builtin_owner_role_id,
}

-- The role exists and the user holds it.
abbrev pub holds_role : Db → String → String → Bool
holds_role db u role_id = any (λ r. str_eq r.id role_id) db.roles && member_role db u role_id

pub any-by_id :
    (f : String → Bool) (rows : List RoleRow) (id : String)
    → any (λ r. str_eq r.id id) (retain (λ r. f r.id) rows)
      ≡ (any (λ r. str_eq r.id id) rows && f id)
any-by_id f [] id = refl
any-by_id f (r ∷ rows) id = ground (arith, eq_iff r.id id, any-by_id f rows id)

contains-role_ids :
    (f : String → Bool) (rows : List RoleRow) (id : String)
    → contains (role_ids (retain (λ r. f r.id) rows)) id ≡ (any (λ r. str_eq r.id id) rows && f id)
contains-role_ids f rows id =
    contains-map (λ (r : RoleRow). r.id) (retain (λ r. f r.id) rows) id ∙ any-by_id f rows id

any-by_ids :
    (ids : List String) (p : String) (gs : List RolePermission)
    → contains (map (λ g. g.permission) (retain (λ g. contains ids g.role_id) gs)) p
      ≡ any (λ g. contains ids g.role_id && str_eq g.permission p) gs
any-by_ids ids p gs =
    contains-map (λ (g : RolePermission). g.permission) (retain (λ g. contains ids g.role_id) gs) p
    ∙ any-retain (λ (g : RolePermission). str_eq g.permission p) (λ g. contains ids g.role_id) gs

any-by_no_ids :
    (p : String) (gs : List RolePermission)
    → any (λ g. contains [] g.role_id && str_eq g.permission p) gs ≡ false
any-by_no_ids p [] = refl
any-by_no_ids p (g ∷ gs) = any-by_no_ids p gs

contains-fetch_permissions :
    (db : Db) (ids : List String) (p : String)
    → contains (fetch_permissions db ids) p
      ≡ any (λ g. contains ids g.role_id && str_eq g.permission p) db.role_permissions
unfolding fetch_permissions
contains-fetch_permissions db [] p = rw (any-by_no_ids p db.role_permissions)
contains-fetch_permissions db (i ∷ ids) p = any-by_ids (i ∷ ids) p db.role_permissions

-- Hub-wide a caller has a permission exactly when a role that they hold carries it.
pub contains-user_permissions :
    (db : Db) (u p : String)
    → contains (user_permissions db u).effective p
      ≡ any (λ g. holds_role db u g.role_id && str_eq g.permission p) db.role_permissions
unfolding user_permissions user_role_rows
contains-user_permissions db u p =
    contains-fetch_permissions db (role_ids (user_role_rows db u)) p ∙ swap db.role_permissions
  where
    swap :
        (gs : List RolePermission)
        → any (λ g. contains (role_ids (user_role_rows db u)) g.role_id && str_eq g.permission p) gs
          ≡ any (λ g. holds_role db u g.role_id && str_eq g.permission p) gs
    swap [] = refl
    swap (g ∷ gs) = ground (arith, contains-role_ids (member_role db u) db.roles g.role_id, swap gs)

-- Ownership is holding the built-in role.
pub is_owner-user_permissions :
    (db : Db) (u : String)
    → (user_permissions db u).is_owner ≡ holds_role db u builtin_owner_role_id
unfolding user_permissions user_role_rows
is_owner-user_permissions db u = any-by_id (member_role db u) db.roles builtin_owner_role_id

-- The escalation ceiling: a caller passes exactly with permissions that they all hold.
pub require_can_grant_lem :
    (u : UserPermissions) (ps : List String)
    → require_can_grant u ps ≡ ok tt
    → All (λ p. has u p ≡ true) ps
unfolding require_can_grant first_not_held
require_can_grant_lem u [] h = tt
require_can_grant_lem u (p ∷ ps) h = elim (Bool-cases (has u p)) [
  | inl e ↦ (e, require_can_grant_lem u ps (ground arith))
  | inr e ↦ absurd (ground arith)
]

pub All-has-contains :
    (u : UserPermissions) (ps : List String) (p : String)
    → All (λ q. has u q ≡ true) ps
    → contains ps p ≡ true
    → has u p ≡ true
All-has-contains u [] p h e = cc
All-has-contains u (q ∷ ps) p h e = ground (arith, eq_iff q p, All-has-contains u ps p h.1)

-- A bound on every role bounds the rank of a caller.
pub le_ℤ-max_priority_of :
    (top : ℤ) (rows : List RoleRow)
    → le_ℤ (pos 0) top ≡ true
    → All (λ r. le_ℤ r.priority top ≡ true) rows
    → le_ℤ (max_priority_of rows) top ≡ true
unfolding max_priority_of
le_ℤ-max_priority_of top [] z h = z
le_ℤ-max_priority_of top (r ∷ []) z h = h.0
le_ℤ-max_priority_of top (r ∷ s ∷ rows) z h =
    ground (arith, le_ℤ-max_priority_of top (s ∷ rows) z h.1)

All-retain_roles :
    (top : ℤ) (f : RoleRow → Bool) (rows : List RoleRow)
    → All (λ r. le_ℤ r.priority top ≡ true) rows
    → All (λ r. le_ℤ r.priority top ≡ true) (retain f rows)
All-retain_roles top f [] h = tt
All-retain_roles top f (r ∷ rows) h = ground (arith, All-retain_roles top f rows h.1)

pub max_priority-le :
    (db : Db) (u : String) (top : ℤ)
    → le_ℤ (pos 0) top ≡ true
    → All (λ r. le_ℤ r.priority top ≡ true) db.roles
    → le_ℤ (user_permissions db u).max_priority top ≡ true
unfolding user_permissions user_role_rows
max_priority-le db u top z h =
    le_ℤ-max_priority_of top (user_role_rows db u) z
      (All-retain_roles top (λ r. member_role db u r.id) db.roles h)

user_role_rows-same :
    (d db : Db) (u : String)
    → d.roles ≡ db.roles
    → member_role d u ≡ member_role db u
    → user_role_rows d u ≡ user_role_rows db u
unfolding user_role_rows
user_role_rows-same d db u hr h =
    ap (λ f. retain (λ r. f r.id) d.roles) h ∙ ap (retain (λ r. member_role db u r.id)) hr

fetch_permissions-same :
    (d db : Db) (ids : List String)
    → d.role_permissions ≡ db.role_permissions
    → fetch_permissions d ids ≡ fetch_permissions db ids
unfolding fetch_permissions
fetch_permissions-same d db ids h =
    ap
      (λ gs.
        if is_empty ids
        then []
        else map (λ g. g.permission) (retain (λ g. contains ids g.role_id) gs))
      h

-- Two hubs with the same roles and grants, in which the user holds the same roles.
pub user_permissions-same :
    (d db : Db) (u : String)
    → d.roles ≡ db.roles
    → d.role_permissions ≡ db.role_permissions
    → ((id : String) → member_role d u id ≡ member_role db u id)
    → user_permissions d u ≡ user_permissions db u
unfolding user_permissions
user_permissions-same d db u hr hp h =
    rw
      (
        user_role_rows-same d db u hr (fun_ext h),
        fetch_permissions-same d db (role_ids (user_role_rows db u)) hp,
      )
      refl
