-- ===== src/Hub/Permissions/Caller.antt =====
-- `UserPermissions` and `user_permissions` of crates/hub/src/permissions.rs.
pub mod Laws
use Prim.Native.String.{◌++◌}
use wavvon_server.Base.{
  String, Bool, true, false, not, ◌&&◌, ◌||◌, List, [], ◌∷◌, map, Option, none, some, ℤ, pos, max_ℤ,
  str_eq, contains, find, any, retain, is_empty, if◌then◌else◌,
}
use wavvon_server.Http.{Result, ok, fail, guard, forbidden}
use wavvon_server.Hub.Db.{Db, RoleRow}

abbrev pub builtin_owner_role_id : String
builtin_owner_role_id = "builtin-owner"

abbrev pub builtin_everyone_role_id : String
builtin_everyone_role_id = "builtin-everyone"

pub record UserPermissions : Type 0 where
  pub roles : List RoleRow
  pub effective : List String
  pub max_priority : ℤ
  pub is_owner : Bool

unfoldable pub has : UserPermissions → String → Bool
has u p = u.is_owner || contains u.effective p

unfoldable pub require_owner : UserPermissions → String → Result (Unit {0})
require_owner u act = guard u.is_owner forbidden ("Only the hub owner may " ++ act)

unfoldable pub require : UserPermissions → String → Result (Unit {0})
unfolding has
require u p = guard (has u p) forbidden ("Missing permission: " ++ p)

unfoldable pub first_not_held : UserPermissions → List String → Option String
unfolding has
first_not_held u requested = find (λ p. not (has u p)) requested

unfoldable pub require_can_grant : UserPermissions → List String → Result (Unit {0})
unfolding first_not_held
require_can_grant u requested = elim (first_not_held u requested) [
  | some p ↦ fail forbidden ("Cannot grant permission '" ++ p ++ "' you do not hold")
  | none ↦ ok tt
]

-- Whether the view `member_roles` has the row: the assigned roles, and the floor role of every
-- member. The view is a `UNION`, so it has a row once.
unfoldable pub member_role : Db → String → String → Bool
member_role db user role_id =
    any (λ r. str_eq r.user_public_key user && str_eq r.role_id role_id) db.user_roles
    || (str_eq role_id builtin_everyone_role_id
        && any (λ u. str_eq u.public_key user && u.is_member) db.users)

-- The join of `roles` with `member_roles`.
unfoldable pub user_role_rows : Db → String → List RoleRow
unfolding member_role
user_role_rows db user = retain (λ r. member_role db user r.id) db.roles

unfoldable pub fetch_permissions : Db → List String → List String
fetch_permissions db role_ids =
    if is_empty role_ids
    then []
    else map (λ g. g.permission) (retain (λ g. contains role_ids g.role_id) db.role_permissions)

-- `iter().max().unwrap_or(0)`
unfoldable pub max_priority_of : List RoleRow → ℤ
max_priority_of [] = pos 0
max_priority_of (r ∷ []) = r.priority
max_priority_of (r ∷ s ∷ rs) = max_ℤ r.priority (max_priority_of (s ∷ rs))

abbrev pub role_ids : List RoleRow → List String
role_ids = map (λ r. r.id)

unfoldable pub user_permissions : Db → String → UserPermissions
unfolding user_role_rows fetch_permissions max_priority_of
user_permissions db user =
    let rows : List RoleRow = user_role_rows db user in
    record {
      roles = rows;
      effective = fetch_permissions db (role_ids rows);
      max_priority = max_priority_of rows;
      is_owner = any (λ r. str_eq r.id builtin_owner_role_id) rows;
    }
