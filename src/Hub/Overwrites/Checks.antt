-- ===== src/Hub/Overwrites/Checks.antt =====
-- What the handlers of crates/hub/src/routes/channel_permissions.rs check before they write.
use Prim.Native.String.{◌++◌}
use mathlib.Core.List.{◌++◌ as append}
use wavvon_server.Base.{
  String, not, List, [], ◌∷◌, none, some, le_ℤ, any, find, str_eq, contains, if◌then◌else◌,
}
use wavvon_server.Http.{Result, ok, fail, guard, bad_request, forbidden, not_found, ◌>>=◌, ◌>>◌}
use wavvon_server.Hub.Db.{Db, RoleRow}
use wavvon_server.Hub.Permissions.Catalogue.{channels_permissions, validate_channel_overwrite}
use wavvon_server.Hub.Permissions.Caller.{UserPermissions, require, first_not_held}
use wavvon_server.Hub.Permissions.Resolve.{channel_permissions}

pub record OverwriteSet : Type 0 where
  pub allow : List String
  pub deny : List String

unfoldable pub require_channel_exists : Db → String → Result (Unit {0})
require_channel_exists db channel_id =
    guard (any (λ c. str_eq c.id channel_id) db.channels) not_found "channel not found"

-- The row that has the name and the priority.
unfoldable pub require_role : Db → String → Result RoleRow
require_role db role_id = elim (find (λ r. str_eq r.id role_id) db.roles) [
  | none ↦ fail not_found "role not found"
  | some r ↦ ok r
]

-- The loop over `req.allow`.
unfoldable pub require_disjoint : List String → List String → Result (Unit {0})
require_disjoint [] deny = ok tt
require_disjoint (p ∷ allow) deny =
    let rest = require_disjoint allow deny in
    if contains deny p
    then fail bad_request ("permission '" ++ (p ++ "' cannot be both allowed and denied"))
    else rest

-- The self-grant guard.
unfoldable pub require_held : UserPermissions → List String → Result (Unit {0})
require_held perms allow = elim (first_not_held perms allow) [
  | some p ↦
      fail forbidden ("Cannot grant permission '" ++ (p ++ "' you do not hold on this channel"))
  | none ↦ ok tt
]

-- What `put_channel_permissions` checks before its transaction.
unfoldable pub check_put : String → String → String → OverwriteSet → Db → Result (Unit {0})
unfolding require require_channel_exists require_role require_disjoint require_held
check_put user channel_id role_id req db = do
  let perms : UserPermissions = channel_permissions db user channel_id
  require perms channels_permissions
  require_channel_exists db channel_id
  role ← require_role db role_id
  guard (not (le_ℤ perms.max_priority role.priority)) forbidden
      "Cannot edit permission overwrites for a role with priority >= your own"
  validate_channel_overwrite (append req.allow req.deny)
  require_disjoint req.allow req.deny
  require_held perms req.allow

-- What `delete_channel_permissions` checks.
unfoldable pub check_clear : String → String → String → Db → Result (Unit {0})
unfolding require require_channel_exists require_role
check_clear user channel_id role_id db = do
  let perms : UserPermissions = channel_permissions db user channel_id
  require perms channels_permissions
  require_channel_exists db channel_id
  role ← require_role db role_id
  guard (not (le_ℤ perms.max_priority role.priority)) forbidden
      "Cannot clear permission overwrites for a role with priority >= your own"
