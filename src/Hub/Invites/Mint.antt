-- ===== src/Hub/Invites/Mint.antt =====
-- The minting and revoking of invites in crates/hub/src/routes/invites.rs, and the status of
-- invite_models.rs. The code, which the source draws, is an argument; `hex::decode` is a parameter,
-- of which only whether it succeeds is used. Not modelled: the column `created_at` of the row and
-- what a success answers.
pub mod Laws
use wavvon_server.Base.{
  ℕ, suc, ◌+◌, ◌-◌, ◌*◌, ◌==◌, ltb, String, Bool, true, false, not, ◌&&◌, ◌||◌, List, [], ◌∷◌, map,
  Option, none, some, ℤ, pos, negsuc, le_ℤ, lt_ℤ, min_ℤ, as_i64, str_eq, any, find, retain,
  if◌then◌else◌,
}
use wavvon_server.Base.Chars.{chars, byte_len}
use wavvon_server.Http.{Result, ok, err, fail, guard, bad_request, forbidden, ◌>>=◌, ◌>>◌}
use wavvon_server.Hub.Db.{Db, RoleRow, Invite}
use wavvon_server.Hub.Permissions.Catalogue.{invites_manage}
use wavvon_server.Hub.Permissions.Caller.{
  UserPermissions, user_permissions, require, require_can_grant,
}
use wavvon_server.Hub.Roles.{db_error}
use wavvon_server.Hub.Roles.Checks.{role_permissions}
use wavvon_server.Hub.Invites.Grant.{role_is_a_takeover_token}

pub record CreateInviteRequest : Type 0 where
  pub max_uses : Option ℤ
  pub expires_in_seconds : Option ℤ
  pub grant_role_id : Option String
  pub bound_pubkey : Option String

abbrev pub takeover_grant_default_expiry_secs : ℕ
takeover_grant_default_expiry_secs = 24 * 3600

-- `now + s`, which wraps where it is too large.
unfoldable pub after_secs : ℕ → ℤ → ℤ
after_secs now (pos s) = as_i64 (now + s)
after_secs now (negsuc s) = if ltb s now then pos (now - suc s) else negsuc (s - now)

unfoldable pub invite_status : ℤ → Option ℤ → Option ℤ → ℕ → String
invite_status uses max_uses expires_at now =
    if elim max_uses [ none ↦ false | some max ↦ le_ℤ max uses ]
    then "used_up"
    else if elim expires_at [ none ↦ false | some at ↦ le_ℤ at (pos now) ]
    then "expired"
    else "live"

-- The guards on the role that the invite grants.
unfoldable pub check_grant_role : UserPermissions → String → Db → Result (Unit {0})
unfolding require_can_grant role_permissions
check_grant_role perms role_id db = elim (find (λ r. str_eq r.id role_id) db.roles) [
  | none ↦ fail bad_request "grant_role_id does not reference an existing role"
  | some r ↦ do
    guard (not (le_ℤ perms.max_priority r.priority)) forbidden
        "Cannot create an invite that grants a role at or above your own priority"
    require_can_grant perms (role_permissions db role_id)
]

unfoldable pub check_granted : UserPermissions → Option String → Db → Result (Unit {0})
unfolding check_grant_role
check_granted perms none db = ok tt
check_granted perms (some role_id) db = check_grant_role perms role_id db

-- The forced expiry, unless the creator asked for a stricter one.
unfoldable pub takeover_expiry : Option ℤ → ℕ → ℤ
takeover_expiry none now = pos (now + takeover_grant_default_expiry_secs)
takeover_expiry (some existing) now =
    if lt_ℤ existing (pos (now + takeover_grant_default_expiry_secs))
    then existing
    else pos (now + takeover_grant_default_expiry_secs)

abbrev pub is_takeover : Option String → Db → Bool
is_takeover none db = false
is_takeover (some role_id) db = role_is_a_takeover_token db role_id

-- `max_uses` once the key is bound.
unfoldable pub uses_of_bound : CreateInviteRequest → Option ℤ
uses_of_bound req = elim req.bound_pubkey [ none ↦ req.max_uses | some bound ↦ some (pos 1) ]

-- `max_uses` that is stored.
unfoldable pub uses_allowed : CreateInviteRequest → Db → Option ℤ
unfolding uses_of_bound
uses_allowed req db =
    if is_takeover req.grant_role_id db
    then some (elim (uses_of_bound req) [ none ↦ pos 1 | some m ↦ min_ℤ m (pos 1) ])
    else uses_of_bound req

unfoldable pub asked_expiry : CreateInviteRequest → ℕ → Option ℤ
unfolding after_secs
asked_expiry req now = elim req.expires_in_seconds [
  | none ↦ none
  | some s ↦ some (after_secs now s)
]

-- `expires_at` that is stored.
unfoldable pub expiry : CreateInviteRequest → ℕ → Db → Option ℤ
unfolding asked_expiry takeover_expiry
expiry req now db =
    if is_takeover req.grant_role_id db
    then some (takeover_expiry (asked_expiry req now) now)
    else asked_expiry req now

unfoldable pub new_invite : String → CreateInviteRequest → String → ℕ → Db → Invite
unfolding uses_allowed expiry
new_invite user req code now db = record {
  code = code;
  created_by = user;
  max_uses = uses_allowed req db;
  uses = 0;
  expires_at = expiry req now db;
  grant_role_id = req.grant_role_id;
  bound_pubkey = req.bound_pubkey;
}

-- `INSERT INTO invites`: the code is the primary key.
unfoldable pub insert_invite : Invite → Db → Db × Result (Unit {0})
insert_invite row db =
    if any (λ i. str_eq i.code row.code) db.invites
    then (db, db_error)
    else (record db { invites = row ∷ db.invites }, ok tt)

module _ (is_hex : String → Bool) where
  unfoldable pub check_bound : Option String → Result (Unit {0})
  check_bound none = ok tt
  check_bound (some bound) =
      guard (byte_len (chars bound) == 64 && is_hex bound) bad_request
        "bound_pubkey must be 64 hex characters"

  unfoldable pub check_create_invite : String → CreateInviteRequest → Db → Result (Unit {0})
  unfolding require check_bound check_granted
  check_create_invite user req db = do
    require (user_permissions db user) invites_manage
    check_bound req.bound_pubkey
    check_granted (user_permissions db user) req.grant_role_id db

  unfoldable pub create_invite :
      String → CreateInviteRequest → String → ℕ → Db → Db × Result (Unit {0})
  unfolding check_create_invite new_invite insert_invite
  create_invite user req code now db =
      let check : Result (Unit {0}) = check_create_invite user req db in
      elim check [ err e ↦ (db, err e) | ok u ↦ insert_invite (new_invite user req code now db) db ]

unfoldable pub revoke_invite : String → String → Db → Db × Result (Unit {0})
unfolding require
revoke_invite user code db =
    let check : Result (Unit {0}) = require (user_permissions db user) invites_manage in
    elim check [
      | err e ↦ (db, err e)
      | ok u ↦ (record db { invites = retain (λ i. not (str_eq i.code code)) db.invites }, ok tt)
    ]
