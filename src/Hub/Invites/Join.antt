-- ===== src/Hub/Invites/Join.antt =====
-- `join_with_invite` of crates/hub/src/routes/invites.rs, the redemption of a code within a session,
-- with `admit_member` of crates/hub/src/auth/handlers.rs.
use wavvon_server.Base.{
  ℕ, String, Bool, true, false, not, ◌&&◌, ◌||◌, List, [], ◌∷◌, map, Option, none, some, ℤ, pos,
  le_ℤ, str_eq, any, find, if◌then◌else◌,
}
use wavvon_server.Http.{Result, ok, err, fail, guard, forbidden, not_found, gone, ◌>>=◌, ◌>>◌}
use wavvon_server.Hub.Db.{Db, Invite}
use wavvon_server.Hub.Invites.{redeemable_by, invite_of, add_use}
use wavvon_server.Hub.Invites.Grant.{apply_invite_role_grant}

unfoldable pub require_found : Db → String → Result Invite
unfolding invite_of
require_found db code = elim (invite_of db code) [
  | none ↦ fail not_found "Invite not found"
  | some i ↦ ok i
]

unfoldable pub require_unexpired : Option ℤ → ℕ → Result (Unit {0})
require_unexpired none now = ok tt
require_unexpired (some expires_at) now =
    guard (le_ℤ (pos now) expires_at) gone "Invite has expired"

unfoldable pub require_unused : Option ℤ → ℕ → Result (Unit {0})
require_unused none uses = ok tt
require_unused (some max_uses) uses =
    guard (not (le_ℤ max_uses (pos uses))) gone "Invite has been fully used"

-- The key of the session, and the master's where it is known.
abbrev pub candidates_of : String → Option String → List String
candidates_of public_key none = public_key ∷ []
candidates_of public_key (some master) = public_key ∷ master ∷ []

-- What `join_with_invite` checks before it writes.
unfoldable pub check_join : String → String → Option String → ℕ → Db → Result Invite
unfolding redeemable_by require_found require_unexpired require_unused
check_join code public_key master now db = do
  invite ← require_found db code
  require_unexpired invite.expires_at now
  require_unused invite.max_uses invite.uses
  guard (redeemable_by invite.bound_pubkey (candidates_of public_key master)) forbidden
      "This invite was issued to a different key"
  ok invite

abbrev pub requires_approval : Db → Bool
requires_approval db = elim (find (λ s. str_eq s.key "require_approval") db.hub_settings) [
  | none ↦ false
  | some s ↦ str_eq s.value "true"
]

-- The `CASE`: who left is a joiner again.
unfoldable pub admitted_status : Db → String → String
admitted_status db status =
    if not (str_eq status "left")
    then status
    else if requires_approval db
    then "pending"
    else "approved"

unfoldable pub admit_member : String → Db → Db
unfolding admitted_status
admit_member public_key db = record db {
  users =
      map
        (λ u.
          if str_eq u.public_key public_key
          then record u { is_member = true; approval_status = admitted_status db u.approval_status }
          else u)
        db.users;
}

-- The two `NOT EXISTS`.
unfoldable pub is_held : Db → String → Bool
is_held db public_key =
    any (λ f. str_eq f.public_key public_key) db.admission_flags
    || any (λ s. str_eq s.purpose "application" && s.enabled) db.surveys

unfoldable pub approve : String → Db → Db
unfolding is_held
approve public_key db = record db {
  users =
      map
        (λ u.
          if str_eq u.public_key public_key && not (is_held db public_key)
          then record u { approval_status = "approved" }
          else u)
        db.users;
}

-- The statements in their order: each is of its own, and stays where the last fails.
unfoldable pub join_with_invite : String → String → Option String → ℕ → Db → Db × Result (Unit {0})
unfolding check_join admit_member approve apply_invite_role_grant
join_with_invite code public_key master now db =
    let check : Result Invite = check_join code public_key master now db in
    elim check [
      | err e ↦ (db, err e)
      | ok i ↦
          apply_invite_role_grant i.created_by i.grant_role_id public_key now
            (approve public_key (add_use code (admit_member public_key db)))
    ]
