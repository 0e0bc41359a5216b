-- ===== src/Hub/Invites.antt =====
-- Invites: their redemption in crates/hub/src/routes/invites.rs.
pub mod Attempts
pub mod Uses
pub mod Grant
pub mod Mint
pub mod Join
mod Examples
use wavvon_server.Base.{
  ℕ, ◌+◌, String, Bool, true, false, not, ◌&&◌, List, [], ◌∷◌, map, Option, none, some, ℤ, pos,
  le_ℤ, lt_ℤ, str_eq, find, contains, if◌then◌else◌,
}
use wavvon_server.Http.{Result, ok, err, fail, guard, forbidden, ◌>>=◌, ◌>>◌}
use wavvon_server.Hub.Db.{Db, Invite, Handler}

unfoldable pub redeemable_by : Option String → List String → Bool
redeemable_by none candidates = true
redeemable_by (some bound) candidates = contains candidates bound

pub record InviteRedemption : Type 0 where
  pub created_by : String
  pub grant_role_id : Option String

-- The row that a code selects: `code` is the primary key.
unfoldable pub invite_of : Db → String → Option Invite
invite_of db code = find (λ i. str_eq i.code code) db.invites

unfoldable pub require_invite : Db → String → Result Invite
unfolding invite_of
require_invite db code = elim (invite_of db code) [
  | none ↦ fail forbidden "Invalid invite code"
  | some i ↦ ok i
]

-- `if let Some(expires_at)`: an invite is good up to its last second.
unfoldable pub require_current : Option ℤ → ℕ → Result (Unit {0})
require_current none now = ok tt
require_current (some expires_at) now =
    guard (le_ℤ (pos now) expires_at) forbidden "Invite code has expired"

-- What `validate_and_use_invite` checks before it counts the use.
unfoldable pub check_invite : String → List String → ℕ → Db → Result Invite
unfolding redeemable_by require_invite require_current
check_invite code candidates now db = do
  invite ← require_invite db code
  require_current invite.expires_at now
  guard (redeemable_by invite.bound_pubkey candidates) forbidden
      "This invite was issued to a different key"
  ok invite

-- `max_uses IS NULL OR uses < max_uses`
unfoldable pub has_uses : Invite → Bool
has_uses i = elim i.max_uses [ none ↦ true | some m ↦ lt_ℤ (pos i.uses) m ]

-- `SET uses = uses + 1 WHERE code = $1`
abbrev pub add_use : String → Db → Db
add_use code db = record db {
  invites = map (λ j. if str_eq j.code code then record j { uses = j.uses + 1 } else j) db.invites;
}

-- The conditional `UPDATE`: whether a row was affected, and the tables after it.
unfoldable pub use_invite : String → Db → Option Db
unfolding invite_of has_uses
use_invite code db = elim (invite_of db code) [
  | none ↦ none
  | some i ↦ if has_uses i then some (add_use code db) else none
]

unfoldable pub validate_and_use_invite : String → List String → ℕ → Handler InviteRedemption
unfolding check_invite use_invite
validate_and_use_invite code candidates now db = elim (check_invite code candidates now db) [
  | err e ↦ (db, err e)
  | ok i ↦ elim (use_invite code db) [
    | none ↦ (db, fail forbidden "Invite code has been used up")
    | some after ↦
        (after, ok (record { created_by = i.created_by; grant_role_id = i.grant_role_id }))
  ]
]
