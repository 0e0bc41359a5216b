-- ===== src/Hub/Invites/Examples.antt =====
-- The theorems about invites applied to the sample hub.
use wavvon_server.Base.{
  String, Bool, List, true, find, str_eq, le_ℤ, All, ◌&&◌, not, ◌||◌, false, ◌+◌, ◌≤◌, ◌≡◌, refl,
  [], ◌∷◌, some, none, arith, pos,
}
use wavvon_server.Hub.Db.{Db, Invite, RoleRow}
use wavvon_server.Hub.Permissions.Caller.{user_permissions}
use wavvon_server.Hub.Invites.Grant.{apply_invite_role_grant}
use wavvon_server.Hub.Invites.Grant.Ownership.{apply_invite_role_grant-same_owners}
use wavvon_server.Hub.Sample.{sample, sample-IsRanked}
use wavvon_server.Hub.Invites.{invite_of, has_uses, validate_and_use_invite}
use wavvon_server.Hub.Invites.Mint.{CreateInviteRequest, invite_status, create_invite}
use wavvon_server.Hub.Invites.Mint.Laws.{
  is_now, create_invite-once, create_invite-ceiling, invite_status-agrees,
}
use wavvon_server.Http.{is_ok}
use wavvon_server.Hub.Permissions.Catalogue.{invites_manage}
use wavvon_server.Hub.Permissions.Caller.{has}
use wavvon_server.Hub.Roles.Checks.{role_permissions}
use wavvon_server.Hub.Invites.Attempts.{Attempt}
use wavvon_server.Hub.Invites.Uses.{redemptions, redemptions-bounded}

abbrev helper_invite : Invite
helper_invite = record {
  code = "c";
  created_by = "bob";
  max_uses = some (pos 1);
  uses = 0;
  expires_at = none;
  grant_role_id = some "helper";
  bound_pubkey = none;
}

abbrev two_attempts : List Attempt
two_attempts = Attempt.registers ("dave" ∷ []) 5 ∷ Attempt.joins "carol" none 6 ∷ []

redemptions-bounded_example : 0 + redemptions "c" two_attempts sample ≤ 1
unfolding invite_of
redemptions-bounded_example =
    redemptions-bounded "c" two_attempts sample helper_invite 1 refl refl (omega arith)

apply_invite_role_grant-same_owners_example :
    (user_permissions
      (apply_invite_role_grant "bob" (some "helper") "carol" 7 sample).0
      "carol").is_owner
    ≡ false
unfolding user_permissions
apply_invite_role_grant-same_owners_example =
    apply_invite_role_grant-same_owners "bob" (some "helper") "carol" 7 sample "carol"
      sample-IsRanked refl

-- Stands for the check of the digits.
abbrev any_key : String → Bool
any_key key = true

abbrev mod_invite : CreateInviteRequest
mod_invite = record {
  max_uses = some (pos 5);
  expires_in_seconds = none;
  grant_role_id = some "mod";
  bound_pubkey = none;
}

-- Alice asks for five uses of a code that lets its holder manage roles.
create_invite-once_example :
    redemptions "d" two_attempts (create_invite any_key "alice" mod_invite "d" 4 sample).0 ≤ 1
unfolding create_invite user_permissions wavvon_server.Hub.Invites.Grant.role_is_a_takeover_token
create_invite-once_example =
    create_invite-once any_key "alice" mod_invite "d" 4 sample two_attempts refl refl

create_invite-ceiling_example :
    (has (user_permissions sample "alice") invites_manage ≡ true)
    × ((r : RoleRow) × (find (λ r. str_eq r.id "mod") sample.roles ≡ some r)
        × (le_ℤ (user_permissions sample "alice").max_priority r.priority ≡ false))
    × All (λ p. has (user_permissions sample "alice") p ≡ true) (role_permissions sample "mod")
unfolding create_invite user_permissions
create_invite-ceiling_example =
    create_invite-ceiling any_key "alice" mod_invite "d" 4 sample "mod" refl refl

abbrev ending_invite : Invite
ending_invite = record helper_invite { code = "e"; expires_at = some (pos 5) }

abbrev ending : Db
ending = record sample { invites = ending_invite ∷ sample.invites }

-- In the last second of the code.
invite_status-agrees_example :
    (str_eq (invite_status (pos 0) (some (pos 1)) (some (pos 5)) 5) "live" ≡ (
      is_ok (validate_and_use_invite "e" ("dave" ∷ []) 5 ending).1
      && not (is_now (some (pos 5)) 5)))
    × (is_ok (validate_and_use_invite "e" ("dave" ∷ []) 5 ending).1 ≡ (
        str_eq (invite_status (pos 0) (some (pos 1)) (some (pos 5)) 5) "live"
        || (str_eq (invite_status (pos 0) (some (pos 1)) (some (pos 5)) 5) "expired"
            && is_now (some (pos 5)) 5)))
unfolding invite_of wavvon_server.Hub.Invites.redeemable_by
invite_status-agrees_example =
    invite_status-agrees "e" ("dave" ∷ []) 5 ending ending_invite refl refl
