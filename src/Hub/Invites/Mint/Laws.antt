-- ===== src/Hub/Invites/Mint/Laws.antt =====
-- About minted invites: their grants, their uses and their status.
use wavvon_server.Base.{
  ℕ, ◌≤◌, String, Bool, true, false, not, ◌&&◌, ◌||◌, ◌≡◌, refl, le_ℤ_total, inl, inr, List, Option,
  none, some, ℤ, pos, negsuc, le_ℤ, lt_ℤ, min_ℤ, arith, str_eq, str_eq_refl, find, All,
  if◌then◌else◌, Option-cases, Bool-cases,
}
use wavvon_server.Http.{ok, is_ok, Result-cases}
use wavvon_server.Hub.Db.{Db, RoleRow, Invite}
use wavvon_server.Hub.Permissions.Catalogue.{invites_manage}
use wavvon_server.Hub.Permissions.Caller.{has, user_permissions, require}
use wavvon_server.Hub.Permissions.Caller.Laws.{require_can_grant_lem}
use wavvon_server.Hub.Roles.Checks.{role_permissions}
use wavvon_server.Hub.Invites.{
  invite_of, has_uses, require_current, require_invite, check_invite, redeemable_by, use_invite,
  validate_and_use_invite,
}
use wavvon_server.Hub.Invites.Attempts.{Attempt}
use wavvon_server.Hub.Invites.Uses.{redemptions, redemptions-once}
use wavvon_server.Hub.Invites.Mint.{
  CreateInviteRequest, invite_status, check_grant_role, check_granted, is_takeover, uses_of_bound,
  uses_allowed, new_invite, insert_invite, check_create_invite, create_invite,
}

-- The key is named.
abbrev pub is_bound : CreateInviteRequest → Bool
is_bound req = elim req.bound_pubkey [ none ↦ false | some bound ↦ true ]

insert_invite-first :
    (row : Invite) (db : Db)
    → (insert_invite row db).1 ≡ ok tt
    → invite_of (insert_invite row db).0 row.code ≡ some row
unfolding insert_invite invite_of
insert_invite-first row db h = ground (arith, str_eq_refl row.code)

min_one : (m : ℤ) → le_ℤ (min_ℤ m (pos 1)) (pos 1) ≡ true
min_one (pos m) = ground arith
min_one (negsuc m) = ground arith

uses_allowed-one :
    (req : CreateInviteRequest) (db : Db)
    → (is_bound req || is_takeover req.grant_role_id db) ≡ true
    → (m : ℤ) × (uses_allowed req db ≡ some m) × (le_ℤ m (pos 1) ≡ true)
unfolding uses_allowed uses_of_bound
uses_allowed-one req db h = elim (Bool-cases (is_takeover req.grant_role_id db)) [
  | inl e ↦ elim (Option-cases (uses_of_bound req)) [
    | inl n ↦ (pos 1, rw (e, n) refl, refl)
    | inr (m, n) ↦ (min_ℤ m (pos 1), rw (e, n) refl, min_one m)
  ]
  | inr e ↦ elim (Option-cases req.bound_pubkey) [
    | inl n ↦ absurd (ground arith)
    | inr (b, n) ↦ (pos 1, rw (e, n) refl, refl)
  ]
]

module _ (is_hex : String → Bool) where
  create_invite-written :
      (user : String) (req : CreateInviteRequest) (code : String) (now : ℕ) (db : Db)
      → (create_invite is_hex user req code now db).1 ≡ ok tt
      → (check_create_invite is_hex user req db ≡ ok tt)
        × ((create_invite is_hex user req code now db).0
            ≡ (insert_invite (new_invite user req code now db) db).0)
        × ((insert_invite (new_invite user req code now db) db).1 ≡ ok tt)
  unfolding create_invite
  create_invite-written user req code now db h =
      elim (Result-cases (check_create_invite is_hex user req db)) [
        | inl (u, e) ↦ (ground arith, ground arith, ground arith)
        | inr (x, e) ↦ absurd (ground arith)
      ]

  -- A code that is minted for one key, or that grants a role which amounts to a takeover, is
  -- redeemed at most once, in any sequence of attempts after it was minted, one after the other, by
  -- registration or by joining.
  pub create_invite-once :
      (user : String) (req : CreateInviteRequest) (code : String) (now : ℕ) (db : Db)
      (attempts : List Attempt)
      → (create_invite is_hex user req code now db).1 ≡ ok tt
      → (is_bound req || is_takeover req.grant_role_id db) ≡ true
      → redemptions code attempts (create_invite is_hex user req code now db).0 ≤ 1
  unfolding new_invite
  create_invite-once user req code now db attempts done h =
      let (passed, written, stored) = create_invite-written user req code now db done in
      let row : Invite = new_invite user req code now db in
      let (m, limit, one) = uses_allowed-one req db h in
      rw written (
        redemptions-once code attempts (insert_invite row db).0 row m
          (insert_invite-first row db stored) limit refl one)

  -- Who mints an invite that grants a role holds every permission that the role carries, outranks
  -- it, and may manage invites.
  pub create_invite-ceiling :
      (user : String) (req : CreateInviteRequest) (code : String) (now : ℕ) (db : Db) (id : String)
      → (create_invite is_hex user req code now db).1 ≡ ok tt
      → req.grant_role_id ≡ some id
      → (has (user_permissions db user) invites_manage ≡ true)
        × ((r : RoleRow) × (find (λ r. str_eq r.id id) db.roles ≡ some r)
            × (le_ℤ (user_permissions db user).max_priority r.priority ≡ false))
        × All (λ p. has (user_permissions db user) p ≡ true) (role_permissions db id)
  unfolding check_create_invite check_granted check_grant_role require
  create_invite-ceiling user req code now db id done e =
      let (passed, written, stored) = create_invite-written user req code now db done in
      elim (Option-cases (find (λ r. str_eq r.id id) db.roles)) [
        | inl n ↦ absurd (ground arith)
        | inr (r, n) ↦ (
          ground arith,
          (r, n, ground arith),
          require_can_grant_lem (user_permissions db user) (role_permissions db id) (ground arith),
        )
      ]

-- The second at which it expires.
abbrev pub is_now : Option ℤ → ℕ → Bool
is_now none now = false
is_now (some at) now = le_ℤ at (pos now) && le_ℤ (pos now) at

-- A redemption by a key that the code answers to, as a test.
is_ok-redeemed :
    (code : String) (candidates : List String) (now : ℕ) (db : Db) (i : Invite)
    → invite_of db code ≡ some i
    → redeemable_by i.bound_pubkey candidates ≡ true
    → is_ok (validate_and_use_invite code candidates now db).1
      ≡ (is_ok (require_current i.expires_at now) && has_uses i)
unfolding validate_and_use_invite check_invite require_invite use_invite
is_ok-redeemed code candidates now db i h k =
    elim (Result-cases (require_current i.expires_at now)) [
      | inl (u, e) ↦ elim (Bool-cases (has_uses i)) [ inl l ↦ ground arith | inr l ↦ ground arith ]
      | inr (x, e) ↦ ground arith
    ]

is_current-status :
    (o : Option ℤ) (now : ℕ)
    → is_ok (require_current o now)
      ≡ (not (elim o [ none ↦ false | some at ↦ le_ℤ at (pos now) ]) || is_now o now)
unfolding require_current
is_current-status none now = refl
is_current-status (some at) now = elim (Bool-cases (le_ℤ at (pos now))) [
  | inl e ↦ ground arith
  | inr e ↦ ground (arith, le_ℤ_total at (pos now) e)
]

abbrev is_used_up : ℤ → Option ℤ → Bool
is_used_up uses o = elim o [ none ↦ false | some max ↦ le_ℤ max uses ]

abbrev is_over : Option ℤ → ℕ → Bool
is_over o now = elim o [ none ↦ false | some at ↦ le_ℤ at (pos now) ]

is_live :
    (b c : Bool)
    → str_eq (if b then "used_up" else if c then "expired" else "live") "live" ≡ (not b && not c)
is_live true c = refl
is_live false true = refl
is_live false false = refl

invite_status_lem :
    (uses : ℤ) (max_uses expires_at : Option ℤ) (now : ℕ)
    → str_eq (invite_status uses max_uses expires_at now) "live"
      ≡ (not (is_used_up uses max_uses) && not (is_over expires_at now))
unfolding invite_status
invite_status_lem uses max_uses expires_at now =
    is_live (is_used_up uses max_uses) (is_over expires_at now)

uses_left :
    (uses : ℕ) (o : Option ℤ)
    → elim o [ none ↦ true | some m ↦ lt_ℤ (pos uses) m ] ≡ not (is_used_up (pos uses) o)
uses_left uses none = refl
uses_left uses (some m) = refl

is_expired :
    (b c : Bool)
    → str_eq (if b then "used_up" else if c then "expired" else "live") "expired" ≡ (not b && c)
is_expired true c = refl
is_expired false true = refl
is_expired false false = refl

invite_status-expired :
    (uses : ℤ) (max_uses expires_at : Option ℤ) (now : ℕ)
    → str_eq (invite_status uses max_uses expires_at now) "expired"
      ≡ (not (is_used_up uses max_uses) && is_over expires_at now)
unfolding invite_status
invite_status-expired uses max_uses expires_at now =
    is_expired (is_used_up uses max_uses) (is_over expires_at now)

is_now-over : (o : Option ℤ) (now : ℕ) → is_now o now ≡ true → is_over o now ≡ true
is_now-over none now h = cc
is_now-over (some at) now h = ground arith

-- The status that the list shows, and what redemption answers to a key that the code answers to. A
-- code is shown as live exactly when it is redeemed and this is not the second in which it expires;
-- and it is redeemed exactly when it is shown as live, or is shown as expired in that second.
pub invite_status-agrees :
    (code : String) (candidates : List String) (now : ℕ) (db : Db) (i : Invite)
    → invite_of db code ≡ some i
    → redeemable_by i.bound_pubkey candidates ≡ true
    → (str_eq (invite_status (pos i.uses) i.max_uses i.expires_at now) "live" ≡ (
        is_ok (validate_and_use_invite code candidates now db).1 && not (is_now i.expires_at now)))
      × (is_ok (validate_and_use_invite code candidates now db).1 ≡ (
          str_eq (invite_status (pos i.uses) i.max_uses i.expires_at now) "live"
          || (str_eq (invite_status (pos i.uses) i.max_uses i.expires_at now) "expired"
              && is_now i.expires_at now)))
unfolding has_uses
invite_status-agrees code candidates now db i h k =
    let live = invite_status_lem (pos i.uses) i.max_uses i.expires_at now in
    let expired = invite_status-expired (pos i.uses) i.max_uses i.expires_at now in
    let redeemed = is_ok-redeemed code candidates now db i h k in
    let current = is_current-status i.expires_at now in
    let left = uses_left i.uses i.max_uses in
    (
      ground (arith, live, redeemed, current, left, is_now-over i.expires_at now),
      ground (arith, live, expired, redeemed, current, left, is_now-over i.expires_at now),
    )
