-- ===== src/Hub/Invites/Attempts.antt =====
-- Attempts to redeem a code, by both ways in, and what one does to the row of the code.
use wavvon_server.Base.{
  ℕ, ◌+◌, ◌≡◌, ◌∙◌, ◌||◌, Bool, Option, Option-cases, String, true, refl, List, [], ◌∷◌, map, some,
  arith, str_eq, find, Bool-cases, inl, inr, if◌then◌else◌,
}
use wavvon_server.Http.{ok, is_ok, Result-cases}
use wavvon_server.Hub.Db.{Db, Invite}
use wavvon_server.Hub.Invites.{
  invite_of, check_invite, has_uses, use_invite, add_use, validate_and_use_invite,
}
use wavvon_server.Hub.Roles.{insert_user_role}
use wavvon_server.Hub.Invites.Grant.{granted_role, grant_role, apply_invite_role_grant}
use wavvon_server.Hub.Invites.Join.{
  check_join, require_found, require_unused, admit_member, approve, join_with_invite,
}

abbrev used_once : Invite → Invite
used_once i = record i { uses = i.uses + 1 }

find-used :
    (code : String) (is : List Invite) (i : Invite)
    → find (λ j. str_eq j.code code) is ≡ some i
    → find (λ j. str_eq j.code code) (map (λ j. if str_eq j.code code then used_once j else j) is)
      ≡ some (used_once i)
find-used code [] i h = cc
find-used code (j ∷ is) i h = elim (Bool-cases (str_eq j.code code)) [
  | inl e ↦ ground arith
  | inr e ↦ ground (arith, find-used code is i)
]

-- An attempt to redeem a code: by who registers with one of the keys, or by who joins within a
-- session.
pub data Attempt : Type 0 where
  registers : List String → ℕ → Attempt
  joins : String → Option String → ℕ → Attempt

-- The tables behind an attempt.
unfoldable pub attempted : String → Attempt → Db → Db
unfolding validate_and_use_invite join_with_invite
attempted code (registers candidates now) db = (validate_and_use_invite code candidates now db).0
attempted code (joins user master now) db = (join_with_invite code user master now db).0

-- Whether an attempt redeems the code: a join does also where it fails behind its checks, at the
-- grant of the role, since it has admitted the member.
unfoldable pub redeems : String → Attempt → Db → Bool
unfolding validate_and_use_invite join_with_invite check_join
redeems code (registers candidates now) db =
    is_ok (validate_and_use_invite code candidates now db).1
redeems code (joins user master now) db =
    is_ok (join_with_invite code user master now db).1 || is_ok (check_join code user master now db)

apply_invite_role_grant-invites :
    (created_by : String) (o : Option String) (user : String) (now : ℕ) (db : Db)
    → (apply_invite_role_grant created_by o user now db).0.invites ≡ db.invites
unfolding apply_invite_role_grant grant_role insert_user_role
apply_invite_role_grant-invites created_by o user now db =
    elim (Option-cases (granted_role created_by o db)) [
      | inl e ↦ ground arith
      | inr (id, e) ↦ ground arith
    ]

invite_of-add_use :
    (code : String) (db : Db) (i : Invite)
    → invite_of db code ≡ some i
    → invite_of (add_use code db) code ≡ some (used_once i)
unfolding invite_of
invite_of-add_use code db i h = find-used code db.invites i h

-- What an attempt does to the row: nothing, or one use that it had left.
pub record Counted (code : String) (i : Invite) (db d : Db) (redeemed : Bool) : Type 0 where
  pub row : Invite
  pub found : invite_of d code ≡ some row
  pub limit : row.max_uses ≡ i.max_uses
  pub left : (redeemed ≡ true) → has_uses i ≡ true
  pub used : row.uses ≡ (if redeemed then i.uses + 1 else i.uses)

register-Counted :
    (code : String) (candidates : List String) (now : ℕ) (db : Db) (i : Invite)
    → invite_of db code ≡ some i
    → Counted code i db
        (validate_and_use_invite code candidates now db).0
        (is_ok (validate_and_use_invite code candidates now db).1)
unfolding validate_and_use_invite use_invite
register-Counted code candidates now db i h =
    elim (Result-cases (check_invite code candidates now db)) [
      | inr (x, e) ↦
          rw (e, validate_and_use_invite)
            (record { row = i; found = h; limit = refl; left = λ k. cc; used = refl })
      | inl (a, e) ↦ elim (Bool-cases (has_uses i)) [
        | inl l ↦
            rw (e, h, l, validate_and_use_invite, use_invite)
              (record {
                row = used_once i;
                found = invite_of-add_use code db i h;
                limit = refl;
                left = λ k. l;
                used = refl;
              })
        | inr l ↦
            rw (e, h, l, validate_and_use_invite, use_invite)
              (record { row = i; found = h; limit = refl; left = λ k. cc; used = refl })
      ]
    ]

check_join-has_uses :
    (code user : String) (master : Option String) (now : ℕ) (db : Db) (i a : Invite)
    → invite_of db code ≡ some i
    → check_join code user master now db ≡ ok a
    → (a ≡ i) × (has_uses i ≡ true)
unfolding check_join require_found require_unused has_uses
check_join-has_uses code user master now db i a h e = elim (Option-cases i.max_uses) [
  | inl m ↦ (ground arith, ground arith)
  | inr (m, k) ↦ (ground arith, ground arith)
]

invite_of-same :
    (code : String) (db d : Db) → d.invites ≡ db.invites → invite_of d code ≡ invite_of db code
unfolding invite_of
invite_of-same code db d e = rw e refl

join-Counted :
    (code user : String) (master : Option String) (now : ℕ) (db : Db) (i : Invite)
    → invite_of db code ≡ some i
    → Counted code i db (join_with_invite code user master now db).0 (
        is_ok (join_with_invite code user master now db).1
        || is_ok (check_join code user master now db))
unfolding join_with_invite admit_member approve
join-Counted code user master now db i h =
    elim (Result-cases (check_join code user master now db)) [
      | inr (x, e) ↦
          rw (e, join_with_invite)
            (record { row = i; found = h; limit = refl; left = λ k. cc; used = refl })
      | inl (a, e) ↦
          let (same, l) = check_join-has_uses code user master now db i a h e in
          rw (e, join_with_invite)
            (record {
              row = used_once i;
              found =
                  invite_of-same code (add_use code db)
                    (apply_invite_role_grant a.created_by a.grant_role_id user now
                      (approve user (add_use code (admit_member user db)))).0
                    (apply_invite_role_grant-invites a.created_by a.grant_role_id user now
                      (approve user (add_use code (admit_member user db))))
                  ∙ invite_of-add_use code db i h;
              limit = refl;
              left = λ k. l;
              used = ground arith;
            })
    ]

pub attempted-Counted :
    (code : String) (a : Attempt) (db : Db) (i : Invite)
    → invite_of db code ≡ some i
    → Counted code i db (attempted code a db) (redeems code a db)
unfolding attempted redeems
attempted-Counted code (registers candidates now) db i h =
    register-Counted code candidates now db i h
attempted-Counted code (joins user master now) db i h = join-Counted code user master now db i h
