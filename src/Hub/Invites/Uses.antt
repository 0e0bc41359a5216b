-- ===== src/Hub/Invites/Uses.antt =====
-- About how often an invite is redeemed, by both ways in.
use wavvon_server.Base.{
  ℕ, ◌+◌, ◌≤◌, ◌≡◌, ◌∙◌, ap, Option-cases, String, true, false, refl, List, [], ◌∷◌, some, arith, ℤ,
  pos, negsuc, le_ℤ, Bool-cases, inl, inr, if◌then◌else◌,
}
use wavvon_server.Http.{ok}
use wavvon_server.Hub.Db.{Db, Invite}
use wavvon_server.Hub.Invites.{
  redeemable_by, require_current, require_invite, invite_of, check_invite, has_uses, use_invite,
  validate_and_use_invite,
}
use wavvon_server.Hub.Invites.Attempts.{Attempt, attempted, redeems, attempted-Counted}

-- Attempts with one code, one after the other: how many redeem it.
unfoldable pub redemptions : String → List Attempt → Db → ℕ
unfolding redeems attempted
redemptions code [] db = 0
redemptions code (a ∷ later) db =
    let rest = redemptions code later (attempted code a db) in
    if redeems code a db then 1 + rest else rest

-- An invite with a limit that its uses have not passed is redeemed at most as often as it has
-- uses left, in any sequence of attempts, one after the other, by registration or by joining.
pub redemptions-bounded :
    (code : String) (attempts : List Attempt) (db : Db) (i : Invite) (m : ℕ)
    → invite_of db code ≡ some i
    → i.max_uses ≡ some (pos m)
    → i.uses ≤ m
    → i.uses + redemptions code attempts db ≤ m
unfolding redemptions has_uses
redemptions-bounded code [] db i m h k b = omega arith
redemptions-bounded code (a ∷ later) db i m h k b =
    let c = attempted-Counted code a db i h in
    elim (Bool-cases (redeems code a db)) [
      | inl e ↦
          let within : i.uses + 1 ≤ m = fits (c.left e) in
          let row : c.row.uses ≡ i.uses + 1 =
            c.used ∙ ap (λ r. if r then i.uses + 1 else i.uses) e in
          let bound =
            redemptions-bounded code later (attempted code a db) c.row m c.found (c.limit ∙ k)
              (omega (arith, within, row)) in
          rw e (omega (arith, bound, row))
      | inr e ↦
          let row : c.row.uses ≡ i.uses = c.used ∙ ap (λ r. if r then i.uses + 1 else i.uses) e in
          let bound =
            redemptions-bounded code later (attempted code a db) c.row m c.found (c.limit ∙ k)
              (omega (arith, b, row)) in
          rw e (omega (arith, bound, row))
    ]
  where
    fits : has_uses i ≡ true → i.uses + 1 ≤ m
    fits l = ground arith

has_uses-same : (j i : Invite) → j.max_uses ≡ i.max_uses → j.uses ≡ i.uses → has_uses j ≡ has_uses i
unfolding has_uses
has_uses-same j i e u = elim (Option-cases i.max_uses) [
  | inl n ↦ rw (e, n) refl
  | inr (m, n) ↦ rw (e, n, u) refl
]

-- An invite without uses left is not redeemed.
redemptions-exhausted :
    (code : String) (attempts : List Attempt) (db : Db) (i : Invite)
    → invite_of db code ≡ some i
    → has_uses i ≡ false
    → redemptions code attempts db ≡ 0
unfolding redemptions has_uses
redemptions-exhausted code [] db i h k = refl
redemptions-exhausted code (a ∷ later) db i h k =
    let c = attempted-Counted code a db i h in
    elim (Bool-cases (redeems code a db)) [
      | inl e ↦ absurd (ground (arith, c.left e))
      | inr e ↦
          let row : c.row.uses ≡ i.uses = c.used ∙ ap (λ r. if r then i.uses + 1 else i.uses) e in
          rw e (
            redemptions-exhausted code later (attempted code a db) c.row c.found
              (has_uses-same c.row i c.limit row ∙ k))
    ]

-- An unused invite with a limit of at most one is redeemed at most once.
pub redemptions-once :
    (code : String) (attempts : List Attempt) (db : Db) (i : Invite) (m : ℤ)
    → invite_of db code ≡ some i
    → i.max_uses ≡ some m
    → i.uses ≡ 0
    → le_ℤ m (pos 1) ≡ true
    → redemptions code attempts db ≤ 1
unfolding has_uses
redemptions-once code attempts db i (pos m) h k u l =
    omega (arith, redemptions-bounded code attempts db i m h k (ground arith), one m l)
  where
    one : (m : ℕ) → le_ℤ (pos m) (pos 1) ≡ true → m ≤ 1
    one m l = ground arith
redemptions-once code attempts db i (negsuc m) h k u l =
    omega (arith, redemptions-exhausted code attempts db i h (ground arith))

-- An invite that has not expired, answers to one of the keys and has a use left is redeemed: the
-- answer names its minter and its role.
validate_and_use_invite-redeems :
    (code : String) (candidates : List String) (now : ℕ) (db : Db) (i : Invite)
    → invite_of db code ≡ some i
    → require_current i.expires_at now ≡ ok tt
    → redeemable_by i.bound_pubkey candidates ≡ true
    → has_uses i ≡ true
    → (validate_and_use_invite code candidates now db).1
      ≡ ok (record { created_by = i.created_by; grant_role_id = i.grant_role_id })
unfolding validate_and_use_invite check_invite require_invite use_invite
validate_and_use_invite-redeems code candidates now db i h c r u = ground arith
