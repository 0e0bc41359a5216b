-- ===== src/Hub/Moderation/Rank.antt =====
-- About `require_can_moderate`.
use wavvon_server.Base.{
  String, true, false, ◌≡◌, refl, List, [], ◌∷◌, inl, inr, ℤ, le_ℤ, le_ℤ_refl, le_ℤ_trans,
  le_ℤ_total, max_ℤ, arith, str_eq, any, retain, All, Bool, Bool-cases,
}
use wavvon_server.Http.{ok}
use wavvon_server.Hub.Db.{Db, RoleRow}
use wavvon_server.Hub.Permissions.Caller.{
  builtin_owner_role_id, member_role, max_priority_of, user_role_rows, user_permissions, require,
}
use wavvon_server.Hub.Permissions.Caller.Laws.{max_priority-le}
use wavvon_server.Hub.Roles.Ownership.{owner_priority, IsOwnerRanked, IsRanked}
use wavvon_server.Hub.Moderation.Bans.{require_can_moderate}

max_ℤ-left : (a b : ℤ) → le_ℤ a (max_ℤ a b) ≡ true
max_ℤ-left a b = ground (arith, le_ℤ_refl a, le_ℤ_total a b)

max_ℤ-right : (a b : ℤ) → le_ℤ b (max_ℤ a b) ≡ true
max_ℤ-right a b = ground (arith, le_ℤ_refl b, le_ℤ_total b a)

owner-max_priority_of :
    (rows : List RoleRow)
    → All IsOwnerRanked rows
    → any (λ r. str_eq r.id builtin_owner_role_id) rows ≡ true
    → le_ℤ owner_priority (max_priority_of rows) ≡ true
unfolding max_priority_of
owner-max_priority_of [] h e = cc
owner-max_priority_of (r ∷ []) h e = ground (arith, h.0)
owner-max_priority_of (r ∷ s ∷ rows) h e = ground (
  arith,
  h.0,
  max_ℤ-left r.priority (max_priority_of (s ∷ rows)),
  max_ℤ-right r.priority (max_priority_of (s ∷ rows)),
  le_ℤ_trans owner_priority (max_priority_of (s ∷ rows))
      (max_ℤ r.priority (max_priority_of (s ∷ rows))),
  owner-max_priority_of (s ∷ rows) h.1,
)

All-retain_ranked :
    (f : RoleRow → Bool) (rows : List RoleRow)
    → All IsOwnerRanked rows
    → All IsOwnerRanked (retain f rows)
All-retain_ranked f [] h = tt
All-retain_ranked f (r ∷ rows) h = elim (Bool-cases (f r)) [
  | inl e ↦ rw e (h.0, All-retain_ranked f rows h.1)
  | inr e ↦ rw e (All-retain_ranked f rows h.1)
]

-- An owner has the top priority.
owner-max_priority :
    (db : Db) (u : String)
    → IsRanked db
    → (user_permissions db u).is_owner ≡ true
    → le_ℤ owner_priority (user_permissions db u).max_priority ≡ true
unfolding user_permissions user_role_rows
owner-max_priority db u ranked e =
    owner-max_priority_of (user_role_rows db u)
      (All-retain_ranked (λ r. member_role db u r.id) db.roles ranked.owner) e

-- Who passes the guard outranks the target.
pub require_can_moderate-outranks :
    (actor target permission : String) (db : Db)
    → require_can_moderate actor target permission db ≡ ok tt
    → le_ℤ (user_permissions db actor).max_priority (user_permissions db target).max_priority
      ≡ false
unfolding require_can_moderate require
require_can_moderate-outranks actor target permission db h = ground arith

-- Where the owner role is on top, nobody may moderate an owner.
pub require_can_moderate-not_owner :
    (actor target permission : String) (db : Db)
    → IsRanked db
    → require_can_moderate actor target permission db ≡ ok tt
    → (user_permissions db target).is_owner ≡ false
require_can_moderate-not_owner actor target permission db ranked h = ground (
  arith,
  require_can_moderate-outranks actor target permission db h,
  owner-max_priority db target ranked,
  max_priority-le db actor owner_priority refl ranked.below,
  le_ℤ_trans (user_permissions db actor).max_priority owner_priority
      (user_permissions db target).max_priority,
)
