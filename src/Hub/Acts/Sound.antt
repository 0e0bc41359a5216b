-- ===== src/Hub/Acts/Sound.antt =====
-- What every hub is to be: the owner role is there and on top, somebody holds it, and the tables
-- keep their keys and references.
use wavvon_server.Base.{
  ◌≤◌, String, Bool, true, false, not, ◌&&◌, ◌≡◌, refl, List, [], ◌∷◌, arith, str_eq, any, retain,
  length, All, inl, inr, Bool-cases,
}
use wavvon_server.Hub.Db.{Db, UserRole}
use wavvon_server.Hub.Permissions.Caller.{builtin_owner_role_id, member_role, user_permissions}
use wavvon_server.Hub.Permissions.Caller.Laws.{is_owner-user_permissions}
use wavvon_server.Hub.Roles.Ownership.{IsRanked, UniquePairs}
use wavvon_server.Hub.Roles.Checks.{owner_count}
use wavvon_server.Hub.Roles.Escalation.Create.{HasGranters}
use wavvon_server.Hub.Acts.Keep.{IsSameRights}

pub record IsSound (db : Db) : Type 0 where
  pub ranked : IsRanked db
  -- The owner role exists.
  pub present : any (λ r. str_eq r.id builtin_owner_role_id) db.roles ≡ true
  pub unique : UniquePairs db.user_roles
  -- Somebody holds it.
  pub owned : 1 ≤ owner_count db
  pub granters : HasGranters db

pub IsSound-same : (db d : Db) → IsSameRights db d → IsSound db → IsSound d
unfolding owner_count
IsSound-same db d h s = record {
  ranked = record { below = rw h.roles s.ranked.below; owner = rw h.roles s.ranked.owner };
  present = rw h.roles s.present;
  unique = rw h.user_roles s.unique;
  owned = rw h.user_roles s.owned;
  granters = rw (h.roles, h.role_permissions) s.granters;
}

any-false-retain {ℓ} :
    {A : Type ℓ} (f g : A → Bool) (xs : List A) → any f xs ≡ false → any f (retain g xs) ≡ false
any-false-retain f g [] h = refl
any-false-retain f g (x ∷ xs) h = ground (arith, any-false-retain f g xs)

pub UniquePairs-retain :
    (g : UserRole → Bool) (rs : List UserRole) → UniquePairs rs → UniquePairs (retain g rs)
UniquePairs-retain g [] h = tt
UniquePairs-retain g (r ∷ rs) h = elim (Bool-cases (g r)) [
  | inl e ↦ rw e (
    any-false-retain (λ s. str_eq s.user_public_key r.user_public_key && str_eq s.role_id r.role_id)
        g rs h.0,
    UniquePairs-retain g rs h.1,
  )
  | inr e ↦ rw e (UniquePairs-retain g rs h.1)
]

pub All-retain {ℓ κ} :
    {A : Type ℓ} (P : A → Type κ) (f : A → Bool) (xs : List A) → All P xs → All P (retain f xs)
All-retain P f [] h = tt
All-retain P f (x ∷ xs) h = elim (Bool-cases (f x)) [
  | inl e ↦ rw e (h.0, All-retain P f xs h.1)
  | inr e ↦ rw e (All-retain P f xs h.1)
]

-- A deletion that spares the rows of the owner role leaves the owners.
pub owners-retain :
    (g : UserRole → Bool) (rs : List UserRole)
    → any (λ r. str_eq r.role_id builtin_owner_role_id && not (g r)) rs ≡ false
    → length (retain (λ r. str_eq r.role_id builtin_owner_role_id) (retain g rs))
      ≡ length (retain (λ r. str_eq r.role_id builtin_owner_role_id) rs)
owners-retain g [] h = refl
owners-retain g (r ∷ rs) h = ground (arith, owners-retain g rs)

-- Who is no owner has no row of the owner role.
pub no_owner_row :
    (db : Db) (u : String)
    → any (λ r. str_eq r.id builtin_owner_role_id) db.roles ≡ true
    → (user_permissions db u).is_owner ≡ false
    → any (λ r. str_eq r.user_public_key u && str_eq r.role_id builtin_owner_role_id) db.user_roles
      ≡ false
unfolding member_role
no_owner_row db u here h = ground (arith, is_owner-user_permissions db u)
