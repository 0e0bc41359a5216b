-- ===== src/Hub/Acts/Loss.antt =====
-- About the statements that take roles away.
use wavvon_server.Base.{
  String, Bool, true, false, not, ◌&&◌, ◌≡◌, refl, ◌∙◌, sym, List, [], ◌∷◌, map, arith, str_eq,
  eq_iff, any, retain, All, le_ℤ, if◌then◌else◌,
}
use wavvon_server.Hub.Db.{Db, RoleRow, RolePermission, UserRole, UserRow}
use wavvon_server.Hub.Permissions.Caller.{builtin_owner_role_id, member_role, user_permissions}
use wavvon_server.Hub.Permissions.Caller.Laws.{any-by_id}
use wavvon_server.Hub.Roles.Checks.{owner_count}
use wavvon_server.Hub.Roles.Ownership.{owner_priority, IsOwnerRanked}
use wavvon_server.Hub.Roles.Escalation.Update.{carries}
use wavvon_server.Hub.Roles.{erase_role, delete_user_role}
use wavvon_server.Hub.Moderation.Bans.{end_membership}
use wavvon_server.Hub.Acts.Keep.{IsSameRights}
use wavvon_server.Hub.Acts.Sound.{
  IsSound, UniquePairs-retain, All-retain, owners-retain, no_owner_row,
}

-- Nobody has in `d` a role, and no role a grant, that it had not in `db`.
pub record IsLess (db d : Db) : Type 0 where
  pub roles :
      (id : String)
      → any (λ r. str_eq r.id id) d.roles ≡ true
      → any (λ r. str_eq r.id id) db.roles ≡ true
  pub members : (u id : String) → member_role d u id ≡ true → member_role db u id ≡ true
  pub carried : (id p : String) → carries d id p ≡ true → carries db id p ≡ true

pub IsLess-same : (db d : Db) → IsSameRights db d → IsLess db d
unfolding member_role
IsLess-same db d h = record {
  roles = λ id e. ground (arith, h.roles);
  members = λ u id e. ground (arith, h.user_roles, h.users);
  carried = λ id p e. ground (arith, h.role_permissions);
}

any-true-retain {ℓ} :
    {A : Type ℓ} (f g : A → Bool) (xs : List A) → any f (retain g xs) ≡ true → any f xs ≡ true
any-true-retain f g [] h = cc
any-true-retain f g (x ∷ xs) h = ground (arith, any-true-retain f g xs)

any-ended :
    (target u : String) (rows : List UserRow)
    → any
        (λ m. str_eq m.public_key u && m.is_member)
        (map (λ m. if str_eq m.public_key target then record m { is_member = false } else m) rows)
      ≡ true
    → any (λ m. str_eq m.public_key u && m.is_member) rows ≡ true
any-ended target u [] h = cc
any-ended target u (m ∷ rows) h = ground (arith, any-ended target u rows)

pub end_membership-IsLess : (target : String) (db : Db) → IsLess db (end_membership target db)
unfolding end_membership member_role
end_membership-IsLess target db = record {
  roles = λ id e. e;
  members = λ u id e. ground (
    arith,
    any-true-retain (λ r. str_eq r.user_public_key u && str_eq r.role_id id)
        (λ r. not (str_eq r.user_public_key target)) db.user_roles,
    any-ended target u db.users,
  );
  carried = λ id p e. e;
}

pub delete_user_role-IsLess :
    (key role_id : String) (db : Db) → IsLess db (delete_user_role key role_id db)
unfolding delete_user_role member_role
delete_user_role-IsLess key role_id db = record {
  roles = λ id e. e;
  members = λ u id e. ground (
    arith,
    any-true-retain (λ r. str_eq r.user_public_key u && str_eq r.role_id id)
        (λ r. not (str_eq r.user_public_key key && str_eq r.role_id role_id)) db.user_roles,
  );
  carried = λ id p e. e;
}

pub erase_role-IsLess : (role_id : String) (db : Db) → IsLess db (erase_role role_id db)
unfolding erase_role member_role
erase_role-IsLess role_id db = record {
  roles = λ id. any-true-retain (λ r. str_eq r.id id) (λ r. not (str_eq r.id role_id)) db.roles;
  members = λ u id e. ground (
    arith,
    any-true-retain (λ r. str_eq r.user_public_key u && str_eq r.role_id id)
        (λ r. not (str_eq r.role_id role_id)) db.user_roles,
  );
  carried = λ id p.
      any-true-retain (λ g. str_eq g.role_id id && str_eq g.permission p)
        (λ g. not (str_eq g.role_id role_id)) db.role_permissions;
}

-- The owners of a hub are out of the reach of a ban and of a kick.
any-owner_rows :
    (target : String) (rows : List UserRole)
    → any (λ r. str_eq r.user_public_key target && str_eq r.role_id builtin_owner_role_id) rows
      ≡ any
          (λ r.
            str_eq r.role_id builtin_owner_role_id && not (not (str_eq r.user_public_key target)))
          rows
any-owner_rows target [] = refl
any-owner_rows target (r ∷ rows) = ground (arith, any-owner_rows target rows)

pub end_membership-IsSound :
    (target : String) (db : Db)
    → IsSound db
    → (user_permissions db target).is_owner ≡ false
    → IsSound (end_membership target db)
unfolding end_membership owner_count
end_membership-IsSound target db s h = record {
  ranked = record { below = s.ranked.below; owner = s.ranked.owner };
  present = s.present;
  unique = UniquePairs-retain (λ r. not (str_eq r.user_public_key target)) db.user_roles s.unique;
  owned =
      rw
        (owners-retain (λ r. not (str_eq r.user_public_key target)) db.user_roles
          (sym (any-owner_rows target db.user_roles) ∙ no_owner_row db target s.present h))
        s.owned;
  granters = s.granters;
}

any-other_rows :
    (role_id : String) (rows : List UserRole)
    → str_eq role_id builtin_owner_role_id ≡ false
    → any (λ r. str_eq r.role_id builtin_owner_role_id && not (not (str_eq r.role_id role_id))) rows
      ≡ false
any-other_rows role_id [] h = refl
any-other_rows role_id (r ∷ rows) h =
    ground (arith, eq_iff r.role_id role_id, any-other_rows role_id rows h)

All-erased :
    (role_id : String) (rows : List RoleRow) (gs : List RolePermission)
    → All (λ g. any (λ r. str_eq r.id g.role_id) rows ≡ true) gs
    → All
        (λ g.
          any (λ r. str_eq r.id g.role_id) (retain (λ r. not (str_eq r.id role_id)) rows) ≡ true)
        (retain (λ g. not (str_eq g.role_id role_id)) gs)
All-erased role_id rows [] h = tt
All-erased role_id rows (g ∷ gs) h = ground (
  arith,
  any-by_id (λ id. not (str_eq id role_id)) rows g.role_id,
  All-erased role_id rows gs h.1,
)

pub erase_role-IsSound :
    (role_id : String) (db : Db)
    → IsSound db
    → str_eq role_id builtin_owner_role_id ≡ false
    → IsSound (erase_role role_id db)
unfolding erase_role owner_count
erase_role-IsSound role_id db s h = record {
  ranked = record {
    below =
        All-retain (λ r. le_ℤ r.priority owner_priority ≡ true) (λ r. not (str_eq r.id role_id))
          db.roles s.ranked.below;
    owner = All-retain IsOwnerRanked (λ r. not (str_eq r.id role_id)) db.roles s.ranked.owner;
  };
  present = ground (
    arith,
    any-by_id (λ id. not (str_eq id role_id)) db.roles builtin_owner_role_id,
    eq_iff builtin_owner_role_id role_id,
    eq_iff role_id builtin_owner_role_id,
    s.present,
  );
  unique = UniquePairs-retain (λ r. not (str_eq r.role_id role_id)) db.user_roles s.unique;
  owned =
      rw
        (owners-retain (λ r. not (str_eq r.role_id role_id)) db.user_roles
          (any-other_rows role_id db.user_roles h))
        s.owned;
  granters = All-erased role_id db.roles db.role_permissions s.granters;
}
