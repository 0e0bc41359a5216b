-- ===== src/Hub/Acts/Taken.antt =====
-- About `delete_role`, `remove_role`, `ban_user` and `kick_user`.
use wavvon_server.Base.{ℕ, String, false, ◌≡◌, refl, ◌∙◌, ap, arith, str_eq, not, ◌&&◌}
use wavvon_server.Http.{ok}
use wavvon_server.Hub.Db.{Db, Sanction, execute, query_then, then_goes_on, query, ◌>>◌}
use wavvon_server.Hub.Permissions.Catalogue.{moderation_kick}
use wavvon_server.Hub.Permissions.Caller.{builtin_owner_role_id, member_role, user_permissions}
use wavvon_server.Hub.Permissions.Caller.Laws.{user_permissions-same}
use wavvon_server.Hub.Roles.Checks.{check_delete, check_remove, require_not_builtin}
use wavvon_server.Hub.Roles.Ownership.{delete_user_role-keeps_owner}
use wavvon_server.Hub.Roles.{delete_role, erase_role, remove_role, delete_user_role}
use wavvon_server.Hub.BanEvasion.{flag_banned}
use wavvon_server.Hub.Moderation.Bans.{
  BanRequest, require_can_moderate, ban_permission, check_duration, insert_ban, ban_user, kick_user,
  expel, end_membership, delete_sessions, ban_expiry,
}
use wavvon_server.Hub.Moderation.Rank.{require_can_moderate-not_owner}
use wavvon_server.Hub.Acts.Keep.{IsSameRights}
use wavvon_server.Hub.Acts.Sound.{IsSound, IsSound-same, UniquePairs-retain}
use wavvon_server.Hub.Acts.Loss.{
  IsLess, IsLess-same, end_membership-IsLess, end_membership-IsSound, delete_user_role-IsLess,
  erase_role-IsLess, erase_role-IsSound,
}

-- A sound hub that gave nobody anything.
pub record IsTaken (db d : Db) : Type 0 where
  pub sound : IsSound d
  pub less : IsLess db d

pub IsTaken-same : (db d : Db) → IsSameRights db d → IsSound db → IsTaken db d
IsTaken-same db d h s = record { sound = IsSound-same db d h s; less = IsLess-same db d h }

IsTaken-refl : (db : Db) → IsSound db → IsTaken db db
IsTaken-refl db s =
    IsTaken-same db db
      (record { roles = refl; role_permissions = refl; user_roles = refl; users = refl }) s

check_delete-not_owner :
    (user role_id : String) (db : Db)
    → check_delete user role_id db ≡ ok tt
    → str_eq role_id builtin_owner_role_id ≡ false
unfolding check_delete require_not_builtin
check_delete-not_owner user role_id db h = ground arith

pub delete_role-IsTaken :
    (user role_id : String) (db : Db) → IsSound db → IsTaken db (delete_role user role_id db).0
unfolding delete_role
delete_role-IsTaken user role_id db s =
    query_then (IsTaken db) (check_delete user role_id) (execute (erase_role role_id)) db
      (IsTaken-refl db s)
      λ passed. record {
        sound = erase_role-IsSound role_id db s (check_delete-not_owner user role_id db passed);
        less = erase_role-IsLess role_id db;
      }

delete_user_role-IsSound :
    (user key role_id : String) (db : Db)
    → IsSound db
    → check_remove user role_id db ≡ ok tt
    → IsSound (delete_user_role key role_id db)
unfolding delete_user_role
delete_user_role-IsSound user key role_id db s passed = record {
  ranked = record { below = s.ranked.below; owner = s.ranked.owner };
  present = s.present;
  unique =
      UniquePairs-retain (λ r. not (str_eq r.user_public_key key && str_eq r.role_id role_id))
        db.user_roles s.unique;
  owned = delete_user_role-keeps_owner user key role_id db s.unique s.owned passed;
  granters = s.granters;
}

pub remove_role-IsTaken :
    (user key role_id : String) (db : Db)
    → IsSound db
    → IsTaken db (remove_role user key role_id db).0
unfolding remove_role
remove_role-IsTaken user key role_id db s =
    query_then (IsTaken db) (check_remove user role_id) (execute (delete_user_role key role_id)) db
      (IsTaken-refl db s)
      λ passed. record {
        sound = delete_user_role-IsSound user key role_id db s passed;
        less = delete_user_role-IsLess key role_id db;
      }

IsLess-trans : (a b c : Db) → IsLess a b → IsLess b c → IsLess a c
IsLess-trans a b c h k = record {
  roles = λ id e. h.roles id (k.roles id e);
  members = λ u id e. h.members u id (k.members u id e);
  carried = λ id p e. h.carried id p (k.carried id p e);
}

is_owner-same :
    (db d : Db) (u : String)
    → IsSameRights db d
    → (user_permissions d u).is_owner ≡ (user_permissions db u).is_owner
unfolding member_role
is_owner-same db d u h =
    ap (λ c. c.is_owner)
      (user_permissions-same d db u h.roles h.role_permissions
        (λ id. rw (h.user_roles, h.users) refl))

-- The target of an act that passes the guard is no owner.
expelled :
    (target : String) (db d : Db)
    → IsSameRights db d
    → IsSound db
    → (user_permissions db target).is_owner ≡ false
    → IsTaken db (end_membership target d)
expelled target db d h s e = record {
  sound = end_membership-IsSound target d (IsSound-same db d h s) (is_owner-same db d target h ∙ e);
  less =
      IsLess-trans db d (end_membership target d) (IsLess-same db d h)
        (end_membership-IsLess target d);
}

pub kick_user-IsTaken :
    (user target : String) (db : Db) → IsSound db → IsTaken db (kick_user user target db).0
unfolding kick_user delete_sessions
kick_user-IsTaken user target db s =
    query_then (IsTaken db) (require_can_moderate user target moderation_kick)
      (execute (delete_sessions target) >> execute (end_membership target)) db (IsTaken-refl db s)
      λ passed.
        expelled target db _
          (record { roles = refl; role_permissions = refl; user_roles = refl; users = refl }) s
          (require_can_moderate-not_owner user target moderation_kick db s.ranked passed)

insert_ban-same : (row : Sanction) (db : Db) → IsSameRights db (insert_ban row db).0
unfolding insert_ban
insert_ban-same row db = ground arith

expel-IsTaken :
    (req : BanRequest) (now : ℕ) (db d : Db)
    → IsSameRights db d
    → IsSound db
    → (user_permissions db req.target_public_key).is_owner ≡ false
    → IsTaken db (expel req now d)
unfolding expel delete_sessions flag_banned
expel-IsTaken req now db d h s e =
    expelled req.target_public_key db _
      (record {
        roles = h.roles;
        role_permissions = h.role_permissions;
        user_roles = h.user_roles;
        users = h.users;
      })
      s e

pub ban_user-IsTaken :
    (user : String) (req : BanRequest) (now : ℕ) (db : Db)
    → IsSound db
    → IsTaken db (ban_user user req now db).0
unfolding ban_user
ban_user-IsTaken user req now db s =
    let row : Sanction = record {
      target_public_key = req.target_public_key;
      issued_by = user;
      reason = req.reason;
      expires_at = ban_expiry req now;
      created_at = now;
    } in
    let written = insert_ban row >> execute (expel req now) in
    query_then (IsTaken db) (require_can_moderate user req.target_public_key (ban_permission req))
      (query (check_duration req) >> written) db (IsTaken-refl db s)
      λ passed. query_then (IsTaken db) (check_duration req) written db (IsTaken-refl db s) λ _.
        then_goes_on (IsTaken db) (insert_ban row) (execute (expel req now)) db
          (IsTaken-same db _ (insert_ban-same row db) s)
          λ _. expel-IsTaken req now db _ (insert_ban-same row db) s (
            require_can_moderate-not_owner user req.target_public_key (ban_permission req) db
              s.ranked passed)
