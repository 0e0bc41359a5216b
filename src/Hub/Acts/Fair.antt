-- ===== src/Hub/Acts/Fair.antt =====
-- About what one request may do to a sound hub.
use wavvon_server.Base.{
  ℕ, ap, String, Bool, true, false, ◌&&◌, ◌||◌, ◌≡◌, ◌∙◌, sym, List, [], ◌∷◌, arith, str_eq, any,
  contains,
}
use wavvon_server.Hub.Db.{Db, RolePermission}
use wavvon_server.Hub.Permissions.Caller.{has, user_permissions, builtin_owner_role_id}
use wavvon_server.Hub.Permissions.Caller.Laws.{
  holds_role, contains-user_permissions, is_owner-user_permissions,
}
use wavvon_server.Hub.Roles.Ownership.{assign_role-same_owners}
use wavvon_server.Hub.Roles.Escalation.{assign_role-no_escalation}
use wavvon_server.Hub.Roles.Escalation.Update.{
  any-carried, update_role-IsBounded, update_role-no_escalation, holds_role-IsBounded,
}
use wavvon_server.Hub.Roles.Escalation.Create.{create_role-IsExtended, create_role-no_escalation}
use wavvon_server.Hub.Roles.Checks.{CreateRoleRequest, UpdateRoleRequest}
use wavvon_server.Hub.Roles.{create_role, update_role, assign_role}
use wavvon_server.Hub.Acts.Keep.{IsSameRights}
use wavvon_server.Hub.Acts.Sound.{IsSound}
use wavvon_server.Hub.Acts.Gain.{create_role-IsSound, update_role-IsSound, assign_role-IsSound}
use wavvon_server.Hub.Acts.Loss.{IsLess}
use wavvon_server.Hub.Acts.Taken.{IsTaken, IsTaken-same}

-- A sound hub with no new owner, in which a permission that someone holds they held before, or the
-- actor did.
pub record IsFair (actor : String) (db d : Db) : Type 0 where
  pub sound : IsSound d
  pub owners :
      (u : String)
      → (user_permissions d u).is_owner ≡ true
      → (user_permissions db u).is_owner ≡ true
  pub gain :
      (u p : String)
      → contains (user_permissions d u).effective p ≡ true
      → (contains (user_permissions db u).effective p || has (user_permissions db actor) p) ≡ true

any-held :
    (f g : String → Bool) (p : String) (gs : List RolePermission)
    → ((id : String) → f id ≡ true → g id ≡ true)
    → any (λ r. f r.role_id && str_eq r.permission p) gs ≡ true
    → any (λ r. g r.role_id && str_eq r.permission p) gs ≡ true
any-held f g p [] h e = cc
any-held f g p (r ∷ gs) h e = ground (arith, h r.role_id, any-held f g p gs h)

holds_role-IsLess :
    (db d : Db) (u id : String) → IsLess db d → holds_role d u id ≡ true → holds_role db u id ≡ true
holds_role-IsLess db d u id h e = ground (arith, h.roles id, h.members u id)

gain-IsLess :
    (db d : Db) (u p : String)
    → IsLess db d
    → contains (user_permissions d u).effective p ≡ true
    → contains (user_permissions db u).effective p ≡ true
gain-IsLess db d u p h e = ground (
  arith,
  contains-user_permissions db u p,
  any-held (holds_role d u) (holds_role db u) p db.role_permissions
      (λ id. holds_role-IsLess db d u id h),
  any-carried (holds_role d u) p false d.role_permissions db.role_permissions
      (λ id k. ground (arith, h.carried id p)) (sym (contains-user_permissions d u p) ∙ e),
)

pub IsFair-taken : (actor : String) (db d : Db) → IsTaken db d → IsFair actor db d
IsFair-taken actor db d h = record {
  sound = h.sound;
  owners = λ u e. ground (
    arith,
    is_owner-user_permissions d u,
    is_owner-user_permissions db u,
    holds_role-IsLess db d u builtin_owner_role_id h.less,
  );
  gain = λ u p e. ground (arith, gain-IsLess db d u p h.less e);
}

pub IsFair-same : (actor : String) (db d : Db) → IsSound db → IsSameRights db d → IsFair actor db d
IsFair-same actor db d s h = IsFair-taken actor db d (IsTaken-same db d h s)

pub assign_role-IsFair :
    (actor key id : String) (now : ℕ) (db : Db)
    → IsSound db
    → IsFair actor db (assign_role actor key id now db).0
assign_role-IsFair actor key id now db s = record {
  sound = assign_role-IsSound actor key id now db s;
  owners = λ u e. sym (assign_role-same_owners actor key id now db u s.ranked) ∙ e;
  gain = λ u p. assign_role-no_escalation actor key id now db u p;
}

pub update_role-IsFair :
    (actor id : String) (req : UpdateRoleRequest) (db : Db)
    → IsSound db
    → IsFair actor db (update_role actor id req db).0
update_role-IsFair actor id req db s =
    let d : Db = (update_role actor id req db).0 in
    record {
      sound = update_role-IsSound actor id req db s;
      owners = λ u e. ground (
        arith,
        is_owner-user_permissions d u,
        is_owner-user_permissions db u,
        ap (λ h. h builtin_owner_role_id)
            (holds_role-IsBounded db (user_permissions db actor) "" d u
              (update_role-IsBounded actor id req db "")),
      );
      gain = λ u p. update_role-no_escalation actor id req db u p;
    }

pub create_role-IsFair :
    (actor : String) (req : CreateRoleRequest) (id : String) (now : ℕ) (db : Db)
    → IsSound db
    → IsFair actor db (create_role actor req id now db).0
create_role-IsFair actor req id now db s =
    let d : Db = (create_role actor req id now db).0 in
    record {
      sound = create_role-IsSound actor req id now db s;
      owners = λ u e. ground (
        arith,
        is_owner-user_permissions d u,
        is_owner-user_permissions db u,
        s.present,
        (create_role-IsExtended actor req id now db "").members u builtin_owner_role_id,
      );
      gain = λ u p. create_role-no_escalation actor req id now db u p s.granters;
    }
