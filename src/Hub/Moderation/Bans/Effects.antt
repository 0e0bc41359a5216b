-- ===== src/Hub/Moderation/Bans/Effects.antt =====
-- What the handlers of crates/hub/src/routes/moderation/bans.rs do to the target and to the others.
use wavvon_server.Base.{
  ℕ, ◌+◌, ◌^◌, ◌<◌, String, Bool, true, false, not, ◌&&◌, ◌≡◌, refl, ◌∙◌, List, [], ◌∷◌, map,
  Option, none, some, arith, as_i64-small, as_i64, str_eq, eq_iff, str_eq_refl, ltb, any, retain,
  if◌then◌else◌,
}
use wavvon_server.Http.{ok}
use wavvon_server.Hub.Db.{Db, UserRole, UserRow, Session, Sanction}
use wavvon_server.Hub.Permissions.Caller.{member_role, user_role_rows, user_permissions}
use wavvon_server.Hub.Permissions.Caller.Laws.{user_permissions-same}
use wavvon_server.Hub.Moderation.{is_active, is_sanctioned, is_banned}
use wavvon_server.Hub.BanEvasion.{flag_banned}
use wavvon_server.Hub.Moderation.Bans.{
  BanRequest, ban_expiry, insert_ban, upsert_sanction, expel, ban_user, end_membership,
  delete_sessions,
}

-- A sanction of `secs` seconds, or a permanent one, that was issued at `now` is in force at `t`.
abbrev pub lasts : Option ℕ → ℕ → ℕ → Bool
lasts none now t = true
lasts (some secs) now t = ltb t (now + secs)

-- The end is a time that an `i64` holds.
abbrev pub IsInRange : Option ℕ → ℕ → Type 0
IsInRange none now = Unit
IsInRange (some secs) now = now + secs < 2 ^ 63

any-upserted :
    (target : String) (t : ℕ) (rows : List Sanction)
    → any
        (λ s. str_eq s.target_public_key target && is_active t s.expires_at)
        (retain (λ s. not (str_eq s.target_public_key target)) rows)
      ≡ false
any-upserted target t [] = refl
any-upserted target t (s ∷ rows) = ground (arith, any-upserted target t rows)

-- Who has just been sanctioned is so exactly while that sanction is active.
is_sanctioned-upsert_sanction :
    (row : Sanction) (rows : List Sanction) (t : ℕ)
    → is_sanctioned (upsert_sanction row rows) row.target_public_key t ≡ is_active t row.expires_at
unfolding is_sanctioned upsert_sanction
is_sanctioned-upsert_sanction row rows t =
    ground (arith, str_eq_refl row.target_public_key, any-upserted row.target_public_key t rows)

is_active-lasts :
    (o : Option ℕ) (now t : ℕ)
    → IsInRange o now
    → is_active t (elim o [ none ↦ none | some secs ↦ some (as_i64 (now + secs)) ]) ≡ lasts o now t
unfolding is_active
is_active-lasts none now t h = refl
is_active-lasts (some secs) now t h = rw (as_i64-small (now + secs) h) (ground arith)

any-ended_roles :
    (target role_id : String) (rows : List UserRole)
    → any
        (λ r. str_eq r.user_public_key target && str_eq r.role_id role_id)
        (retain (λ r. not (str_eq r.user_public_key target)) rows)
      ≡ false
any-ended_roles target role_id [] = refl
any-ended_roles target role_id (r ∷ rows) = ground (arith, any-ended_roles target role_id rows)

any-ended_members :
    (target : String) (rows : List UserRow)
    → any
        (λ u. str_eq u.public_key target && u.is_member)
        (map (λ u. if str_eq u.public_key target then record u { is_member = false } else u) rows)
      ≡ false
any-ended_members target [] = refl
any-ended_members target (u ∷ rows) = ground (arith, any-ended_members target rows)

retain_none {ℓ} :
    {A : Type ℓ} (f : A → Bool) → ((x : A) → f x ≡ false) → (xs : List A) → retain f xs ≡ []
retain_none f h [] = refl
retain_none f h (x ∷ xs) = ground (arith, h x, retain_none f h xs)

member_role-end_membership :
    (target role_id : String) (db : Db)
    → member_role (end_membership target db) target role_id ≡ false
unfolding member_role end_membership
member_role-end_membership target role_id db =
    ground (arith, any-ended_roles target role_id db.user_roles, any-ended_members target db.users)

pub roles-end_membership :
    (target : String) (db : Db) → (user_permissions (end_membership target db) target).roles ≡ []
unfolding user_permissions user_role_rows
roles-end_membership target db =
    retain_none (λ r. member_role (end_membership target db) target r.id)
      (λ r. member_role-end_membership target r.id db) (end_membership target db).roles

any-deleted_sessions :
    (target : String) (rows : List Session)
    → any (λ s. str_eq s.public_key target) (retain (λ s. not (str_eq s.public_key target)) rows)
      ≡ false
any-deleted_sessions target [] = refl
any-deleted_sessions target (s ∷ rows) = ground (arith, any-deleted_sessions target rows)

-- The target is out: no role, not even the floor of a member, and no session.
pub record IsExpelled (target : String) (db : Db) : Type 0 where
  pub roles : (user_permissions db target).roles ≡ []
  pub sessions : any (λ s. str_eq s.public_key target) db.sessions ≡ false

expel-IsExpelled :
    (req : BanRequest) (now : ℕ) (db : Db) → IsExpelled req.target_public_key (expel req now db)
unfolding expel delete_sessions flag_banned end_membership
expel-IsExpelled req now db = record {
  roles = roles-end_membership req.target_public_key _;
  sessions = any-deleted_sessions req.target_public_key db.sessions;
}

abbrev ban_of : String → BanRequest → ℕ → Sanction
ban_of user req now = record {
  target_public_key = req.target_public_key;
  issued_by = user;
  reason = req.reason;
  expires_at = ban_expiry req now;
  created_at = now;
}

abbrev with_ban : Sanction → Db → Db
with_ban row db = record db { bans = upsert_sanction row db.bans }

-- A ban that succeeds has passed the guards and been written.
ban_user-written :
    (user : String) (req : BanRequest) (now : ℕ) (db : Db)
    → (ban_user user req now db).1 ≡ ok tt
    → (ban_user user req now db).0 ≡ expel req now (with_ban (ban_of user req now) db)
unfolding ban_user insert_ban
ban_user-written user req now db h = ground arith

is_banned-expel :
    (req : BanRequest) (now : ℕ) (db : Db) (u : String) (t : ℕ)
    → is_banned (expel req now db) u t ≡ is_banned db u t
unfolding is_banned expel end_membership delete_sessions flag_banned
is_banned-expel req now db u t = refl

any-other_roles :
    (target u role_id : String) (rows : List UserRole)
    → str_eq u target ≡ false
    → any
        (λ r. str_eq r.user_public_key u && str_eq r.role_id role_id)
        (retain (λ r. not (str_eq r.user_public_key target)) rows)
      ≡ any (λ r. str_eq r.user_public_key u && str_eq r.role_id role_id) rows
any-other_roles target u role_id [] h = refl
any-other_roles target u role_id (r ∷ rows) h =
    ground (arith, eq_iff r.user_public_key u, any-other_roles target u role_id rows h)

any-other_members :
    (target u : String) (rows : List UserRow)
    → str_eq u target ≡ false
    → any
        (λ m. str_eq m.public_key u && m.is_member)
        (map (λ m. if str_eq m.public_key target then record m { is_member = false } else m) rows)
      ≡ any (λ m. str_eq m.public_key u && m.is_member) rows
any-other_members target u [] h = refl
any-other_members target u (m ∷ rows) h =
    ground (arith, eq_iff m.public_key u, any-other_members target u rows h)

member_role-other :
    (target u role_id : String) (db : Db)
    → str_eq u target ≡ false
    → member_role (end_membership target db) u role_id ≡ member_role db u role_id
unfolding member_role end_membership
member_role-other target u role_id db h =
    ground (
      arith,
      any-other_roles target u role_id db.user_roles h,
      any-other_members target u db.users h,
    )

-- The others keep what they hold.
user_permissions-expel :
    (req : BanRequest) (now : ℕ) (db : Db) (u : String)
    → str_eq u req.target_public_key ≡ false
    → user_permissions (expel req now db) u ≡ user_permissions db u
unfolding expel delete_sessions flag_banned end_membership member_role
user_permissions-expel req now db u h =
    user_permissions-same (expel req now db) db u refl refl (λ id.
      member_role-other req.target_public_key u id
        (delete_sessions req.target_public_key
          (flag_banned req.target_public_key (ban_expiry req now) now db))
        h)

is_banned-with_ban :
    (user : String) (req : BanRequest) (now : ℕ) (db : Db) (t : ℕ)
    → IsInRange req.duration_seconds now
    → is_banned (with_ban (ban_of user req now) db) req.target_public_key t
      ≡ lasts req.duration_seconds now t
unfolding is_banned ban_expiry
is_banned-with_ban user req now db t range =
    is_sanctioned-upsert_sanction (ban_of user req now) db.bans t
    ∙ is_active-lasts req.duration_seconds now t range

-- After a ban that succeeds the target holds no role and has no session, is banned exactly as
-- long as the request says, where the end is a time that an `i64` holds, and the others hold
-- what they held.
pub ban_user-bans :
    (user : String) (req : BanRequest) (now : ℕ) (db : Db)
    → IsInRange req.duration_seconds now
    → (ban_user user req now db).1 ≡ ok tt
    → IsExpelled req.target_public_key (ban_user user req now db).0
      × ((t : ℕ)
          → is_banned (ban_user user req now db).0 req.target_public_key t
            ≡ lasts req.duration_seconds now t)
      × ((u : String)
          → str_eq u req.target_public_key ≡ false
          → user_permissions (ban_user user req now db).0 u ≡ user_permissions db u)
unfolding user_permissions
ban_user-bans user req now db range done =
    let banned : Db = with_ban (ban_of user req now) db in
    let e = ban_user-written user req now db done in
    (
      rw e (expel-IsExpelled req now banned),
      λ t. rw e (
          is_banned-expel req now banned req.target_public_key t
          ∙ is_banned-with_ban user req now db t range),
      λ u h. rw e (user_permissions-expel req now banned u h),
    )
