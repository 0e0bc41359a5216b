-- ===== src/Hub/Acts/Keep.antt =====
-- About the requests that only sanction, and the tables of users, roles, grants and assignments.
use wavvon_server.Base.{
  ℕ, String, Bool, ◌≡◌, refl, true, false, inl, inr, List, [], ◌∷◌, Option, ℤ, arith,
}
use wavvon_server.Hub.Db.{Db, Handler, query, OverwriteRow, execute, query_then, then_keeps, ◌>>◌}
use wavvon_server.Http.{Result, Result-cases}
use wavvon_server.Hub.Overwrites.Checks.{OverwriteSet, check_put, check_clear}
use wavvon_server.Hub.Overwrites.{
  transaction, insert_overwrite, insert_overwrites, delete_overwrites, replace_overwrites,
  put_channel_permissions, delete_channel_permissions,
}
use wavvon_server.Hub.BanEvasion.{unflag}
use wavvon_server.Hub.Moderation.Bans.{
  MuteRequest, TimeoutRequest, insert_mute, unban_user, mute_user, unmute_user, timeout_user,
}
use wavvon_server.Hub.Moderation.Rooms.{
  insert_voice_mute, insert_talk_power, insert_channel_ban, delete_channel_ban,
  upsert_channel_voice_mute, delete_hand, voice_mute, voice_unmute, set_talk_power, channel_ban,
  channel_unban, channel_voice_mute, channel_voice_unmute, raise_hand, lower_hand,
}

-- The rights of everyone hang on these tables alone.
pub record IsSameRights (db d : Db) : Type 0 where
  pub roles : d.roles ≡ db.roles
  pub role_permissions : d.role_permissions ≡ db.role_permissions
  pub user_roles : d.user_roles ≡ db.user_roles
  pub users : d.users ≡ db.users

abbrev same : (db : Db) → IsSameRights db db
same db = record { roles = refl; role_permissions = refl; user_roles = refl; users = refl }

-- Behind a check, a statement that leaves them alone.
checked_same :
    (check : Db → Result (Unit {0})) (k : Handler (Unit {0})) (db : Db)
    → IsSameRights db (k db).0
    → IsSameRights db ((query check >> k) db).0
checked_same check k db h = query_then (IsSameRights db) check k db (same db) (λ _. h)

insert_overwrite-same :
    (row : OverwriteRow) (db d : Db)
    → IsSameRights db d
    → IsSameRights db (insert_overwrite row d).0
unfolding insert_overwrite
insert_overwrite-same row db d h = ground arith

insert_overwrites-same :
    (channel_id role_id : String) (allow : Bool) (now : ℕ) (ps : List String) (db d : Db)
    → IsSameRights db d
    → IsSameRights db (insert_overwrites channel_id role_id allow now ps d).0
unfolding insert_overwrites
insert_overwrites-same channel_id role_id allow now [] db d h = h
insert_overwrites-same channel_id role_id allow now (p ∷ ps) db d h =
    let row : OverwriteRow = record {
      channel_id = channel_id;
      role_id = role_id;
      permission = p;
      allow = allow;
      created_at = now;
    } in
    then_keeps (IsSameRights db) (insert_overwrite row)
      (insert_overwrites channel_id role_id allow now ps) d (insert_overwrite-same row db d h)
      (insert_overwrites-same channel_id role_id allow now ps db)

replace_overwrites-same :
    (channel_id role_id : String) (req : OverwriteSet) (now : ℕ) (db : Db)
    → IsSameRights db (replace_overwrites channel_id role_id req now db).0
unfolding replace_overwrites delete_overwrites
replace_overwrites-same channel_id role_id req now db =
    then_keeps (IsSameRights db) (insert_overwrites channel_id role_id true now req.allow)
      (insert_overwrites channel_id role_id false now req.deny) _
      (insert_overwrites-same channel_id role_id true now req.allow db _
        (record { roles = refl; role_permissions = refl; user_roles = refl; users = refl }))
      (insert_overwrites-same channel_id role_id false now req.deny db)

transaction-same :
    (m : Handler (Unit {0})) (db : Db)
    → IsSameRights db (m db).0
    → IsSameRights db (transaction m db).0
transaction-same m db h = elim (Result-cases (m db).1) [
  | inl (w, e) ↦ rw (e, transaction) h
  | inr (x, e) ↦ rw (e, transaction) (same db)
]

pub put_channel_permissions-same :
    (user channel_id role_id : String) (req : OverwriteSet) (now : ℕ) (db : Db)
    → IsSameRights db (put_channel_permissions user channel_id role_id req now db).0
unfolding put_channel_permissions
put_channel_permissions-same user channel_id role_id req now db =
    checked_same (check_put user channel_id role_id req)
      (transaction (replace_overwrites channel_id role_id req now)) db
      (transaction-same (replace_overwrites channel_id role_id req now) db
        (replace_overwrites-same channel_id role_id req now db))

pub delete_channel_permissions-same :
    (user channel_id role_id : String) (db : Db)
    → IsSameRights db (delete_channel_permissions user channel_id role_id db).0
unfolding delete_channel_permissions delete_overwrites
delete_channel_permissions-same user channel_id role_id db =
    checked_same (check_clear user channel_id role_id)
      (execute (delete_overwrites channel_id role_id)) db
      (record { roles = refl; role_permissions = refl; user_roles = refl; users = refl })

pub unban_user-same : (user key : String) (db : Db) → IsSameRights db (unban_user user key db).0
unfolding unban_user unflag
unban_user-same user key db = ground arith

pub mute_user-same :
    (user : String) (req : MuteRequest) (now : ℕ) (db : Db)
    → IsSameRights db (mute_user user req now db).0
unfolding mute_user insert_mute
mute_user-same user req now db = ground arith

pub unmute_user-same : (user key : String) (db : Db) → IsSameRights db (unmute_user user key db).0
unfolding unmute_user
unmute_user-same user key db = ground arith

pub timeout_user-same :
    (user : String) (req : TimeoutRequest) (now : ℕ) (db : Db)
    → IsSameRights db (timeout_user user req now db).0
unfolding timeout_user insert_mute
timeout_user-same user req now db = ground arith

pub voice_mute-same :
    (user key : String) (reason : Option String) (now : ℕ) (db : Db)
    → IsSameRights db (voice_mute user key reason now db).0
unfolding voice_mute insert_voice_mute
voice_mute-same user key reason now db = ground arith

pub voice_unmute-same : (user key : String) (db : Db) → IsSameRights db (voice_unmute user key db).0
unfolding voice_unmute
voice_unmute-same user key db = ground arith

pub set_talk_power-same :
    (user channel_id : String) (n : ℤ) (db : Db)
    → IsSameRights db (set_talk_power user channel_id n db).0
unfolding set_talk_power insert_talk_power
set_talk_power-same user channel_id n db = ground arith

pub channel_ban-same :
    (user channel_id key : String) (reason : Option String) (now : ℕ) (db : Db)
    → IsSameRights db (channel_ban user channel_id key reason now db).0
unfolding channel_ban insert_channel_ban
channel_ban-same user channel_id key reason now db = ground arith

pub channel_unban-same :
    (user channel_id key : String) (db : Db)
    → IsSameRights db (channel_unban user channel_id key db).0
unfolding channel_unban delete_channel_ban
channel_unban-same user channel_id key db = ground arith

pub channel_voice_mute-same :
    (user channel_id key : String) (now : ℕ) (db : Db)
    → IsSameRights db (channel_voice_mute user channel_id key now db).0
unfolding channel_voice_mute upsert_channel_voice_mute
channel_voice_mute-same user channel_id key now db = ground arith

pub channel_voice_unmute-same :
    (user channel_id key : String) (db : Db)
    → IsSameRights db (channel_voice_unmute user channel_id key db).0
unfolding channel_voice_unmute
channel_voice_unmute-same user channel_id key db = ground arith

pub raise_hand-same :
    (user channel_id id : String) (now : ℕ) (db : Db)
    → IsSameRights db (raise_hand user channel_id id now db)
unfolding raise_hand
raise_hand-same user channel_id id now db = ground arith

pub lower_hand-same :
    (user channel_id key : String) (db : Db) → IsSameRights db (lower_hand user channel_id key db).0
unfolding lower_hand delete_hand
lower_hand-same user channel_id key db = ground arith
