-- ===== src/Hub/Overwrites.antt =====
-- crates/hub/src/routes/channel_permissions.rs: the handlers that set and clear the overwrites of
-- a role on a channel. What they answer on success is read from the tables and not modelled.
pub mod Checks
pub mod Rows
pub mod Ceiling
mod Examples
use wavvon_server.Base.{
  ℕ, String, Bool, true, false, not, ◌&&◌, List, [], ◌∷◌, any, retain, str_eq, if◌then◌else◌,
}
use wavvon_server.Http.{Result, ok, err}
use wavvon_server.Hub.Db.{Db, OverwriteRow, Handler, query, execute, answer, ◌>>=◌, ◌>>◌}
use wavvon_server.Hub.Roles.{db_error}
use Checks.{OverwriteSet, check_put, check_clear}

-- A transaction that is dropped before its commit leaves the tables as they were.
abbrev pub transaction {ℓ} : {A : Type ℓ} → Handler A → Handler A
transaction m db = let (after, r) = m db in elim r [ ok a ↦ (after, ok a) | err e ↦ (db, err e) ]

-- The row is of the role on the channel.
abbrev pub is_of : String → String → OverwriteRow → Bool
is_of channel_id role_id r = str_eq r.channel_id channel_id && str_eq r.role_id role_id

unfoldable pub delete_overwrites : String → String → Db → Db
delete_overwrites channel_id role_id db = record db {
  overwrites = retain (λ r. not (is_of channel_id role_id r)) db.overwrites;
}

-- `INSERT INTO channel_permission_overwrites`: channel, role and permission are the primary key.
unfoldable pub insert_overwrite : OverwriteRow → Handler (Unit {0})
insert_overwrite row db =
    if any (λ r. is_of row.channel_id row.role_id r && str_eq r.permission row.permission)
      db.overwrites
    then (db, db_error)
    else (record db { overwrites = row ∷ db.overwrites }, ok tt)

-- The loops over `req.allow` and `req.deny`.
unfoldable pub insert_overwrites : String → String → Bool → ℕ → List String → Handler (Unit {0})
unfolding insert_overwrite
insert_overwrites channel_id role_id allow now [] = answer tt
insert_overwrites channel_id role_id allow now (p ∷ ps) = do
  insert_overwrite (record {
    channel_id = channel_id;
    role_id = role_id;
    permission = p;
    allow = allow;
    created_at = now;
  })
  insert_overwrites channel_id role_id allow now ps

unfoldable pub replace_overwrites : String → String → OverwriteSet → ℕ → Handler (Unit {0})
unfolding delete_overwrites insert_overwrites
replace_overwrites channel_id role_id req now = do
  execute (delete_overwrites channel_id role_id)
  insert_overwrites channel_id role_id true now req.allow
  insert_overwrites channel_id role_id false now req.deny

unfoldable pub put_channel_permissions :
    String → String → String → OverwriteSet → ℕ → Handler (Unit {0})
unfolding check_put replace_overwrites
put_channel_permissions user channel_id role_id req now = do
  query (check_put user channel_id role_id req)
  transaction (replace_overwrites channel_id role_id req now)

unfoldable pub delete_channel_permissions : String → String → String → Handler (Unit {0})
unfolding check_clear delete_overwrites
delete_channel_permissions user channel_id role_id = do
  query (check_clear user channel_id role_id)
  execute (delete_overwrites channel_id role_id)
