-- ===== src/Hub/Db.antt =====
-- The tables of crates/hub/src/db/migrations.rs, with the columns that the modelled code reads or
-- writes, and a handler as a function of them. A table is the list of its rows, a query is a
-- function of the list, and a timestamp is a number of seconds. Queries do not fail of
-- themselves: a lost connection is not modelled.
mod Rows
pub use wavvon_server.Hub.Db.Rows.{
  RoleRow, RolePermission, UserRole, UserRow, ChannelRow, AttachmentBlob, Attachment, OverwriteRow,
  ChannelBan, Sanction, VoiceMute, ChannelVoiceMute, Session, IpSighting, BanIpFlag, TalkPower,
  RaisedHand, FederatedBan, BanSource, BanOverride, AdmissionFlag, Survey, Invite, Setting,
}
use wavvon_server.Base.{arith, ℕ, String, List, Bool, Option, ℤ, ◌≡◌, refl, inl, inr}
use wavvon_server.Http.{ApiError, Result, ok, err, Result-cases}

pub record Db : Type 0 where
  pub roles : List RoleRow
  pub role_permissions : List RolePermission
  pub user_roles : List UserRole
  pub users : List UserRow
  pub channels : List ChannelRow
  pub attachments : List Attachment
  pub attachment_blobs : List AttachmentBlob
  pub overwrites : List OverwriteRow
  pub channel_bans : List ChannelBan
  pub bans : List Sanction
  pub mutes : List Sanction
  pub voice_mutes : List VoiceMute
  pub channel_voice_mutes : List ChannelVoiceMute
  pub sessions : List Session
  pub ip_sightings : List IpSighting
  pub ban_ip_flags : List BanIpFlag
  pub channel_settings : List TalkPower
  pub raise_hand_requests : List RaisedHand
  pub federated_bans : List FederatedBan
  pub federated_ban_sources : List BanSource
  pub federated_ban_overrides : List BanOverride
  pub role_categories : List String
  pub admission_flags : List AdmissionFlag
  pub surveys : List Survey
  pub invites : List Invite
  pub hub_settings : List Setting

-- A handler answers and leaves the tables behind, after an error too: what it wrote outside a
-- transaction before it failed stays written.
abbrev pub Handler {ℓ} : Type ℓ → Type ℓ
Handler A = Db → Db × Result A

infixl 5 ◌>>=◌ ◌>>◌
abbrev pub ◌>>=◌ {ℓ κ} : {A : Type ℓ} {B : Type κ} → Handler A → (A → Handler B) → Handler B
◌>>=◌ m f db = let (db', r) = m db in elim r [ ok a ↦ f a db' | err e ↦ (db', err e) ]

abbrev pub ◌>>◌ {ℓ} : {B : Type ℓ} → Handler (Unit {0}) → Handler B → Handler B
m >> k = m >>= λ _. k

-- A check or a query, which writes nothing.
abbrev pub query {ℓ} : {A : Type ℓ} → (Db → Result A) → Handler A
query f db = (db, f db)

-- A statement that writes.
abbrev pub execute : (Db → Db) → Handler (Unit {0})
execute f db = (f db, ok tt)

abbrev pub answer {ℓ} : {A : Type ℓ} → A → Handler A
answer a db = (db, ok a)

-- A check that passes is followed by the rest.
pub query_passes {ℓ} :
    {B : Type ℓ} (check : Db → Result (Unit {0})) (k : Handler B) (db : Db)
    → check db ≡ ok tt
    → (query check >> k) db ≡ k db
query_passes check k db e = rw (e, ◌>>=◌) refl

-- A check that fails is the answer.
pub query_fails {ℓ} :
    {B : Type ℓ} (check : Db → Result (Unit {0})) (k : Handler B) (db : Db) {x : ApiError}
    → check db ≡ err x
    → (query check >> k) db ≡ (db, err x)
query_fails check k db e = rw (e, ◌>>=◌) refl

-- A handler that checks first leaves the tables alone, or goes on from a passed check.
pub query_then {ℓ κ} :
    {B : Type ℓ} (P : Db → Type κ) (check : Db → Result (Unit {0})) (k : Handler B) (db : Db)
    → P db
    → (check db ≡ ok tt → P (k db).0)
    → P ((query check >> k) db).0
query_then P check k db h f = elim (Result-cases (check db)) [
  | inl (w, e) ↦ rw (e, ◌>>=◌) (f e)
  | inr (x, e) ↦ rw (e, ◌>>=◌) h
]

-- A statement that succeeds is followed by the rest.
pub then_passes {ℓ} :
    {B : Type ℓ} (m : Handler (Unit {0})) (k : Handler B) (db : Db)
    → (m db).1 ≡ ok tt
    → (m >> k) db ≡ k (m db).0
then_passes m k db e = rw (e, ◌>>=◌) refl

-- A handler that succeeds has passed its first statement.
pub then-eq-ok {ℓ} :
    {B : Type ℓ} (m : Handler (Unit {0})) (k : Handler B) (db : Db) {b : B}
    → ((m >> k) db).1 ≡ ok b
    → (m db).1 ≡ ok tt
then-eq-ok m k db h = ground arith

-- A handler that succeeds has passed its check.
pub query-eq-ok {ℓ} :
    {B : Type ℓ} (check : Db → Result (Unit {0})) (k : Handler B) (db : Db) {b : B}
    → ((query check >> k) db).1 ≡ ok b
    → (query check >> k) db ≡ k db
query-eq-ok check k db h = elim (Result-cases (check db)) [
  | inl (w, e) ↦ query_passes check k db e
  | inr (x, e) ↦ absurd (ground arith)
]

-- The same, where the second statement runs only behind a success of the first.
pub then_goes_on {ℓ κ} :
    {B : Type ℓ} (P : Db → Type κ) (m : Handler (Unit {0})) (k : Handler B) (db : Db)
    → P (m db).0
    → ((m db).1 ≡ ok tt → P (k (m db).0).0)
    → P ((m >> k) db).0
then_goes_on P m k db h f = elim (Result-cases (m db).1) [
  | inl (w, e) ↦ rw (e, ◌>>=◌) (f e)
  | inr (x, e) ↦ rw (e, ◌>>=◌) h
]

-- A property of the tables that two statements keep is kept by the two in a row.
pub then_keeps {ℓ κ} :
    {B : Type ℓ} (P : Db → Type κ) (m : Handler (Unit {0})) (k : Handler B) (db : Db)
    → P (m db).0
    → ((d : Db) → P d → P (k d).0)
    → P ((m >> k) db).0
then_keeps P m k db h f = elim (Result-cases (m db).1) [
  | inl (w, e) ↦ rw (e, ◌>>=◌) (f (m db).0 h)
  | inr (x, e) ↦ rw (e, ◌>>=◌) h
]
