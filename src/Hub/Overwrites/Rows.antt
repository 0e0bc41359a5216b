-- ===== src/Hub/Overwrites/Rows.antt =====
-- What the handlers of crates/hub/src/routes/channel_permissions.rs leave in the table.
use wavvon_server.Base.{
  ℕ, String, Bool, true, false, not, ◌&&◌, ◌||◌, ◌≡◌, refl, ◌∙◌, sym, ap, List, [], ◌∷◌, arith, any,
  retain, str_eq, str_eq_refl, contains, inl, inr, if◌then◌else◌,
}
use wavvon_server.Http.{ApiError, ok, err, Result-cases}
use wavvon_server.Hub.Db.{
  Db, OverwriteRow, Handler, query_passes, query_fails, query-eq-ok, then_passes, then-eq-ok,
}
use wavvon_server.Hub.Overwrites.Checks.{OverwriteSet, check_put}
use wavvon_server.Hub.Overwrites.{
  transaction, is_of, delete_overwrites, insert_overwrite, insert_overwrites, replace_overwrites,
  put_channel_permissions,
}

-- A row of the table for the role on the channel allows, or denies, the permission.
abbrev pub has_row : Db → String → String → String → Bool → Bool
has_row db channel_id role_id p allow =
    any
      (λ r.
        is_of channel_id role_id r
        && (str_eq r.permission p && (if allow then r.allow else not r.allow)))
      db.overwrites

-- A transaction either succeeds or leaves the tables alone.
pub transaction-keeps {ℓ κ} :
    {A : Type ℓ} (P : Db → Type κ) (m : Handler A) (db : Db)
    → P db
    → P (m db).0
    → P (transaction m db).0
transaction-keeps P m db h k = elim (Result-cases (m db).1) [
  | inl (a, e) ↦ rw (e, transaction) k
  | inr (x, e) ↦ rw (e, transaction) h
]

transaction-eq-err {ℓ} :
    {A : Type ℓ} (m : Handler A) (db : Db) (e : ApiError)
    → (transaction m db).1 ≡ err e
    → (transaction m db).0 ≡ db
transaction-eq-err m db e h = elim (Result-cases (m db).1) [
  | inl (a, k) ↦ absurd (ground arith)
  | inr (x, k) ↦ rw (k, transaction) refl
]

-- A refused `put_channel_permissions` changes nothing, wherever it fails.
pub put_channel_permissions-atomic :
    (user channel_id role_id : String) (req : OverwriteSet) (now : ℕ) (db : Db) (e : ApiError)
    → (put_channel_permissions user channel_id role_id req now db).1 ≡ err e
    → (put_channel_permissions user channel_id role_id req now db).0 ≡ db
unfolding put_channel_permissions
put_channel_permissions-atomic user channel_id role_id req now db e h =
    elim (Result-cases (check_put user channel_id role_id req db)) [
      | inl (w, k) ↦
          let run =
            query_passes (check_put user channel_id role_id req)
              (transaction (replace_overwrites channel_id role_id req now)) db k in
          ap (λ o. o.0) run
          ∙ transaction-eq-err (replace_overwrites channel_id role_id req now) db e
              (sym (ap (λ o. o.1) run) ∙ h)
      | inr (x, k) ↦
          ap (λ o. o.0)
            (query_fails (check_put user channel_id role_id req)
              (transaction (replace_overwrites channel_id role_id req now)) db k)
    ]

no_rows-deleted :
    (f : OverwriteRow → Bool) (g : OverwriteRow → Bool) (rows : List OverwriteRow)
    → any (λ r. f r && g r) (retain (λ r. not (f r)) rows) ≡ false
no_rows-deleted f g [] = refl
no_rows-deleted f g (r ∷ rows) = ground (arith, no_rows-deleted f g rows)

-- Whether the flags agree.
abbrev same : Bool → Bool → Bool
same a b = if a then b else not b

has_row-insert_overwrite :
    (row : OverwriteRow) (d : Db) (p : String) (flag : Bool)
    → (insert_overwrite row d).1 ≡ ok tt
    → has_row (insert_overwrite row d).0 row.channel_id row.role_id p flag ≡ (
        has_row d row.channel_id row.role_id p flag
        || (same row.allow flag && str_eq row.permission p))
unfolding insert_overwrite
has_row-insert_overwrite row d p flag h =
    ground (arith, str_eq_refl row.channel_id, str_eq_refl row.role_id)

-- The rows of one list of the request: `ps` is inserted with the flag `allow`.
has_row-insert_overwrites :
    (c role : String) (allow : Bool) (now : ℕ) (ps : List String) (d : Db) (p : String)
    (flag : Bool)
    → (insert_overwrites c role allow now ps d).1 ≡ ok tt
    → has_row (insert_overwrites c role allow now ps d).0 c role p flag
      ≡ (has_row d c role p flag || (same allow flag && contains ps p))
unfolding insert_overwrites
has_row-insert_overwrites c role allow now [] d p flag h = ground arith
has_row-insert_overwrites c role allow now (q ∷ ps) d p flag h =
    let row : OverwriteRow = record {
      channel_id = c;
      role_id = role;
      permission = q;
      allow = allow;
      created_at = now;
    } in
    let first = then-eq-ok (insert_overwrite row) (insert_overwrites c role allow now ps) d h in
    let run = then_passes (insert_overwrite row) (insert_overwrites c role allow now ps) d first in
    ap (λ o. has_row o.0 c role p flag) run
    ∙ has_row-insert_overwrites c role allow now ps (insert_overwrite row d).0 p flag
        (sym (ap (λ o. o.1) run) ∙ h)
    ∙ ground (arith, has_row-insert_overwrite row d p flag first)

has_row-delete_overwrites :
    (c role p : String) (flag : Bool) (d : Db)
    → has_row (delete_overwrites c role d) c role p flag ≡ false
unfolding delete_overwrites
has_row-delete_overwrites c role p flag d =
    no_rows-deleted (is_of c role) (λ r. str_eq r.permission p && same flag r.allow) d.overwrites

transaction-eq-ok {ℓ} :
    {A : Type ℓ} (m : Handler A) (db : Db) {a : A}
    → (transaction m db).1 ≡ ok a
    → ((m db).1 ≡ ok a) × ((transaction m db).0 ≡ (m db).0)
transaction-eq-ok m db {a} h = elim (Result-cases (m db).1) [
  | inl (b, e) ↦ (ground arith, rw (e, transaction) refl)
  | inr (x, e) ↦ absurd (ground arith)
]

replace_overwrites-sets :
    (c role : String) (req : OverwriteSet) (now : ℕ) (d : Db) (p : String) (flag : Bool)
    → (replace_overwrites c role req now d).1 ≡ ok tt
    → has_row (replace_overwrites c role req now d).0 c role p flag
      ≡ contains (if flag then req.allow else req.deny) p
unfolding replace_overwrites
replace_overwrites-sets c role req now d p flag h =
    let start = delete_overwrites c role d in
    let allows = insert_overwrites c role true now req.allow in
    let denies = insert_overwrites c role false now req.deny in
    let first = then-eq-ok allows denies start h in
    let run = then_passes allows denies start first in
    ap (λ o. has_row o.0 c role p flag) run
    ∙ has_row-insert_overwrites c role false now req.deny (allows start).0 p flag
        (sym (ap (λ o. o.1) run) ∙ h)
    ∙ ground (
      arith,
      has_row-insert_overwrites c role true now req.allow start p flag first,
      has_row-delete_overwrites c role p flag d,
    )

-- After a `put_channel_permissions` that succeeds, the role has on the channel exactly the rows of
-- the request: it allows what the request allows and denies what it denies, and has no other row.
pub put_channel_permissions-sets :
    (user channel_id role_id : String) (req : OverwriteSet) (now : ℕ) (db : Db) (p : String)
    (flag : Bool)
    → (put_channel_permissions user channel_id role_id req now db).1 ≡ ok tt
    → has_row
        (put_channel_permissions user channel_id role_id req now db).0
        channel_id
        role_id
        p
        flag
      ≡ contains (if flag then req.allow else req.deny) p
unfolding put_channel_permissions
put_channel_permissions-sets user channel_id role_id req now db p flag h =
    let body = replace_overwrites channel_id role_id req now in
    let run = query-eq-ok (check_put user channel_id role_id req) (transaction body) db h in
    let (done, same_tables) = transaction-eq-ok body db (sym (ap (λ o. o.1) run) ∙ h) in
    ap (λ o. has_row o.0 channel_id role_id p flag) run
    ∙ ap (λ d. has_row d channel_id role_id p flag) same_tables
    ∙ replace_overwrites-sets channel_id role_id req now db p flag done
