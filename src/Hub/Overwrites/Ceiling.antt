-- ===== src/Hub/Overwrites/Ceiling.antt =====
-- Nobody allows on a channel what they do not hold there:
-- crates/hub/src/routes/channel_permissions.rs.
use wavvon_server.Base.{
  ℕ, String, Bool, true, false, not, ◌||◌, ◌≡◌, refl, List, [], ◌∷◌, arith, any, retain, All,
  Option-cases, eq_iff, inl, inr,
}
use wavvon_server.Http.{ok}
use wavvon_server.Hub.Db.{Db, OverwriteRow, query_then, then_keeps}
use wavvon_server.Hub.Permissions.Caller.{UserPermissions, has, first_not_held, require_can_grant}
use wavvon_server.Hub.Permissions.Caller.Laws.{require_can_grant_lem}
use wavvon_server.Hub.Permissions.Resolve.{channel_permissions}
use wavvon_server.Hub.Overwrites.Checks.{OverwriteSet, check_put, require_held}
use wavvon_server.Hub.Overwrites.{
  transaction, is_of, delete_overwrites, insert_overwrite, insert_overwrites, replace_overwrites,
  put_channel_permissions,
}
use wavvon_server.Hub.Overwrites.Rows.{has_row, transaction-keeps}

require_held-All :
    (perms : UserPermissions) (allow : List String)
    → require_held perms allow ≡ ok tt
    → All (λ p. has perms p ≡ true) allow
unfolding require_held require_can_grant
require_held-All perms allow h =
    require_can_grant_lem perms allow (elim (Option-cases (first_not_held perms allow)) [
      | inl e ↦ rw (e, require_can_grant) refl
      | inr (p, e) ↦ absurd (ground arith)
    ])

check_put-held :
    (user channel_id role_id : String) (req : OverwriteSet) (db : Db)
    → check_put user channel_id role_id req db ≡ ok tt
    → All (λ p. has (channel_permissions db user channel_id) p ≡ true) req.allow
unfolding check_put
check_put-held user channel_id role_id req db h =
    require_held-All (channel_permissions db user channel_id) req.allow (ground arith)

module _ (db : Db) (actor : UserPermissions) (c role p : String) where
  -- A row that allows `p` was in `db`, or the actor holds `p`.
  abbrev IsCovered : Db → Type 0
  IsCovered d = has_row d c role p true ≡ true → (has_row db c role p true || has actor p) ≡ true

  any-kept :
      (f g : OverwriteRow → Bool) (rows : List OverwriteRow)
      → any f (retain g rows) ≡ true
      → any f rows ≡ true
  any-kept f g [] e = e
  any-kept f g (r ∷ rows) e = ground (arith, any-kept f g rows)

  delete_overwrites-IsCovered :
      (channel_id role_id : String) (d : Db)
      → IsCovered d
      → IsCovered (delete_overwrites channel_id role_id d)
  unfolding delete_overwrites
  delete_overwrites-IsCovered channel_id role_id d h e =
      h (any-kept _ (λ r. not (is_of channel_id role_id r)) d.overwrites e)

  insert_overwrite-IsCovered :
      (row : OverwriteRow) (d : Db)
      → (row.allow ≡ true → has actor row.permission ≡ true)
      → IsCovered d
      → IsCovered (insert_overwrite row d).0
  unfolding insert_overwrite
  insert_overwrite-IsCovered row d k h e = ground (arith, eq_iff row.permission p)

  insert_overwrites-IsCovered :
      (channel_id role_id : String) (allow : Bool) (now : ℕ) (ps : List String) (d : Db)
      → All (λ q. allow ≡ true → has actor q ≡ true) ps
      → IsCovered d
      → IsCovered (insert_overwrites channel_id role_id allow now ps d).0
  unfolding insert_overwrites
  insert_overwrites-IsCovered channel_id role_id allow now [] d k h = h
  insert_overwrites-IsCovered channel_id role_id allow now (q ∷ ps) d k h =
      let row : OverwriteRow = record {
        channel_id = channel_id;
        role_id = role_id;
        permission = q;
        allow = allow;
        created_at = now;
      } in
      then_keeps IsCovered (insert_overwrite row)
        (insert_overwrites channel_id role_id allow now ps) d
        (insert_overwrite-IsCovered row d k.0 h)
        (λ d' h'. insert_overwrites-IsCovered channel_id role_id allow now ps d' k.1 h')

All-weaken :
    (actor : UserPermissions) (ps : List String)
    → All (λ q. has actor q ≡ true) ps
    → All (λ q. true ≡ true → has actor q ≡ true) ps
All-weaken actor [] h = tt
All-weaken actor (q ∷ ps) h = (λ e. h.0, All-weaken actor ps h.1)

All-denied :
    (actor : UserPermissions) (ps : List String) → All (λ q. false ≡ true → has actor q ≡ true) ps
All-denied actor [] = tt
All-denied actor (q ∷ ps) = (λ e. cc, All-denied actor ps)

-- Whatever `put_channel_permissions` answers, a row that allows a permission to a role on a channel
-- was there before, or the caller holds the permission on the channel of the request.
pub put_channel_permissions-no_grant :
    (user channel_id role_id : String) (req : OverwriteSet) (now : ℕ) (db : Db) (c role p : String)
    → has_row (put_channel_permissions user channel_id role_id req now db).0 c role p true ≡ true
    → (has_row db c role p true || has (channel_permissions db user channel_id) p) ≡ true
unfolding put_channel_permissions replace_overwrites
put_channel_permissions-no_grant user channel_id role_id req now db c role p =
    let me : UserPermissions = channel_permissions db user channel_id in
    query_then (IsCovered db me c role p) (check_put user channel_id role_id req)
      (transaction (replace_overwrites channel_id role_id req now)) db (λ e. ground arith)
      λ passed.
        transaction-keeps (IsCovered db me c role p) (replace_overwrites channel_id role_id req now)
          db (λ e. ground arith)
          (then_keeps (IsCovered db me c role p)
            (insert_overwrites channel_id role_id true now req.allow)
            (insert_overwrites channel_id role_id false now req.deny)
            (delete_overwrites channel_id role_id db)
            (insert_overwrites-IsCovered db me c role p channel_id role_id true now req.allow
              (delete_overwrites channel_id role_id db)
              (All-weaken me req.allow (check_put-held user channel_id role_id req db passed))
              (delete_overwrites-IsCovered db me c role p channel_id role_id db
                (λ e. ground arith)))
            (λ d h.
              insert_overwrites-IsCovered db me c role p channel_id role_id false now req.deny d
                (All-denied me req.deny) h))
