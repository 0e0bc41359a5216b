-- ===== src/Hub/Permissions/Cascade/Rows.antt =====
-- Which rows matter to the fold: only those of the chain's channels, so a query over more channels
-- or fewer answers alike.
use mathlib.Core.List.{reverse-cons}
use wavvon_server.Base.{
  String, Bool, true, false, not, ◌&&◌, ◌||◌, ◌≡◌, refl, ◌∙◌, List, [], ◌∷◌, ◌++◌, reverse, arith,
  str_eq, eq_iff, contains, any, retain, All,
}
use wavvon_server.Hub.Db.{Db, OverwriteRow}
use wavvon_server.Hub.Permissions.Cascade.{fetch_overwrites}
use wavvon_server.Hub.Permissions.Cascade.Laws.{cascade}

-- The overwrites of some roles, on every channel.
unfoldable pub role_overwrites : List OverwriteRow → List String → List OverwriteRow
role_overwrites rows roles = retain (λ r. contains roles r.role_id) rows

pub contains-append :
    (xs ys : List String) (p : String) → contains (xs ++ ys) p ≡ (contains xs p || contains ys p)
contains-append [] ys p = refl
contains-append (x ∷ xs) ys p = ground (arith, contains-append xs ys p)

pub contains-reverse : (xs : List String) (p : String) → contains (reverse xs) p ≡ contains xs p
contains-reverse [] p = refl
contains-reverse (x ∷ xs) p =
    rw reverse-cons (ground (arith, contains-append (reverse xs) (x ∷ []) p, contains-reverse xs p))

any-on_channel :
    (channels roles : List String) (c : String) (f : OverwriteRow → Bool)
    → contains channels c ≡ true
    → (rows : List OverwriteRow)
    → any
        (λ r. str_eq r.channel_id c && f r)
        (retain (λ r. contains channels r.channel_id && contains roles r.role_id) rows)
      ≡ any (λ r. str_eq r.channel_id c && f r) (retain (λ r. contains roles r.role_id) rows)
any-on_channel channels roles c f h [] = refl
any-on_channel channels roles c f h (r ∷ rows) =
    ground (arith, eq_iff r.channel_id c, any-on_channel channels roles c f h rows)

any-no_roles :
    (f : OverwriteRow → Bool) (rows : List OverwriteRow)
    → any f (retain (λ r. contains [] r.role_id) rows) ≡ false
any-no_roles f [] = refl
any-no_roles f (r ∷ rows) = any-no_roles f rows

any-fetch_overwrites :
    (db : Db) (channels roles : List String) (c : String) (f : OverwriteRow → Bool)
    → contains channels c ≡ true
    → any (λ r. str_eq r.channel_id c && f r) (fetch_overwrites db channels roles)
      ≡ any (λ r. str_eq r.channel_id c && f r) (role_overwrites db.overwrites roles)
unfolding fetch_overwrites role_overwrites
any-fetch_overwrites db [] roles c f h = cc
any-fetch_overwrites db (d ∷ channels) [] c f h =
    rw (any-no_roles (λ r. str_eq r.channel_id c && f r) db.overwrites)
any-fetch_overwrites db (d ∷ channels) (q ∷ roles) c f h =
    any-on_channel (d ∷ channels) (q ∷ roles) c f h db.overwrites

-- A query over channels that include the chain folds like the whole table.
pub cascade-fetch_overwrites :
    (db : Db) (channels roles : List String) (p : String) (chain : List String) (base : Bool)
    → All (λ c. contains channels c ≡ true) chain
    → cascade (fetch_overwrites db channels roles) p chain base
      ≡ cascade (role_overwrites db.overwrites roles) p chain base
unfolding cascade
cascade-fetch_overwrites db channels roles p [] base h = refl
cascade-fetch_overwrites db channels roles p (c ∷ chain) base h = rw (
  any-fetch_overwrites db channels roles c (λ r. r.allow && str_eq r.permission p) h.0,
  any-fetch_overwrites db channels roles c (λ r. not r.allow && str_eq r.permission p) h.0,
  cascade-fetch_overwrites db channels roles p chain base h.1,
)

-- Every member of a list is in it.
All-contains_tail :
    (x : String) (ys xs : List String)
    → All (λ c. contains ys c ≡ true) xs
    → All (λ c. contains (x ∷ ys) c ≡ true) xs
All-contains_tail x ys [] h = tt
All-contains_tail x ys (c ∷ xs) h = (ground arith, All-contains_tail x ys xs h.1)

pub All-contains_self : (xs : List String) → All (λ c. contains xs c ≡ true) xs
All-contains_self [] = tt
All-contains_self (x ∷ xs) =
    (ground (arith, eq_iff x x), All-contains_tail x xs xs (All-contains_self xs))

pub All-contains-reverse :
    (ys xs : List String)
    → All (λ c. contains ys c ≡ true) xs
    → All (λ c. contains (reverse ys) c ≡ true) xs
All-contains-reverse ys [] h = tt
All-contains-reverse ys (x ∷ xs) h = (contains-reverse ys x ∙ h.0, All-contains-reverse ys xs h.1)

pub cascade-no_roles :
    (rows : List OverwriteRow) (p : String) (chain : List String) (base : Bool)
    → cascade (role_overwrites rows []) p chain base ≡ base
unfolding cascade role_overwrites
cascade-no_roles rows p [] base = refl
cascade-no_roles rows p (c ∷ chain) base =
    rw
      (
        any-no_roles (λ r. str_eq r.channel_id c && (r.allow && str_eq r.permission p)) rows,
        any-no_roles (λ r. str_eq r.channel_id c && (not r.allow && str_eq r.permission p)) rows,
      )
      (cascade-no_roles rows p chain base)
