-- ===== src/Hub/Channels/Moves.antt =====
-- About `update_channel` and the tree of channels.
use mathlib.Core.Path.{fun_ext, subst}
use wavvon_server.Base.{
  ℕ, String, Bool, true, false, not, ◌≡◌, refl, sym, ap, List, [], ◌∷◌, map, Option, none, some,
  inl, inr, arith, str_eq, eq_iff, any, find, Option-cases, if◌then◌else◌,
}
use wavvon_server.Base.Chars.{trim}
use wavvon_server.Http.{ok, guard, Result-cases, then-ok, bind-ok, guard-ok}
use wavvon_server.Hub.Permissions.Resolve.{channel_permissions}
use wavvon_server.Hub.Db.{Db, ChannelRow}
use wavvon_server.Hub.Permissions.Cascade.{parent_of}
use wavvon_server.Hub.Channels.Walks.{is_ancestor}
use wavvon_server.Hub.Channels.Checks.{UpdateChannelRequest, row_of, require_category}
use wavvon_server.Hub.Channels.Update.{
  check_update_channel, check_parent, check_new_parent, updated_channel, set_channel,
  rename_channel, rename_given, update_channel, get_channel, check_fields, or_else,
}
use wavvon_server.Hub.Channels.Forest.{
  IsAcyclic, IsRooted-to_top, IsAcyclic-moved, is_rooted, moved,
}

-- A change of the rows of `x`.
abbrev changed : String → (ChannelRow → ChannelRow) → List ChannelRow → List ChannelRow
changed x f = map (λ c. if str_eq c.id x then f c else c)

module _ (x : String) (f : ChannelRow → ChannelRow)
    (same : (c : ChannelRow) → (f c).id ≡ c.id) where
  parent_of-others :
      (rows : List ChannelRow) (k : String)
      → str_eq k x ≡ false
      → parent_of (changed x f rows) k ≡ parent_of rows k
  unfolding parent_of
  parent_of-others [] k h = refl
  parent_of-others (c ∷ rows) k h =
      ground (arith, eq_iff c.id k, eq_iff c.id x, same c, parent_of-others rows k h)

  parent_of-kept :
      ((c : ChannelRow) → (f c).parent_id ≡ c.parent_id)
      → (rows : List ChannelRow) (k : String) → parent_of (changed x f rows) k ≡ parent_of rows k
  unfolding parent_of
  parent_of-kept h [] k = refl
  parent_of-kept h (c ∷ rows) k = ground (arith, same c, h c, parent_of-kept h rows k)

  parent_of-changed :
      (o : Option String)
      → ((c : ChannelRow) → (f c).parent_id ≡ o)
      → (rows : List ChannelRow) → any (λ c. str_eq c.id x) rows ≡ true
      → parent_of (changed x f rows) x ≡ o
  unfolding parent_of
  parent_of-changed o h [] e = cc
  parent_of-changed o h (c ∷ rows) e = ground (arith, same c, h c, parent_of-changed o h rows)

  parent_of-moved :
      (o : Option String)
      → ((c : ChannelRow) → (f c).parent_id ≡ o)
      → (rows : List ChannelRow) → any (λ c. str_eq c.id x) rows ≡ true
      → parent_of (changed x f rows) ≡ moved x o (parent_of rows)
  parent_of-moved o h rows e =
      fun_ext λ k. ground (arith, eq_iff k x, parent_of-others rows k, parent_of-changed o h rows e)

parent_of-rename :
    (x : String) (name : List ℕ) (db : Db) (k : String)
    → parent_of (rename_channel x name db).0.channels k ≡ parent_of db.channels k
unfolding rename_channel set_channel
parent_of-rename x name db k = ground (
  arith,
  parent_of-kept x (λ c. record c { name = trim name }) (λ c. refl) (λ c. refl) db.channels k,
)

IsAcyclic-rename :
    (x : String) (name : Option (List ℕ)) (db : Db)
    → IsAcyclic (parent_of db.channels)
    → IsAcyclic (parent_of (rename_given x name db).0.channels)
IsAcyclic-rename x none db h = h
IsAcyclic-rename x (some name) db h =
    subst IsAcyclic (fun_ext λ k. sym (parent_of-rename x name db k)) h

get_channel-ok :
    (db : Db) (x : String) (c : ChannelRow)
    → get_channel db x ≡ ok c
    → any (λ d. str_eq d.id x) db.channels ≡ true
unfolding get_channel
get_channel-ok db x c h = elim (Option-cases (row_of db x)) [
  | inl e ↦ absurd (ground arith)
  | inr (d, e) ↦ found db.channels d e
]
  where
    found :
        (rows : List ChannelRow) (d : ChannelRow)
        → find (λ r. str_eq r.id x) rows ≡ some d
        → any (λ r. str_eq r.id x) rows ≡ true
    found [] d e = cc
    found (r ∷ rows) d e = ground (arith, found rows d)

-- What an update has been let through by.
check_update_channel-passed :
    (user x : String) (req : UpdateChannelRequest) (db : Db)
    → check_update_channel user x req db ≡ ok tt
    → (c : ChannelRow) × (get_channel db x ≡ ok c) × (check_new_parent db c x req.parent_id ≡ ok tt)
unfolding check_update_channel
check_update_channel-passed user x req db h =
    let (c, found, rest) = bind-ok (get_channel db x) _ h in
    let (fields, more) = then-ok (check_fields user (channel_permissions db user x) c req) _ rest in
    (c, found, (then-ok (check_new_parent db c x req.parent_id) _ more).0)

not-true : (b : Bool) → not b ≡ true → b ≡ false
not-true true h = cc
not-true false h = refl

check_parent-passed :
    (db : Db) (c : ChannelRow) (x p : String)
    → check_parent db c x p ≡ ok tt
    → (str_eq p x ≡ false) × (is_ancestor db x p ≡ false)
unfolding check_parent
check_parent-passed db c x p h =
    let (self, rest) = then-ok (guard (not (str_eq p x)) _ _) _ h in
    let (category, more) = then-ok (require_category db p) _ rest in
    let (cycle, depth) = then-ok (guard (not (is_ancestor db x p)) _ _) _ more in
    (
      not-true (str_eq p x) (guard-ok (not (str_eq p x)) _ _ self),
      not-true (is_ancestor db x p) (guard-ok (not (is_ancestor db x p)) _ _ cycle),
    )

updated_channel-keeps :
    (req : UpdateChannelRequest) (c : ChannelRow) → (updated_channel req c).id ≡ c.id
unfolding updated_channel
updated_channel-keeps req c = refl

-- The tree after the first statement, for each of the three things that a request may ask of the
-- parent.
IsAcyclic-updated :
    (x : String) (req : UpdateChannelRequest) (db : Db) (c : ChannelRow)
    (o : Option (Option String))
    → req.parent_id ≡ o
    → IsAcyclic (parent_of db.channels)
    → any (λ d. str_eq d.id x) db.channels ≡ true
    → check_new_parent db c x o ≡ ok tt
    → ((p : String) → o ≡ some (some p) → is_rooted 50 (parent_of db.channels) p ≡ true)
    → IsAcyclic (parent_of (set_channel x (updated_channel req) db).channels)
unfolding set_channel updated_channel is_ancestor
IsAcyclic-updated x req db c none e h here passed near =
    subst IsAcyclic
      (fun_ext λ k. sym (
        parent_of-kept x (updated_channel req) (updated_channel-keeps req)
          (λ d. ap (λ o. or_else o d.parent_id) e) db.channels k))
      h
IsAcyclic-updated x req db c (some none) e h here passed near =
    subst IsAcyclic
      (sym (
        parent_of-moved x (updated_channel req) (updated_channel-keeps req) none
          (λ d. ap (λ o. or_else o d.parent_id) e) db.channels here))
      (λ k. IsRooted-to_top (parent_of db.channels) x (h k))
IsAcyclic-updated x req db c (some (some p)) e h here passed near =
    let (other, seen) = check_parent-passed db c x p passed in
    subst IsAcyclic
      (sym (
        parent_of-moved x (updated_channel req) (updated_channel-keeps req) (some p)
          (λ d. ap (λ o. or_else o d.parent_id) e) db.channels here))
      (IsAcyclic-moved (parent_of db.channels) x 50 p h (near p refl) seen other)

-- Where no channel is above itself, none is after `update_channel`, whatever it answers, as long as
-- at most 50 links lead from a new parent to its root.
pub update_channel-IsAcyclic :
    (user x : String) (req : UpdateChannelRequest) (db : Db)
    → IsAcyclic (parent_of db.channels)
    → ((p : String) → req.parent_id ≡ some (some p) → is_rooted 50 (parent_of db.channels) p ≡ true)
    → IsAcyclic (parent_of (update_channel user x req db).0.channels)
unfolding update_channel
update_channel-IsAcyclic user x req db h near =
    elim (Result-cases (check_update_channel user x req db)) [
      | inl (w, e) ↦
          let (c, found, passed) = check_update_channel-passed user x req db e in
          rw (e, update_channel)
            (IsAcyclic-rename x req.name (set_channel x (updated_channel req) db) (
              IsAcyclic-updated x req db c req.parent_id refl h (get_channel-ok db x c found) passed
                near))
      | inr (y, e) ↦ rw (e, update_channel) h
    ]
