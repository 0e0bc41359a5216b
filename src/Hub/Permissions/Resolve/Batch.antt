-- ===== src/Hub/Permissions/Resolve/Batch.antt =====
-- `channels_with_permission` against `channel_permissions`: two queries in total answer what the
-- resolver answers channel by channel.
use mathlib.Core.Path.{fun_ext}
use mathlib.Core.List.{reverse-reverse}
use wavvon_server.Base.{
  ℕ, zero, suc, String, true, not, ◌&&◌, ◌||◌, ◌≡◌, refl, ◌∙◌, sym, ap, List, [], ◌∷◌, reverse,
  Option, none, some, arith, str_eq, eq_iff, contains, contains-retain, find, All, if◌then◌else◌,
}
use wavvon_server.Hub.Db.{Db, ChannelRow}
use wavvon_server.Hub.Permissions.Caller.{UserPermissions, has, user_permissions, role_ids}
use wavvon_server.Hub.Permissions.Cascade.{
  ParentMap, parent_of, climb, depth_cap, ancestor_chain_from_map, collect_parents, flatten,
  fetch_overwrites,
}
use wavvon_server.Hub.Permissions.Cascade.Laws.{contains-fold_overwrites}
use wavvon_server.Hub.Permissions.Cascade.Rows.{cascade-fetch_overwrites, cascade-no_roles}
use wavvon_server.Hub.Permissions.Resolve.{
  banned_channels, channel_permissions, channel_ids, channel_allows, channels_with_permission,
}
use wavvon_server.Hub.Permissions.Resolve.Laws.{lineage, cascaded, has-channel_permissions}

-- `channels.id` is the primary key.
abbrev pub UniqueIds : List ChannelRow → Type 0
UniqueIds [] = Unit
UniqueIds (c ∷ cs) = (find (λ d. str_eq d.id c.id) cs ≡ none) × UniqueIds cs

abbrev pub ParentIn : List String → Option String → Type 0
ParentIn ids none = Unit
ParentIn ids (some p) = contains ids p ≡ true

-- `channels.parent_id` references `channels.id`.
pub record IsChannelTree (db : Db) : Type 0 where
  pub unique : UniqueIds db.channels
  pub parents : All (λ c. ParentIn (channel_ids db) c.parent_id) db.channels

collect_parents_lem :
    (cs : List ChannelRow) (m : ParentMap) (k : String)
    → UniqueIds cs
    → collect_parents cs m k
      ≡ (elim (find (λ c. str_eq c.id k) cs) [ none ↦ m k | some c ↦ some c.parent_id ])
unfolding collect_parents
collect_parents_lem [] m k h = refl
collect_parents_lem (c ∷ cs) m k h = ground (
  arith,
  eq_iff c.id k,
  collect_parents_lem cs (λ j. if str_eq c.id j then some c.parent_id else m j) k h.1,
)

flatten-collect_parents :
    (cs : List ChannelRow) (k : String)
    → UniqueIds cs
    → flatten (collect_parents cs (λ _. none) k) ≡ parent_of cs k
unfolding parent_of
flatten-collect_parents cs k h = ground (arith, collect_parents_lem cs (λ _. none) k h)

ancestor_chain_from_map_lem :
    (db : Db) (c : String)
    → UniqueIds db.channels
    → reverse (ancestor_chain_from_map (collect_parents db.channels (λ _. none)) c) ≡ lineage db c
unfolding ancestor_chain_from_map
ancestor_chain_from_map_lem db c h =
    rw (fun_ext (λ k. flatten-collect_parents db.channels k h)) (reverse-reverse _)

ParentIn-parent_of :
    (ids : List String) (cs : List ChannelRow) (k : String)
    → All (λ c. ParentIn ids c.parent_id) cs
    → ParentIn ids (parent_of cs k)
unfolding parent_of
ParentIn-parent_of ids [] k h = tt
ParentIn-parent_of ids (c ∷ cs) k h = ground (arith, ParentIn-parent_of ids cs k h.1)

All-climb_step :
    (ids : List String) (f : String → Option String) (n : ℕ) (k : String) (o : Option String)
    → f k ≡ o
    → ParentIn ids o
    → ((p : String) → All (λ c. contains ids c ≡ true) (climb n f p))
    → All (λ c. contains ids c ≡ true) (climb (suc n) f k)
unfolding climb
All-climb_step ids f n k none e h rest = rw (e, climb) tt
All-climb_step ids f n k (some p) e h rest = rw (e, climb) (h, rest p)

All-climb :
    (ids : List String) (cs : List ChannelRow) (n : ℕ) (k : String)
    → All (λ c. ParentIn ids c.parent_id) cs
    → All (λ c. contains ids c ≡ true) (climb n (parent_of cs) k)
unfolding climb
All-climb ids cs zero k h = tt
All-climb ids cs (suc n) k h =
    All-climb_step ids (parent_of cs) n k (parent_of cs k) refl (ParentIn-parent_of ids cs k h)
      (λ p. All-climb ids cs n p h)

-- The closure of the batch decides like the cascade.
channel_allows_lem :
    (db : Db) (u p id : String)
    → IsChannelTree db
    → contains (channel_ids db) id ≡ true
    → channel_allows db u p id ≡ (not (contains (banned_channels db u) id) && cascaded db u id p)
unfolding channel_allows
channel_allows_lem db u p id t h =
    let b : UserPermissions = user_permissions db u in
    let rows = fetch_overwrites db (channel_ids db) (role_ids b.roles) in
    let chain = ancestor_chain_from_map (collect_parents db.channels (λ _. none)) id in
    ground (
      arith,
      contains-fold_overwrites b.effective chain rows p,
      ancestor_chain_from_map_lem db id t.unique,
      cascade-fetch_overwrites db (channel_ids db) (role_ids b.roles) p (lineage db id)
          (contains b.effective p)
          (h, All-climb (channel_ids db) db.channels depth_cap id t.parents),
    )

-- The batch in closed form.
pub contains-channels_with_permission :
    (db : Db) (u p id : String)
    → IsChannelTree db
    → contains (channels_with_permission db u p) id ≡ (
        contains (channel_ids db) id
        && ((user_permissions db u).is_owner
            || (not (contains (banned_channels db u) id) && cascaded db u id p)))
unfolding channels_with_permission
contains-channels_with_permission db u p id t =
    let b : UserPermissions = user_permissions db u in
    let banned = contains (banned_channels db u) id in
    ground (
      arith,
      channel_allows_lem db u p id t,
      contains-retain (channel_allows db u p) (channel_ids db) id,
      contains-retain (λ j. contains b.effective p && not (contains (banned_channels db u) j))
          (channel_ids db) id,
      cascade-no_roles db.overwrites p (lineage db id) (contains b.effective p),
    )

-- Where the channel ids are unique and every parent is a channel, the batch lists a channel of the
-- hub exactly when the resolver of that channel grants the permission, and lists nothing else.
pub channels_with_permission-agrees :
    (db : Db) (u p id : String)
    → IsChannelTree db
    → contains (channels_with_permission db u p) id
      ≡ (contains (channel_ids db) id && has (channel_permissions db u id) p)
channels_with_permission-agrees db u p id t =
    contains-channels_with_permission db u p id t
    ∙ ap (λ b. contains (channel_ids db) id && b) (sym (has-channel_permissions db u id p))
