-- ===== src/Hub/Permissions/Cascade.antt =====
-- The channel overwrites of crates/hub/src/permissions.rs: the ancestor chain and the fold.
pub mod Laws
pub mod Rows
use wavvon_server.Base.{
  ℕ, zero, suc, String, Bool, true, false, ◌&&◌, ◌||◌, List, [], ◌∷◌, map, reverse, Option, none,
  some, str_eq, contains, insert, remove, find, retain, is_empty, if◌then◌else◌,
}
use wavvon_server.Hub.Db.{Db, ChannelRow, OverwriteRow}

-- `SELECT parent_id FROM channels WHERE id = $1`, flattened.
unfoldable pub parent_of : List ChannelRow → String → Option String
parent_of channels id = elim (find (λ c. str_eq c.id id) channels) [
  | none ↦ none
  | some c ↦ c.parent_id
]

-- What the loop pushes in `n` rounds: the ancestors of `current`, the nearest first.
unfoldable pub climb : ℕ → (String → Option String) → String → List String
climb zero parent current = []
climb (suc n) parent current = elim (parent current) [ none ↦ [] | some p ↦ p ∷ climb n parent p ]

-- The loop walks at most 64 links.
abbrev pub depth_cap : ℕ
depth_cap = 64

unfoldable pub ancestor_chain : Db → String → List String
unfolding parent_of climb
ancestor_chain db channel_id =
    reverse (channel_id ∷ climb depth_cap (parent_of db.channels) channel_id)

-- `HashMap<String, Option<String>>`: `none` is a missing key.
abbrev pub ParentMap : Type 0
ParentMap = String → Option (Option String)

-- `iter().cloned().collect()`: the pairs are inserted in their order.
unfoldable pub collect_parents : List ChannelRow → ParentMap → ParentMap
collect_parents [] m = m
collect_parents (c ∷ cs) m =
    collect_parents cs (λ k. if str_eq c.id k then some c.parent_id else m k)

abbrev pub flatten : Option (Option String) → Option String
flatten none = none
flatten (some p) = p

unfoldable pub ancestor_chain_from_map : ParentMap → String → List String
unfolding climb
ancestor_chain_from_map m channel_id =
    reverse (channel_id ∷ climb depth_cap (λ k. flatten (m k)) channel_id)

unfoldable pub fetch_overwrites : Db → List String → List String → List OverwriteRow
fetch_overwrites db channel_ids role_ids =
    if is_empty channel_ids || is_empty role_ids
    then []
    else retain (λ r. contains channel_ids r.channel_id && contains role_ids r.role_id)
        db.overwrites

-- The sets `allow` and `deny` of one level.
pub record Level : Type 0 where
  pub allow : List String
  pub deny : List String

unfoldable pub add_row : OverwriteRow → Level → Level
add_row row l =
    if row.allow
    then record l { allow = insert row.permission l.allow }
    else record l { deny = insert row.permission l.deny }

unfoldable pub collect_level : String → List OverwriteRow → Level → Level
unfolding add_row
collect_level channel_id [] l = l
collect_level channel_id (row ∷ rows) l =
    collect_level channel_id rows (if str_eq row.channel_id channel_id then add_row row l else l)

unfoldable pub drop_denied : List String → List String → List String → List String
drop_denied [] allow effective = effective
drop_denied (p ∷ deny) allow effective =
    drop_denied deny allow (if contains allow p then effective else remove p effective)

unfoldable pub add_allowed : List String → List String → List String
add_allowed [] effective = effective
add_allowed (p ∷ allow) effective = add_allowed allow (insert p effective)

-- One round of the fold.
unfoldable pub apply_level : List OverwriteRow → List String → String → List String
unfolding collect_level drop_denied add_allowed
apply_level rows effective channel_id =
    let l : Level = collect_level channel_id rows (record { allow = []; deny = [] }) in
    add_allowed l.allow (drop_denied l.deny l.allow effective)

unfoldable pub fold_overwrites : List String → List String → List OverwriteRow → List String
unfolding apply_level
fold_overwrites effective [] rows = effective
fold_overwrites effective (c ∷ chain) rows =
    fold_overwrites (apply_level rows effective c) chain rows
