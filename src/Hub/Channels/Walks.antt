-- ===== src/Hub/Channels/Walks.antt =====
-- The walks of crates/hub/src/routes/channels.rs over the tree of channels: up to the root, and
-- down through all descendants.
use wavvon_server.Base.{
  ℕ, zero, suc, ◌+◌, ltb, String, Bool, true, false, List, [], ◌∷◌, ◌++◌, map, Option, none, some,
  str_eq, find, contains, retain, length, is_empty, if◌then◌else◌,
}
use wavvon_server.Base.Chars.{chars, parse_u32}
use wavvon_server.Http.{Result, ok, fail, bad_request}
use wavvon_server.Hub.Db.{Db, ChannelRow}
use wavvon_server.Hub.Permissions.Cascade.{parent_of}

-- The loop of `node_depth`, in at most `n` rounds; the depth grows by 1 in each, and is cut off at
-- 50.
unfoldable pub depth_from : ℕ → (String → Option String) → ℕ → String → Result ℕ
depth_from zero parent depth current = fail bad_request "Channel nesting depth exceeds safety limit"
depth_from (suc n) parent depth current = elim (parent current) [
  | none ↦ ok depth
  | some p ↦
      let rest = depth_from n parent (depth + 1) p in
      if ltb 50 (depth + 1)
      then fail bad_request "Channel nesting depth exceeds safety limit"
      else rest
]

unfoldable pub node_depth : Db → Option String → Result ℕ
unfolding parent_of depth_from
node_depth db none = ok 0
node_depth db (some pid) = depth_from 50 (parent_of db.channels) 1 pid

-- The loop of `is_ancestor`, of `n` rounds.
unfoldable pub is_above : ℕ → (String → Option String) → String → String → Bool
is_above zero parent candidate current = false
is_above (suc n) parent candidate current = elim (parent current) [
  | none ↦ false
  | some p ↦ let rest = is_above n parent candidate p in if str_eq p candidate then true else rest
]

unfoldable pub is_ancestor : Db → String → String → Bool
unfolding parent_of is_above
is_ancestor db candidate start = is_above 50 (parent_of db.channels) candidate start

-- The parent is among the ids: `parent_id = ANY($1)`.
abbrev pub is_child_of : List String → ChannelRow → Bool
is_child_of ids c = elim c.parent_id [ none ↦ false | some p ↦ contains ids p ]

abbrev pub children : List ChannelRow → List String → List String
children rows ids = map (λ c. c.id) (retain (is_child_of ids) rows)

-- `filter(|c| seen.insert(c.clone()))`: the new ones, each once.
unfoldable pub unseen : List String → List String → List String
unseen seen [] = []
unseen seen (c ∷ cs) =
    let skipped = unseen seen cs in
    let taken = unseen (c ∷ seen) cs in if contains seen c then skipped else c ∷ taken

-- The loop of `channel_subtree_ids`, in at most `n` rounds.
unfoldable pub descend : ℕ → List ChannelRow → List String → List String → List String
unfolding unseen
descend zero rows seen frontier = seen
descend (suc n) rows seen frontier =
    let next = unseen seen (children rows frontier) in
    let rest = descend n rows (next ++ seen) next in if is_empty frontier then seen else rest

-- A hub of `n` channels needs at most `n + 2` rounds.
unfoldable pub channel_subtree_ids : Db → String → List String
unfolding descend
channel_subtree_ids db root = descend (length db.channels + 2) db.channels (root ∷ []) (root ∷ [])

-- `read_max_depth`: 0, which is no limit, where the setting is missing or no number.
unfoldable pub read_max_depth : Db → ℕ
unfolding parse_u32
read_max_depth db = elim (find (λ s. str_eq s.key "max_channel_depth") db.hub_settings) [
  | none ↦ 0
  | some s ↦ elim (parse_u32 (chars s.value)) [ none ↦ 0 | some n ↦ n ]
]
