-- ===== src/Farm/Placement.antt =====
-- crates/farm/src/placement.rs. The counts of hubs are natural numbers; a node without room is
-- left out before its free slots are counted, so the difference is no less than one.
pub mod Laws
mod Requests
use wavvon_server.Base.{
  ℕ, ◌-◌, ◌^◌, String, Bool, true, false, List, [], ◌∷◌, Option, none, some, str_eq, ltb, ◌==◌,
  ◌||◌, ◌&&◌, find, retain, if◌then◌else◌,
}

-- `server_id` is absent for the farm's own process.
pub record Node : Type 0 where
  pub server_id : Option String
  pub in_use : ℕ
  pub capacity : Option ℕ

unfoldable pub has_room : Node → Bool
has_room n = elim n.capacity [ none ↦ true | some cap ↦ ltb n.in_use cap ]

unfoldable pub free : Node → ℕ
free n = elim n.capacity [ none ↦ 2 ^ 63 - 1 | some cap ↦ cap - n.in_use ]

pub data PlacementError : Type 0 where
  unknown_server server_full no_capacity : PlacementError

pub data Placement : Type 0 where
  placed : Node → Placement
  refused : PlacementError → Placement

-- `server_id.is_some()`
unfoldable pub is_agent : Node → Bool
is_agent n = elim n.server_id [ none ↦ false | some id ↦ true ]

-- The order of the keys `(free, is_some)`: whether that of `m` is less than that of `n`.
unfoldable pub key_less : Node → Node → Bool
unfolding free is_agent
key_less m n =
    ltb (free m) (free n) || (free m == free n && (if is_agent m then false else is_agent n))

-- `max_by_key`: the last of the greatest.
unfoldable pub max_by_key : List Node → Option Node
unfolding key_less
max_by_key [] = none
max_by_key (n ∷ ns) = elim (max_by_key ns) [
  | none ↦ some n
  | some m ↦ some (if key_less m n then n else m)
]

-- `server_id.as_deref() == Some(id)`
unfoldable pub is_server : String → Node → Bool
is_server id n = elim n.server_id [ none ↦ false | some s ↦ str_eq s id ]

unfoldable pub choose : List Node → Option String → Placement
unfolding has_room max_by_key is_server
choose nodes (some id) = elim (find (is_server id) nodes) [
  | none ↦ Placement.refused PlacementError.unknown_server
  | some n ↦ if has_room n then Placement.placed n else Placement.refused PlacementError.server_full
]
choose nodes none = elim (max_by_key (retain has_room nodes)) [
  | none ↦ Placement.refused PlacementError.no_capacity
  | some n ↦ Placement.placed n
]
