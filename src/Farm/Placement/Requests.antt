-- ===== src/Farm/Placement/Requests.antt =====
-- About refusals, and the server that is asked for.
use mathlib.Core.List.{Memᴰ}
use wavvon_server.Base.{
  ◌≡◌, ◌∙◌, sym, ap, String, true, false, List, [], ◌∷◌, arith, none, some, Option-cases,
  Bool-cases, inl, inr, find, retain, All, str_eq→≡,
}
use wavvon_server.Farm.Placement.{
  Node, Placement, PlacementError, has_room, max_by_key, is_server, choose,
}
use wavvon_server.Farm.Placement.Laws.{max_by_key-none}

retain-empty : (ns : List Node) → retain has_room ns ≡ [] → All (λ m. has_room m ≡ false) ns
retain-empty [] h = tt
retain-empty (n ∷ ns) h = elim (Bool-cases (has_room n)) [
  | inl e ↦ absurd (ground arith)
  | inr e ↦ (e, retain-empty ns (ground arith))
]

-- Where no server is asked for, a refusal says that there is no capacity, and then no node has
-- room: a hub is never refused while there is room for it.
choose-refused :
    (nodes : List Node) (x : PlacementError)
    → choose nodes none ≡ Placement.refused x
    → (x ≡ PlacementError.no_capacity) × All (λ m. has_room m ≡ false) nodes
unfolding choose
choose-refused nodes x h = elim (Option-cases (max_by_key (retain has_room nodes))) [
  | inl e ↦ (ground arith, retain-empty nodes (max_by_key-none (retain has_room nodes) e))
  | inr (m, e) ↦ absurd (ground arith)
]

is_server-eq : (id : String) (n : Node) → is_server id n ≡ true → n.server_id ≡ some id
unfolding is_server
is_server-eq id n h = elim (Option-cases n.server_id) [
  | inl e ↦ absurd (ground arith)
  | inr (s, e) ↦ e ∙ ap some (str_eq→≡ s id (ground arith))
]

find-server :
    (id : String) (nodes : List Node) (n : Node)
    → find (is_server id) nodes ≡ some n
    → Memᴰ n nodes × (n.server_id ≡ some id)
find-server id [] n h = cc
find-server id (k ∷ nodes) n h = elim (Bool-cases (is_server id k)) [
  | inl e ↦
      let same : k ≡ n = ground arith in
      (Memᴰ.head (sym same), is_server-eq id n (ap (is_server id) (sym same) ∙ e))
  | inr e ↦ let (found, named) = find-server id nodes n (ground arith) in (Memᴰ.tail found, named)
]

-- A server that is asked for is honoured or refused: the node that is chosen is that server, one
-- of the nodes, and has room.
choose-requested :
    (nodes : List Node) (id : String) (n : Node)
    → choose nodes (some id) ≡ Placement.placed n
    → Memᴰ n nodes × (n.server_id ≡ some id) × (has_room n ≡ true)
unfolding choose
choose-requested nodes id n h = elim (Option-cases (find (is_server id) nodes)) [
  | inl e ↦ absurd (ground arith)
  | inr (m, e) ↦
      let same : m ≡ n = ground arith in
      let room : has_room m ≡ true = ground arith in
      let (found, named) = find-server id nodes n (e ∙ ap some same) in
      (found, named, ap has_room (sym same) ∙ room)
]
