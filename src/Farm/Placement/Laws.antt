-- ===== src/Farm/Placement/Laws.antt =====
-- Where a new hub is placed when no server is asked for.
use mathlib.Core.List.{Memᴰ}
use mathlib.Core.Path.{subst}
use wavvon_server.Base.{
  ◌≡◌, ◌+◌, ◌-◌, ◌^◌, ◌==◌, ltb, Bool, not, ◌&&◌, ◌||◌, refl, ◌∙◌, sym, ap, true, false, List, [],
  ◌∷◌, arith, none, some, Option-cases, Bool-cases, inl, inr, retain, All, if◌then◌else◌,
}
use wavvon_server.Farm.Placement.{
  Node, Placement, has_room, free, is_agent, key_less, max_by_key, choose,
}

-- There is a free slot, or no limit.
abbrev pub is_vacant : Node → Bool
is_vacant n = elim n.capacity [ none ↦ true | some c ↦ ltb n.in_use c ]

-- `m` has more free slots than `n`: without a limit more than with one.
abbrev pub is_roomier : Node → Node → Bool
is_roomier m n = elim m.capacity [
  | none ↦ elim n.capacity [ none ↦ false | some c ↦ true ]
  | some b ↦ elim n.capacity [ none ↦ false | some c ↦ ltb (c + m.in_use) (b + n.in_use) ]
]

-- As many free slots.
abbrev pub is_as_roomy : Node → Node → Bool
is_as_roomy m n = elim m.capacity [
  | none ↦ elim n.capacity [ none ↦ true | some c ↦ false ]
  | some b ↦ elim n.capacity [ none ↦ false | some c ↦ b + n.in_use == c + m.in_use ]
]

-- The node is the farm's own process.
abbrev pub is_farm : Node → Bool
is_farm n = elim n.server_id [ none ↦ true | some id ↦ false ]

-- `m` is to be preferred: it has more free slots, or as many and is an agent where `n` is the farm.
abbrev pub is_better : Node → Node → Bool
is_better m n = is_roomier m n || (is_as_roomy m n && (not (is_farm m) && is_farm n))

-- Every limit is below the number of slots that stands for none.
abbrev pub AreLimited : List Node → Type 0
AreLimited = All (λ n. elim n.capacity [ none ↦ true | some c ↦ ltb c (2 ^ 63 - 1) ] ≡ true)

-- The node is one of the farm's, with room; of the others with room none is better.
abbrev pub IsBest : List Node → Node → Type 0
IsBest nodes n =
    Memᴰ n nodes
    × (is_vacant n ≡ true)
    × All (λ m. is_vacant m ≡ true → is_better m n ≡ false) nodes

-- The order of the keys, on nodes with room and within the limits.
is_better-key_less :
    (m n : Node)
    → is_vacant m ≡ true
    → is_vacant n ≡ true
    → elim m.capacity [ none ↦ true | some c ↦ ltb c (2 ^ 63 - 1) ] ≡ true
    → elim n.capacity [ none ↦ true | some c ↦ ltb c (2 ^ 63 - 1) ] ≡ true
    → key_less n m ≡ false
    → is_better m n ≡ false
unfolding key_less free is_agent
is_better-key_less m n vm vn lm ln h = elim (Option-cases m.capacity) [
  | inl e ↦ elim (Option-cases n.capacity) [ inl k ↦ ground arith | inr (c, k) ↦ ground arith ]
  | inr (b, e) ↦ elim (Option-cases n.capacity) [ inl k ↦ ground arith | inr (c, k) ↦ ground arith ]
]

All-Mem :
    (nodes : List Node) (n : Node)
    → AreLimited nodes
    → Memᴰ n nodes
    → elim n.capacity [ none ↦ true | some c ↦ ltb c (2 ^ 63 - 1) ] ≡ true
All-Mem [] n a d = elim d [ ]
All-Mem (k ∷ nodes) n a (Memᴰ.head same) =
    ap (λ x. elim x.capacity [ none ↦ true | some c ↦ ltb c (2 ^ 63 - 1) ]) same ∙ a.0
All-Mem (k ∷ nodes) n a (Memᴰ.tail d) = All-Mem nodes n a.1 d

key_less_trans : (a b c : Node) → key_less b a ≡ false → key_less c b ≡ false → key_less c a ≡ false
unfolding key_less free is_agent
key_less_trans a b c h k = ground arith

key_less_refl : (a : Node) → key_less a a ≡ false
unfolding key_less free is_agent
key_less_refl a = ground arith

key_less_asymm : (a b : Node) → key_less a b ≡ true → key_less b a ≡ false
unfolding key_less free is_agent
key_less_asymm a b h = ground arith

All-key_less :
    (n m : Node)
    → key_less m n ≡ true
    → (ns : List Node) → All (λ k. key_less m k ≡ false) ns
    → All (λ k. key_less n k ≡ false) ns
All-key_less n m h [] a = tt
All-key_less n m h (k ∷ ns) a =
    (key_less_trans k m n a.0 (key_less_asymm m n h), All-key_less n m h ns a.1)

pub max_by_key-none : (ns : List Node) → max_by_key ns ≡ none → ns ≡ []
unfolding max_by_key
max_by_key-none [] h = refl
max_by_key-none (n ∷ ns) h =
    absurd
      (elim (Option-cases (max_by_key ns)) [ inl p ↦ ground arith | inr (y, p) ↦ ground arith ])

max_by_key-best :
    (ns : List Node) (n : Node)
    → max_by_key ns ≡ some n
    → Memᴰ n ns × All (λ m. key_less n m ≡ false) ns
unfolding max_by_key
max_by_key-best [] n e = cc
max_by_key-best (k ∷ ns) n e = elim (Option-cases (max_by_key ns)) [
  | inl h ↦
      let same : k ≡ n = ground arith in
      (
        Memᴰ.head (sym same),
        (
          ap (λ x. key_less x k) (sym same) ∙ key_less_refl k,
          subst (λ xs. All (λ m. key_less n m ≡ false) xs) (sym (max_by_key-none ns h)) tt,
        ),
      )
  | inr (m, h) ↦
      let (found, best) = max_by_key-best ns m h in
      elim (Bool-cases (key_less m k)) [
        | inl less ↦
            let same : k ≡ n = ground arith in
            (
              Memᴰ.head (sym same),
              (
                ap (λ x. key_less x k) (sym same) ∙ key_less_refl k,
                subst (λ x. All (λ j. key_less x j ≡ false) ns) same
                    (All-key_less k m less ns best),
              ),
            )
        | inr not_less ↦
            let same : m ≡ n = ground arith in
            (
              Memᴰ.tail (subst (λ x. Memᴰ x ns) same found),
              (
                subst (λ x. key_less x k ≡ false) same not_less,
                subst (λ x. All (λ j. key_less x j ≡ false) ns) same best,
              ),
            )
      ]
]

retained-cons :
    (n k : Node) (ns xs : List Node)
    → has_room k ≡ true
    → (Memᴰ n xs → Memᴰ n ns × (has_room n ≡ true))
    → Memᴰ n (k ∷ xs)
    → Memᴰ n (k ∷ ns) × (has_room n ≡ true)
retained-cons n k ns xs e more (Memᴰ.head same) = (Memᴰ.head same, ap has_room same ∙ e)
retained-cons n k ns xs e more (Memᴰ.tail d) = let (found, room) = more d in (Memᴰ.tail found, room)

Memᴰ-retain :
    (n : Node) (ns : List Node) → Memᴰ n (retain has_room ns) → Memᴰ n ns × (has_room n ≡ true)
Memᴰ-retain n [] m = elim m [ ]
Memᴰ-retain n (k ∷ ns) m = elim (Bool-cases (has_room k)) [
  | inl e ↦
      retained-cons n k ns (retain has_room ns) e (λ d. Memᴰ-retain n ns d)
        (subst (λ b. Memᴰ n (if b then k ∷ retain has_room ns else retain has_room ns)) e m)
  | inr e ↦
      let (found, room) =
        Memᴰ-retain n ns
          (subst (λ b. Memᴰ n (if b then k ∷ retain has_room ns else retain has_room ns)) e m) in
      (Memᴰ.tail found, room)
]

All-retain :
    (n : Node) (ns : List Node)
    → All (λ m. key_less n m ≡ false) (retain has_room ns)
    → All (λ m. has_room m ≡ true → key_less n m ≡ false) ns
All-retain n [] a = tt
All-retain n (k ∷ ns) a = elim (Bool-cases (has_room k)) [
  | inl e ↦
      let b : All (λ m. key_less n m ≡ false) (k ∷ retain has_room ns) = rw e at a in
      (λ room. b.0, All-retain n ns b.1)
  | inr e ↦
      let b : All (λ m. key_less n m ≡ false) (retain has_room ns) = rw e at a in
      (λ room. cc, All-retain n ns b)
]

All-is_better :
    (n : Node) (nodes : List Node)
    → is_vacant n ≡ true
    → elim n.capacity [ none ↦ true | some c ↦ ltb c (2 ^ 63 - 1) ] ≡ true
    → AreLimited nodes
    → All (λ m. has_room m ≡ true → key_less n m ≡ false) nodes
    → All (λ m. is_vacant m ≡ true → is_better m n ≡ false) nodes
unfolding has_room
All-is_better n [] v l a b = tt
All-is_better n (m ∷ nodes) v l a b =
    (λ vm. is_better-key_less m n vm v a.0 l (b.0 vm), All-is_better n nodes v l a.1 b.1)

-- Where no server is asked for, the node that is chosen is one of the nodes with room, and none of
-- those has more free slots, where no limit counts as more than any limit; nor is one with as many
-- an agent where the chosen is the farm itself. Limits are below the largest `i64`.
pub choose-IsBest :
    (nodes : List Node) (n : Node)
    → AreLimited nodes
    → choose nodes none ≡ Placement.placed n
    → IsBest nodes n
unfolding choose has_room
choose-IsBest nodes n l h = elim (Option-cases (max_by_key (retain has_room nodes))) [
  | inl e ↦ absurd (ground arith)
  | inr (m, e) ↦
      let same : m ≡ n = ground arith in
      let (found, best) = max_by_key-best (retain has_room nodes) n (e ∙ ap some same) in
      let (here, room) = Memᴰ-retain n nodes found in
      (here, room, All-is_better n nodes room (All-Mem nodes n l here) l (All-retain n nodes best))
]
