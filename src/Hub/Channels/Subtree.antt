-- ===== src/Hub/Channels/Subtree.antt =====
-- About the rounds of `channel_subtree_ids`.
use wavvon_server.Base.{
  ℕ, suc, ◌≤◌, String, Bool, true, false, not, ◌&&◌, ◌||◌, ◌≡◌, refl, ◌∙◌, sym, List, [], ◌∷◌, ◌++◌,
  inl, inr, arith, str_eq, eq_iff, any, all, contains, length, retain, Bool-cases, Option-cases,
}
use wavvon_server.Hub.Db.{ChannelRow}
use wavvon_server.Hub.Channels.Walks.{is_child_of, children, unseen}

contains-append :
    (xs ys : List String) (x : String) → contains (xs ++ ys) x ≡ (contains xs x || contains ys x)
contains-append [] ys x = refl
contains-append (z ∷ xs) ys x = ground (arith, contains-append xs ys x)

-- Nothing that a round finds is lost: it was seen, or is new.
contains-unseen :
    (seen ids : List String) (x : String)
    → contains ids x ≡ true
    → (contains (unseen seen ids) x || contains seen x) ≡ true
unfolding unseen
contains-unseen seen [] x h = cc
contains-unseen seen (c ∷ ids) x h =
    ground (arith, eq_iff c x, contains-unseen seen ids x, contains-unseen (c ∷ seen) ids x)

-- How many of the rows are not seen yet.
abbrev pub left : List ChannelRow → List String → ℕ
left rows seen = length (retain (λ c. not (contains seen c.id)) rows)

left-cons :
    (rows : List ChannelRow) (x : String) (seen : List String)
    → left rows (x ∷ seen) ≤ left rows seen
left-cons [] x seen = omega arith
left-cons (c ∷ rows) x seen = ground (arith, left-cons rows x seen)

left-less :
    (rows : List ChannelRow) (x : String) (seen : List String)
    → any (λ c. str_eq c.id x) rows ≡ true
    → contains seen x ≡ false
    → suc (left rows (x ∷ seen)) ≤ left rows seen
left-less [] x seen h e = cc
left-less (c ∷ rows) x seen h e =
    ground (arith, eq_iff c.id x, left-cons rows x seen, left-less rows x seen)

left-subset :
    (rows : List ChannelRow) (xs ys : List String)
    → ((x : String) → contains xs x ≡ true → contains ys x ≡ true)
    → left rows ys ≤ left rows xs
left-subset [] xs ys h = omega arith
left-subset (c ∷ rows) xs ys h = ground (arith, h c.id, left-subset rows xs ys h)

unseen-head :
    (seen ids : List String) (x : String) (xs : List String)
    → unseen seen ids ≡ x ∷ xs
    → (contains seen x ≡ false) × (contains ids x ≡ true)
unfolding unseen
unseen-head seen [] x xs h = cc
unseen-head seen (c ∷ ids) x xs h = elim (Bool-cases (contains seen c)) [
  | inl e ↦ let (new, here) = unseen-head seen ids x xs (ground arith) in (new, ground arith)
  | inr e ↦ (ground arith, ground (arith, eq_iff c x))
]

contains-children :
    (rows : List ChannelRow) (ids : List String) (x : String)
    → contains (children rows ids) x ≡ any (λ c. str_eq c.id x && is_child_of ids c) rows
contains-children [] ids x = refl
contains-children (c ∷ rows) ids x = ground (arith, contains-children rows ids x)

any-both :
    (rows : List ChannelRow) (ids : List String) (x : String)
    → any (λ c. str_eq c.id x && is_child_of ids c) rows ≡ true
    → any (λ c. str_eq c.id x) rows ≡ true
any-both [] ids x h = cc
any-both (c ∷ rows) ids x h = ground (arith, any-both rows ids x)

-- A round that finds a channel leaves fewer of them.
pub left-round :
    (rows : List ChannelRow) (seen frontier : List String) (x : String) (xs : List String)
    → unseen seen (children rows frontier) ≡ x ∷ xs
    → suc (left rows ((x ∷ xs) ++ seen)) ≤ left rows seen
left-round rows seen frontier x xs h =
    let (new, found) = unseen-head seen (children rows frontier) x xs h in
    omega (
      arith,
      left-less rows x seen
          (any-both rows frontier x (sym (contains-children rows frontier x) ∙ found)) new,
      left-subset rows (x ∷ seen) ((x ∷ xs) ++ seen)
          (λ y e. ground (arith, contains-append xs seen y)),
    )

-- A row whose parent has been seen has been seen, or hangs on the last round.
abbrev pub is_swept : List String → List String → ChannelRow → Bool
is_swept seen frontier c =
    not (is_child_of seen c) || (contains seen c.id || is_child_of frontier c)

-- Every row whose parent is among the ids is among them.
abbrev pub is_closed : List ChannelRow → List String → Bool
is_closed rows ids = all (λ c. not (is_child_of ids c) || contains ids c.id) rows

is_child_of-append :
    (xs ys : List String) (c : ChannelRow)
    → is_child_of (xs ++ ys) c ≡ (is_child_of xs c || is_child_of ys c)
is_child_of-append xs ys c = elim (Option-cases c.parent_id) [
  | inl e ↦ ground arith
  | inr (p, e) ↦ ground (arith, contains-append xs ys p)
]

pub all-swept :
    (all_rows rows : List ChannelRow) (seen frontier : List String)
    → ((x : String)
        → any (λ c. str_eq c.id x && is_child_of frontier c) rows ≡ true
        → any (λ c. str_eq c.id x && is_child_of frontier c) all_rows ≡ true)
    → all (is_swept seen frontier) rows ≡ true
    → all
        (is_swept
          (unseen seen (children all_rows frontier) ++ seen)
          (unseen seen (children all_rows frontier)))
        rows
      ≡ true
all-swept all_rows [] seen frontier sub h = refl
all-swept all_rows (c ∷ rows) seen frontier sub h = ground (
  arith,
  sub c.id,
  eq_iff c.id c.id,
  contains-children all_rows frontier c.id,
  contains-unseen seen (children all_rows frontier) c.id,
  contains-append (unseen seen (children all_rows frontier)) seen c.id,
  is_child_of-append (unseen seen (children all_rows frontier)) seen c,
  all-swept all_rows rows seen frontier (λ x e. sub x (ground arith)),
)
