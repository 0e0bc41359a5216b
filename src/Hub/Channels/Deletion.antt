-- ===== src/Hub/Channels/Deletion.antt =====
-- About `delete_channel`: the children of what is deleted, and the references to it.
use wavvon_server.Base.{
  ℕ, zero, suc, ◌+◌, ◌≤◌, ◌<◌, String, Bool, true, false, not, ◌||◌, ◌≡◌, refl, List, [], ◌∷◌, ◌++◌,
  none, some, ◌⊎◌, inl, inr, arith, str_eq, eq_iff, any, all, contains, length, retain,
  Option-cases,
}
use wavvon_server.Http.{Result-cases}
use wavvon_server.Hub.Db.{Db, ChannelRow}
use wavvon_server.Hub.Channels.Walks.{is_child_of, children, unseen, descend, channel_subtree_ids}
use wavvon_server.Hub.Channels.Subtree.{left, left-round, is_swept, is_closed, all-swept}
use wavvon_server.Hub.Channels.{delete_channels, delete_channel, check_delete_channel}

all-swept_empty :
    (rows : List ChannelRow) (seen : List String)
    → all (is_swept seen []) rows ≡ true
    → is_closed rows seen ≡ true
all-swept_empty [] seen h = refl
all-swept_empty (c ∷ rows) seen h = elim (Option-cases c.parent_id) [
  | inl e ↦ ground (arith, all-swept_empty rows seen)
  | inr (p, e) ↦ ground (arith, all-swept_empty rows seen)
]

-- The rounds that are left are enough.
abbrev IsFuelled : ℕ → List ChannelRow → List String → List String → Type 0
IsFuelled n rows seen frontier = (frontier ≡ []) ⊎ (left rows seen < n)

descend-closed :
    (n : ℕ) (rows : List ChannelRow) (seen frontier : List String)
    → IsFuelled n rows seen frontier
    → all (is_swept seen frontier) rows ≡ true
    → is_closed rows (descend n rows seen frontier) ≡ true
unfolding descend
descend-closed zero rows seen frontier (inl e) h = all-swept_empty rows seen (rw e at h)
descend-closed zero rows seen frontier (inr l) h = absurd (omega arith)
descend-closed (suc n) rows seen [] f h = all-swept_empty rows seen h
descend-closed (suc n) rows seen (q ∷ frontier) (inl e) h = cc
descend-closed (suc n) rows seen (q ∷ frontier) (inr l) h =
    descend-closed n rows (next ++ seen) next (fuelled next refl)
      (all-swept rows rows seen (q ∷ frontier) (λ x e. e) h)
  where
    next : List String
    next = unseen seen (children rows (q ∷ frontier))

    fuelled :
        (new : List String)
        → unseen seen (children rows (q ∷ frontier)) ≡ new
        → IsFuelled n rows (new ++ seen) new
    fuelled [] e = inl refl
    fuelled (x ∷ xs) e = inr (omega (arith, l, left-round rows seen (q ∷ frontier) x xs e))

length-retain {ℓ} : {A : Type ℓ} (f : A → Bool) (xs : List A) → length (retain f xs) ≤ length xs
length-retain f [] = omega arith
length-retain f (x ∷ xs) = ground (arith, length-retain f xs)

all-root :
    (root : String) (rows : List ChannelRow) → all (is_swept (root ∷ []) (root ∷ [])) rows ≡ true
all-root root [] = refl
all-root root (c ∷ rows) = ground (arith, all-root root rows)

-- The rounds that the model allows are enough: the ids that `channel_subtree_ids` collects are
-- closed, whatever the rows, also where they form a cycle.
channel_subtree_ids-closed :
    (db : Db) (root : String) → is_closed db.channels (channel_subtree_ids db root) ≡ true
unfolding channel_subtree_ids
channel_subtree_ids-closed db root =
    descend-closed (length db.channels + 2) db.channels (root ∷ []) (root ∷ [])
      (inr (omega (arith, length-retain (λ c. not (contains (root ∷ []) c.id)) db.channels)))
      (all-root root db.channels)

-- A parent is a channel: `parent_id` references `channels`.
abbrev pub has_parent : List ChannelRow → ChannelRow → Bool
has_parent rows c = elim c.parent_id [ none ↦ true | some p ↦ any (λ d. str_eq d.id p) rows ]

any-kept :
    (ids : List String) (p : String) (rows : List ChannelRow)
    → contains ids p ≡ false
    → any (λ d. str_eq d.id p) rows ≡ true
    → any (λ d. str_eq d.id p) (retain (λ c. not (contains ids c.id)) rows) ≡ true
any-kept ids p [] k h = cc
any-kept ids p (c ∷ rows) k h = ground (arith, eq_iff c.id p, any-kept ids p rows k)

has_parent-kept :
    (ids : List String) (rows : List ChannelRow) (c : ChannelRow)
    → (not (is_child_of ids c) || contains ids c.id) ≡ true
    → contains ids c.id ≡ false
    → has_parent rows c ≡ true
    → has_parent (retain (λ d. not (contains ids d.id)) rows) c ≡ true
has_parent-kept ids rows c k stays h = elim (Option-cases c.parent_id) [
  | inl e ↦ ground arith
  | inr (p, e) ↦ ground (arith, any-kept ids p rows)
]

all-kept :
    (ids : List String) (all_rows rows : List ChannelRow)
    → is_closed rows ids ≡ true
    → all (has_parent all_rows) rows ≡ true
    → all
        (has_parent (retain (λ d. not (contains ids d.id)) all_rows))
        (retain (λ d. not (contains ids d.id)) rows)
      ≡ true
all-kept ids all_rows [] k h = refl
all-kept ids all_rows (c ∷ rows) k h =
    ground (arith, has_parent-kept ids all_rows c, all-kept ids all_rows rows)

-- The channels, and what hangs on them, refer to channels that exist.
pub record IsReferring (db : Db) : Type 0 where
  pub parents : all (has_parent db.channels) db.channels ≡ true
  pub bans : all (λ b. any (λ c. str_eq c.id b.channel_id) db.channels) db.channel_bans ≡ true
  pub settings :
      all (λ s. any (λ c. str_eq c.id s.channel_id) db.channels) db.channel_settings ≡ true
  pub overwrites : all (λ o. any (λ c. str_eq c.id o.channel_id) db.channels) db.overwrites ≡ true
  pub attachments : all (λ a. any (λ c. str_eq c.id a.channel_id) db.channels) db.attachments ≡ true

all-referring {ℓ} :
    {A : Type ℓ} (f : A → String) (ids : List String) (rows : List ChannelRow) (xs : List A)
    → all (λ x. any (λ c. str_eq c.id (f x)) rows) xs ≡ true
    → all
        (λ x. any (λ c. str_eq c.id (f x)) (retain (λ c. not (contains ids c.id)) rows))
        (retain (λ x. not (contains ids (f x))) xs)
      ≡ true
all-referring f ids rows [] h = refl
all-referring f ids rows (x ∷ xs) h =
    ground (arith, any-kept ids (f x) rows, all-referring f ids rows xs)

IsReferring-delete_channels :
    (ids : List String) (db : Db)
    → is_closed db.channels ids ≡ true
    → IsReferring db
    → IsReferring (delete_channels ids db)
unfolding delete_channels
IsReferring-delete_channels ids db k r = record {
  parents = all-kept ids db.channels db.channels k r.parents;
  bans = all-referring (λ b. b.channel_id) ids db.channels db.channel_bans r.bans;
  settings = all-referring (λ s. s.channel_id) ids db.channels db.channel_settings r.settings;
  overwrites = all-referring (λ o. o.channel_id) ids db.channels db.overwrites r.overwrites;
  attachments = all-referring (λ a. a.channel_id) ids db.channels db.attachments r.attachments;
}

-- Where every parent, channel ban, setting, overwrite and attachment refers to a channel that
-- exists, that is so after `delete_channel`, whatever it answers: no reference is left behind.
pub delete_channel-IsReferring :
    (user x : String) (db : Db) → IsReferring db → IsReferring (delete_channel user x db).0
unfolding delete_channel
delete_channel-IsReferring user x db r = elim (Result-cases (check_delete_channel user x db)) [
  | inl (w, e) ↦
      rw (e, delete_channel)
        (IsReferring-delete_channels (channel_subtree_ids db x) db (channel_subtree_ids-closed db x)
          r)
  | inr (y, e) ↦ rw (e, delete_channel) r
]
