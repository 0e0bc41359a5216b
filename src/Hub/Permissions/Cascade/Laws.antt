-- ===== src/Hub/Permissions/Cascade/Laws.antt =====
-- What the fold of the channel overwrites decides, by the nearest level that says anything.
use mathlib.Core.List.{reverse-cons}
use wavvon_server.Base.{
  String, Bool, true, false, not, ◌&&◌, ◌||◌, ◌≡◌, refl, ◌∙◌, ap, List, [], ◌∷◌, ◌++◌, reverse,
  arith, str_eq, eq_iff, contains, insert, remove, contains-insert, contains-remove, any,
  if◌then◌else◌,
}
use wavvon_server.Hub.Db.{OverwriteRow}
use wavvon_server.Hub.Permissions.Cascade.{
  Level, add_row, collect_level, drop_denied, add_allowed, apply_level, fold_overwrites,
}

-- Some row of the channel allows, or denies, the permission.
abbrev pub allows : List OverwriteRow → String → String → Bool
allows rows c p = any (λ r. str_eq r.channel_id c && (r.allow && str_eq r.permission p)) rows

abbrev pub denies : List OverwriteRow → String → String → Bool
denies rows c p = any (λ r. str_eq r.channel_id c && (not r.allow && str_eq r.permission p)) rows

-- One level's say on the permission, over what the levels above it left.
abbrev pub decide : List OverwriteRow → String → String → Bool → Bool
decide rows c p above = if allows rows c p then true else if denies rows c p then false else above

-- The chain from the target up: the first channel that says anything is right.
unfoldable pub cascade : List OverwriteRow → String → List String → Bool → Bool
cascade rows p [] base = base
cascade rows p (c ∷ up) base = decide rows c p (cascade rows p up base)

allow-collect_level :
    (c p : String) (rows : List OverwriteRow) (l : Level)
    → contains (collect_level c rows l).allow p ≡ (contains l.allow p || allows rows c p)
unfolding collect_level
allow-collect_level c p [] l = ground arith
allow-collect_level c p (r ∷ rows) l = ground (
  arith,
  contains-insert r.permission l.allow p,
  allow-collect_level c p rows (if str_eq r.channel_id c then add_row r l else l),
)

deny-collect_level :
    (c p : String) (rows : List OverwriteRow) (l : Level)
    → contains (collect_level c rows l).deny p ≡ (contains l.deny p || denies rows c p)
unfolding collect_level
deny-collect_level c p [] l = ground arith
deny-collect_level c p (r ∷ rows) l = ground (
  arith,
  contains-insert r.permission l.deny p,
  deny-collect_level c p rows (if str_eq r.channel_id c then add_row r l else l),
)

contains-drop_denied :
    (deny allow effective : List String) (p : String)
    → contains (drop_denied deny allow effective) p
      ≡ (contains effective p && (contains allow p || not (contains deny p)))
unfolding drop_denied
contains-drop_denied [] allow effective p = ground arith
contains-drop_denied (q ∷ deny) allow effective p = ground (
  arith,
  eq_iff q p,
  eq_iff p q,
  contains-remove q effective p,
  contains-drop_denied deny allow (if contains allow q then effective else remove q effective) p,
)

contains-add_allowed :
    (allow effective : List String) (p : String)
    → contains (add_allowed allow effective) p ≡ (contains allow p || contains effective p)
unfolding add_allowed
contains-add_allowed [] effective p = refl
contains-add_allowed (q ∷ allow) effective p =
    ground (arith, contains-insert q effective p, contains-add_allowed allow (insert q effective) p)

pub contains-apply_level :
    (rows : List OverwriteRow) (effective : List String) (c p : String)
    → contains (apply_level rows effective c) p ≡ decide rows c p (contains effective p)
unfolding apply_level
contains-apply_level rows effective c p =
    let start : Level = record { allow = []; deny = [] } in
    let l : Level = collect_level c rows start in
    ground (
      arith,
      allow-collect_level c p rows start,
      deny-collect_level c p rows start,
      contains-drop_denied l.deny l.allow effective p,
      contains-add_allowed l.allow (drop_denied l.deny l.allow effective) p,
    )

cascade-append :
    (rows : List OverwriteRow) (p : String) (xs : List String) (c : String) (base : Bool)
    → cascade rows p (xs ++ c ∷ []) base ≡ cascade rows p xs (decide rows c p base)
unfolding cascade
cascade-append rows p [] c base = refl
cascade-append rows p (x ∷ xs) c base = ap (decide rows x p) (cascade-append rows p xs c base)

-- A permission is in the folded set exactly when the nearest channel of the chain (from the target
-- up to the root) with a row for it allows it, where an allow beats a deny in one channel, or no
-- channel has a row for it and the baseline has it.
pub contains-fold_overwrites :
    (effective chain : List String) (rows : List OverwriteRow) (p : String)
    → contains (fold_overwrites effective chain rows) p
      ≡ cascade rows p (reverse chain) (contains effective p)
unfolding fold_overwrites cascade
contains-fold_overwrites effective [] rows p = refl
contains-fold_overwrites effective (c ∷ chain) rows p =
    contains-fold_overwrites (apply_level rows effective c) chain rows p
    ∙ ap (cascade rows p (reverse chain)) (contains-apply_level rows effective c p)
    ∙ rw (reverse-cons c chain, cascade-append)
