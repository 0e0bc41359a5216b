-- ===== src/Hub/Channels/Forest.antt =====
-- The ways up from the channels, and what a move does to them.
use wavvon_server.Base.{
  ℕ, zero, suc, String, Bool, true, false, ◌≡◌, Option, none, some, inl, inr, arith, str_eq,
  Bool-cases, Option-cases, if◌then◌else◌,
}
use wavvon_server.Hub.Channels.Walks.{is_above}

-- At most `n` links lead to a root.
abbrev pub is_rooted : ℕ → (String → Option String) → String → Bool
is_rooted zero parent c = elim (parent c) [ none ↦ true | some p ↦ false ]
is_rooted (suc n) parent c = elim (parent c) [ none ↦ true | some p ↦ is_rooted n parent p ]

-- The way up from a channel ends at a root.
pub data IsRooted (parent : String → Option String) : String → Type 0 where
  root : {c : String} → parent c ≡ none → IsRooted parent c
  under : {c : String} (p : String) → parent c ≡ some p → IsRooted parent p → IsRooted parent c

-- No channel is above itself: every way up ends.
abbrev pub IsAcyclic : (String → Option String) → Type 0
IsAcyclic parent = (c : String) → IsRooted parent c

-- A channel that is moved.
abbrev pub moved : String → Option String → (String → Option String) → String → Option String
moved x o parent c = if str_eq c x then o else parent c

module _ (parent : String → Option String) where
  is_rooted-IsRooted : (n : ℕ) (c : String) → is_rooted n parent c ≡ true → IsRooted parent c
  is_rooted-IsRooted zero c h = root (ground arith)
  is_rooted-IsRooted (suc n) c h = elim (Option-cases (parent c)) [
    | inl e ↦ root e
    | inr (p, e) ↦ under p e (is_rooted-IsRooted n p (ground arith))
  ]

  -- A way up that does not pass `x` stays when `x` is moved.
  is_rooted-moved :
      (x : String) (o : Option String) (n : ℕ) (c : String)
      → is_rooted n parent c ≡ true
      → is_above n parent x c ≡ false
      → str_eq c x ≡ false
      → is_rooted n (moved x o parent) c ≡ true
  unfolding is_above
  is_rooted-moved x o zero c h a e = ground arith
  is_rooted-moved x o (suc n) c h a e = elim (Option-cases (parent c)) [
    | inl k ↦ ground arith
    | inr (p, k) ↦ ground (arith, is_rooted-moved x o n p)
  ]

module _ (parent : String → Option String) (x : String) where
  -- What is moved to the top is a root, and ends every way up that led through it.
  pub IsRooted-to_top : {c : String} → IsRooted parent c → IsRooted (moved x none parent) c
  IsRooted-to_top {c} (root e) = root (ground arith)
  IsRooted-to_top {c} (under p e r) = elim (Bool-cases (str_eq c x)) [
    | inl k ↦ root (ground arith)
    | inr k ↦ under p (ground arith) (IsRooted-to_top r)
  ]

  -- Under a channel whose way up does not lead through it, all ways up still end.
  IsRooted-under :
      (p : String) {c : String}
      → IsRooted (moved x (some p) parent) p
      → IsRooted parent c
      → IsRooted (moved x (some p) parent) c
  IsRooted-under p {c} h (root e) = elim (Bool-cases (str_eq c x)) [
    | inl k ↦ under p (ground arith) h
    | inr k ↦ root (ground arith)
  ]
  IsRooted-under p {c} h (under q e r) = elim (Bool-cases (str_eq c x)) [
    | inl k ↦ under p (ground arith) h
    | inr k ↦ under q (ground arith) (IsRooted-under p h r)
  ]

  -- A move under a channel that `is_ancestor` lets pass, and that is near enough to its root for
  -- `is_ancestor` to see all of the way, makes no cycle.
  pub IsAcyclic-moved :
      (n : ℕ) (p : String)
      → IsAcyclic parent
      → is_rooted n parent p ≡ true
      → is_above n parent x p ≡ false
      → str_eq p x ≡ false
      → IsAcyclic (moved x (some p) parent)
  IsAcyclic-moved n p h near seen other c =
      IsRooted-under p
        (is_rooted-IsRooted (moved x (some p) parent) n p
          (is_rooted-moved parent x (some p) n p near seen other))
        (h c)
