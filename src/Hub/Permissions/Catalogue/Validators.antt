-- ===== src/Hub/Permissions/Catalogue/Validators.antt =====
-- What the validators of crates/hub/src/permissions.rs let through.
use wavvon_server.Base.{
  String, Bool, true, false, ◌≡◌, refl, List, [], ◌∷◌, map, none, some, arith, contains, find, all,
  str_eq, Option-cases, inl, inr,
}
use wavvon_server.Http.{ok, Result-cases}
use wavvon_server.Hub.Permissions.Catalogue.{
  Permission, catalogue, all_permissions, allows_channel, scope_of, validate_permissions,
  validate_channel_overwrite, check_overwrite,
}

-- The id stands in the catalogue with a channel dimension.
abbrev pub is_channel_scoped : String → Bool
is_channel_scoped p = elim (scope_of p) [ none ↦ false | some s ↦ allows_channel s ]

contains-find :
    (cat : List Permission) (p : String) (q : Permission)
    → find (λ x. str_eq x.id p) cat ≡ some q
    → contains (map (λ x. x.id) cat) p ≡ true
contains-find [] p q h = cc
contains-find (x ∷ cat) p q h = ground (arith, contains-find cat p q)

contains-all_permissions :
    (p : String) → is_channel_scoped p ≡ true → contains all_permissions p ≡ true
unfolding scope_of all_permissions
contains-all_permissions p h = elim (Option-cases (find (λ x. str_eq x.id p) catalogue)) [
  | inl e ↦ absurd (ground arith)
  | inr (q, e) ↦ contains-find catalogue p q e
]

check_overwrite-eq-ok :
    (p : String) → check_overwrite p (scope_of p) ≡ ok tt → is_channel_scoped p ≡ true
unfolding check_overwrite
check_overwrite-eq-ok p h = elim (Option-cases (scope_of p)) [
  | inl e ↦ absurd (ground arith)
  | inr (s, e) ↦ ground arith
]

check_overwrite-accepts :
    (p : String) → is_channel_scoped p ≡ true → check_overwrite p (scope_of p) ≡ ok tt
unfolding check_overwrite
check_overwrite-accepts p h = elim (Option-cases (scope_of p)) [
  | inl e ↦ absurd (ground arith)
  | inr (s, e) ↦ ground arith
]

-- The validator of channel overwrites accepts a list exactly when every id has a channel
-- dimension, and then the validator of role permissions accepts the list too.
validate_channel_overwrite_lem :
    (ps : List String)
    → (validate_channel_overwrite ps ≡ ok tt
        → (all is_channel_scoped ps ≡ true) × (validate_permissions ps ≡ ok tt))
      × (all is_channel_scoped ps ≡ true → validate_channel_overwrite ps ≡ ok tt)
unfolding validate_channel_overwrite validate_permissions
validate_channel_overwrite_lem [] = (λ h. (refl, refl), λ h. refl)
validate_channel_overwrite_lem (p ∷ ps) =
    let (accepted, scoped) = validate_channel_overwrite_lem ps in
    elim (Result-cases (check_overwrite p (scope_of p))) [
      | inl (w, e) ↦
          let here = check_overwrite-eq-ok p e in
          (
            λ h.
                let (a, b) = accepted (ground arith) in
                (ground arith, ground (arith, contains-all_permissions p here)),
            λ h. ground (arith, scoped),
          )
      | inr (x, e) ↦
          (λ h. absurd (ground arith), λ h. absurd (ground (arith, check_overwrite-accepts p)))
    ]
