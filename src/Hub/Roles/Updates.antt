-- ===== src/Hub/Roles/Updates.antt =====
-- What the statements of `update_role` keep: a property of the tables that survives each of them
-- survives the lot, wherever it stops.
use wavvon_server.Base.{ℕ, String, Bool, ◌≡◌, refl, List, Option, none, some, ℤ, arith}
use wavvon_server.Hub.Db.{Db, RoleRow, then_keeps, ◌>>◌}
use wavvon_server.Hub.Roles.Checks.{UpdateRoleRequest}
use wavvon_server.Hub.Roles.{
  set_role, set_priority, set_name, replace_permissions, set_display_separately, set_color,
  set_icon, set_category, write_update, when_some,
}

-- A change of a row that leaves its id and its priority.
abbrev pub KeepsIdentity : (RoleRow → RoleRow) → Type 0
KeepsIdentity f = (r : RoleRow) → ((f r).id ≡ r.id) × ((f r).priority ≡ r.priority)

module _ {ℓ} (P : Db → Type ℓ) (role_id : String) (req : UpdateRoleRequest)
    (priority : (n : ℤ) → req.priority ≡ some n → (d : Db) → P d → P (set_priority role_id n d).0)
    (other : (f : RoleRow → RoleRow) → KeepsIdentity f → (d : Db) → P d → P (set_role role_id f d))
    (rights : (ps : List String)
      → req.permissions ≡ some ps
      → (d : Db) → P d
      → P (replace_permissions role_id ps d).0) where
  when_priority :
      (o : Option ℤ)
      → req.priority ≡ o
      → (d : Db) → P d
      → P (when_some o (set_priority role_id) d).0
  when_priority none e d b = b
  when_priority (some n) e d b = priority n e d b

  name_keeps : (n : String) (d : Db) → P d → P (set_name role_id n d).0
  unfolding set_name
  name_keeps n d b = ground (arith, other (λ r. record r { name = n }) (λ r. (refl, refl)) d b)

  when_name : (o : Option String) (d : Db) → P d → P (when_some o (set_name role_id) d).0
  when_name none d b = b
  when_name (some n) d b = name_keeps n d b

  when_rights :
      (o : Option (List String))
      → req.permissions ≡ o
      → (d : Db) → P d
      → P (when_some o (replace_permissions role_id) d).0
  when_rights none e d b = b
  when_rights (some ps) e d b = rights ps e d b

  flag_keeps : (o : Option Bool) (d : Db) → P d → P (set_display_separately role_id o d).0
  unfolding set_display_separately
  flag_keeps none d b = b
  flag_keeps (some f) d b = other (λ r. record r { display_separately = f }) (λ r. (refl, refl)) d b

  color_keeps : (o : Option (Option (List ℕ))) (d : Db) → P d → P (set_color role_id o d).0
  unfolding set_color
  color_keeps none d b = b
  color_keeps (some c) d b = other (λ r. record r { color = c }) (λ r. (refl, refl)) d b

  icon_keeps : (o : Option (Option (List ℕ))) (d : Db) → P d → P (set_icon role_id o d).0
  unfolding set_icon
  icon_keeps none d b = b
  icon_keeps (some c) d b = other (λ r. record r { icon = c }) (λ r. (refl, refl)) d b

  category_keeps : (o : Option (Option String)) (d : Db) → P d → P (set_category role_id o d).0
  unfolding set_category
  category_keeps none d b = b
  category_keeps (some c) d b = other (λ r. record r { category_id = c }) (λ r. (refl, refl)) d b

  look_keeps :
      (d : Db)
      → P d
      → P
          ((set_display_separately role_id req.display_separately
              >> (set_color role_id req.color
                  >> (set_icon role_id req.icon >> set_category role_id req.category_id)))
            d).0
  look_keeps d b =
      then_keeps P (set_display_separately role_id req.display_separately)
        (set_color role_id req.color
          >> (set_icon role_id req.icon >> set_category role_id req.category_id))
        d (flag_keeps req.display_separately d b)
        λ d b.
          then_keeps P (set_color role_id req.color)
            (set_icon role_id req.icon >> set_category role_id req.category_id) d
            (color_keeps req.color d b)
            λ d b.
              then_keeps P (set_icon role_id req.icon) (set_category role_id req.category_id) d
                (icon_keeps req.icon d b) (category_keeps req.category_id)

  pub write_update_keeps : (d : Db) → P d → P (write_update role_id req d).0
  unfolding write_update
  write_update_keeps d b =
      let look =
        set_display_separately role_id req.display_separately
        >> (set_color role_id req.color
            >> (set_icon role_id req.icon >> set_category role_id req.category_id)) in
      let rest = when_some req.permissions (replace_permissions role_id) in
      let name = when_some req.name (set_name role_id) in
      then_keeps P (when_some req.priority (set_priority role_id)) (name >> (rest >> look)) d
        (when_priority req.priority refl d b)
        λ d b.
          then_keeps P name (rest >> look) d (when_name req.name d b)
            λ d b. then_keeps P rest look d (when_rights req.permissions refl d b) look_keeps
