-- ===== src/Hub/Roles/Appearance.antt =====
-- `is_valid_color` and `is_valid_icon` of crates/hub/src/routes/role_models.rs, and
-- `validate_appearance` of roles.rs.
use wavvon_server.Base.{
  ℕ, String, Bool, false, not, ◌&&◌, ◌||◌, List, [], ◌∷◌, Option, none, some, leb, ◌==◌, all, any,
  contains, is_empty,
}
use wavvon_server.Base.Chars.{byte_len, is_ascii_hexdigit, is_control, is_whitespace}
use wavvon_server.Http.{Result, ok, guard, bad_request, ◌>>◌}
use wavvon_server.Hub.Db.{Db}

-- The first byte of seven is `#`, so all are ASCII where the rest are digits.
unfoldable pub is_valid_color : List ℕ → Bool
unfolding byte_len is_ascii_hexdigit
is_valid_color [] = false
is_valid_color (c ∷ cs) = byte_len (c ∷ cs) == 7 && (c == b'#' && all is_ascii_hexdigit cs)

unfoldable pub is_valid_icon : List ℕ → Bool
unfolding byte_len is_whitespace is_control
is_valid_icon icon =
    not (is_empty icon)
    && (leb (byte_len icon) 16 && not (any (λ c. is_whitespace c || is_control c) icon))

-- A check of a field that is given.
abbrev pub if_some {ℓ} : {A : Type ℓ} → Option A → (A → Result (Unit {0})) → Result (Unit {0})
if_some none f = ok tt
if_some (some a) f = f a

unfoldable pub validate_appearance :
    Db → Option (List ℕ) → Option (List ℕ) → Option String → Result (Unit {0})
unfolding is_valid_color is_valid_icon
validate_appearance db color icon category_id = do
  if_some color (λ c. guard (is_valid_color c) bad_request "color must match ^#[0-9a-fA-F]{6}$")
  if_some icon (λ i.
      guard (is_valid_icon i) bad_request
        "icon must be a single emoji grapheme, max 16 bytes, no whitespace/control chars")
  if_some category_id (λ id.
      guard (contains db.role_categories id) bad_request
        "category_id does not reference an existing category")
