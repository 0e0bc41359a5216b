-- ===== src/Farm/Slug.antt =====
-- crates/farm/src/slug.rs. A slug is the list of its characters.
pub mod Laws
use wavvon_server.Base.{
  ℕ, String, Bool, true, false, not, ◌&&◌, ◌||◌, List, [], ◌∷◌, map, length, ltb, ◌==◌, all, any,
  if◌then◌else◌,
}
use wavvon_server.Base.Chars.{
  byte_len, chars, chars_eq, is_ascii_hexdigit, is_ascii_alphanumeric, to_ascii_lowercase, trim,
}

abbrev pub max_len : ℕ
max_len = 32

abbrev pub min_len : ℕ
min_len = 3

abbrev pub reserved : List (List ℕ)
reserved = map chars (
    "admin" ∷ "api" ∷ "new" ∷ "join" ∷ "info" ∷ "health" ∷ "hub" ∷ "farm" ∷ "auth" ∷ "ws" ∷ "static"
    ∷ "assets" ∷ "about" ∷ "help" ∷ "support" ∷ "settings" ∷ [])

pub data SlugError : Type 0 where
  too_short too_long bad_character is_reserved looks_like_a_pubkey : SlugError

pub data SlugResult : Type 0 where
  accepted : List ℕ → SlugResult
  refused : SlugError → SlugResult

unfoldable pub is_slug_char : ℕ → Bool
unfolding is_ascii_alphanumeric
is_slug_char c = is_ascii_alphanumeric c || (c == b'-' || c == b'_')

unfoldable pub looks_like_pubkey : List ℕ → Bool
unfolding byte_len is_ascii_hexdigit
looks_like_pubkey segment = byte_len segment == 64 && all is_ascii_hexdigit segment

-- What `normalize` does with the trimmed text.
unfoldable pub normalize_trimmed : List ℕ → SlugResult
unfolding is_slug_char to_ascii_lowercase chars_eq byte_len is_ascii_hexdigit
normalize_trimmed trimmed =
    let len = length trimmed in
    let lowered = map to_ascii_lowercase trimmed in
    if ltb len min_len
    then refused too_short
    else if ltb max_len len
    then refused too_long
    else if not (all is_slug_char trimmed)
    then refused bad_character
    else if any (λ r. chars_eq r lowered) reserved
    then refused is_reserved
    else if byte_len lowered == 64 && all is_ascii_hexdigit lowered
    then refused looks_like_a_pubkey
    else accepted lowered

unfoldable pub normalize : List ℕ → SlugResult
unfolding trim normalize_trimmed
normalize raw = normalize_trimmed (trim raw)
