-- ===== src/Farm/Slug/Laws.antt =====
-- Slugs normalise to one spelling, and no slug is a pubkey.
use wavvon_server.Base.{
  ℕ, ◌≡◌, refl, ◌∙◌, sym, ap, Bool, true, false, not, List, [], ◌∷◌, map, arith, length, all,
  is_empty, if◌then◌else◌,
}
use wavvon_server.Base.Chars.{
  byte_len, len_utf8, is_whitespace, is_ascii_hexdigit, is_ascii_alphanumeric, to_ascii_lowercase,
  trim, trim_start, trim_end,
}
use wavvon_server.Farm.Slug.{
  SlugError, SlugResult, is_slug_char, looks_like_pubkey, normalize_trimmed, normalize,
}

abbrev lower : List ℕ → List ℕ
lower = map to_ascii_lowercase

is_whitespace-lower : (c : ℕ) → is_whitespace (to_ascii_lowercase c) ≡ is_whitespace c
unfolding is_whitespace to_ascii_lowercase
is_whitespace-lower c = ground arith

is_slug_char-lower : (c : ℕ) → is_slug_char (to_ascii_lowercase c) ≡ is_slug_char c
unfolding is_slug_char is_ascii_alphanumeric to_ascii_lowercase
is_slug_char-lower c = ground arith

lower-lower : (c : ℕ) → to_ascii_lowercase (to_ascii_lowercase c) ≡ to_ascii_lowercase c
unfolding to_ascii_lowercase
lower-lower c = ground arith

is_slug_char-not_whitespace : (c : ℕ) → is_slug_char c ≡ true → is_whitespace c ≡ false
unfolding is_slug_char is_ascii_alphanumeric is_whitespace
is_slug_char-not_whitespace c h = ground arith

all-is_slug_char-lower : (s : List ℕ) → all is_slug_char (lower s) ≡ all is_slug_char s
all-is_slug_char-lower [] = refl
all-is_slug_char-lower (c ∷ s) = rw (is_slug_char-lower c, all-is_slug_char-lower s)

map-lower : (s : List ℕ) → lower (lower s) ≡ lower s
map-lower [] = refl
map-lower (c ∷ s) = rw (lower-lower c, map-lower s)

length-lower : (s : List ℕ) → length (lower s) ≡ length s
length-lower [] = refl
length-lower (c ∷ s) = rw (length-lower s)

is_empty-lower : (s : List ℕ) → is_empty (lower s) ≡ is_empty s
is_empty-lower [] = refl
is_empty-lower (c ∷ s) = refl

trim_start-lower : (s : List ℕ) → trim_start (lower s) ≡ lower (trim_start s)
unfolding trim_start
trim_start-lower [] = refl
trim_start-lower (c ∷ s) = ground (arith, is_whitespace-lower c, trim_start-lower s)

trim_end-lower : (s : List ℕ) → trim_end (lower s) ≡ lower (trim_end s)
unfolding trim_end
trim_end-lower [] = refl
trim_end-lower (c ∷ s) =
    ground (arith, is_whitespace-lower c, is_empty-lower (trim_end s), trim_end-lower s)

trim-lower : (s : List ℕ) → trim (lower s) ≡ lower (trim s)
unfolding trim
trim-lower s = ap trim_end (trim_start-lower s) ∙ trim_end-lower (trim_start s)

trim_end-kept :
    (p : ℕ → Bool)
    → ((c : ℕ) → p c ≡ true → is_whitespace c ≡ false)
    → (s : List ℕ) → all p s ≡ true
    → trim_end s ≡ s
unfolding trim_end
trim_end-kept p h [] e = refl
trim_end-kept p h (c ∷ s) e = ground (arith, h c, trim_end-kept p h s)

trim_start-kept :
    (p : ℕ → Bool)
    → ((c : ℕ) → p c ≡ true → is_whitespace c ≡ false)
    → (s : List ℕ) → all p s ≡ true
    → trim_start s ≡ s
unfolding trim_start
trim_start-kept p h [] e = refl
trim_start-kept p h (c ∷ s) e = ground (arith, h c)

-- Nothing is trimmed where no character is a space.
trim-kept :
    (p : ℕ → Bool)
    → ((c : ℕ) → p c ≡ true → is_whitespace c ≡ false)
    → (s : List ℕ) → all p s ≡ true
    → trim s ≡ s
unfolding trim
trim-kept p h s e = ap trim_end (trim_start-kept p h s e) ∙ trim_end-kept p h s e

normalize_trimmed-lower : (s : List ℕ) → normalize_trimmed (lower s) ≡ normalize_trimmed s
unfolding normalize_trimmed
normalize_trimmed-lower s = rw (length-lower s, all-is_slug_char-lower s, map-lower s) refl

normalize-lower : (raw : List ℕ) → normalize (lower raw) ≡ normalize raw
unfolding normalize
normalize-lower raw = rw (trim-lower raw) (normalize_trimmed-lower (trim raw))

-- Two spellings that differ only in the case of ASCII letters are one slug, or are refused alike.
pub normalize-case_insensitive :
    (raw other : List ℕ)
    → map to_ascii_lowercase raw ≡ map to_ascii_lowercase other
    → normalize raw ≡ normalize other
normalize-case_insensitive raw other e =
    sym (normalize-lower raw) ∙ ap normalize e ∙ normalize-lower other

-- The last of the five tests is reached through the others.
accepted-eq :
    (a b c d e : Bool) (l s : List ℕ)
    → (if a
        then SlugResult.refused SlugError.too_short
        else if b
        then SlugResult.refused SlugError.too_long
        else if not c
        then SlugResult.refused SlugError.bad_character
        else if d
        then SlugResult.refused SlugError.is_reserved
        else if e
        then SlugResult.refused SlugError.looks_like_a_pubkey
        else SlugResult.accepted l)
      ≡ SlugResult.accepted s
    → (s ≡ l) × (c ≡ true)
accepted-eq a b c d e l s h = ground arith

normalize_trimmed-accepted :
    (t s : List ℕ)
    → normalize_trimmed t ≡ SlugResult.accepted s
    → (s ≡ lower t) × (all is_slug_char t ≡ true)
unfolding normalize_trimmed
normalize_trimmed-accepted t s h = accepted-eq _ _ _ _ _ _ s h

-- The stored form of an accepted slug normalises to itself.
normalize-idempotent :
    (raw s : List ℕ) → normalize raw ≡ SlugResult.accepted s → normalize s ≡ SlugResult.accepted s
unfolding normalize
normalize-idempotent raw s h =
    let (e, ok) = normalize_trimmed-accepted (trim raw) s h in
    let kept : trim s ≡ s =
      trim-kept is_slug_char is_slug_char-not_whitespace s
        (ap (all is_slug_char) e ∙ all-is_slug_char-lower (trim raw) ∙ ok) in
    ap normalize_trimmed (kept ∙ e) ∙ normalize_trimmed-lower (trim raw) ∙ h

is_ascii_hexdigit-not_whitespace : (c : ℕ) → is_ascii_hexdigit c ≡ true → is_whitespace c ≡ false
unfolding is_ascii_hexdigit is_whitespace
is_ascii_hexdigit-not_whitespace c h = ground arith

length-hexdigits : (s : List ℕ) → all is_ascii_hexdigit s ≡ true → byte_len s ≡ length s
unfolding byte_len len_utf8 is_ascii_hexdigit
length-hexdigits [] h = refl
length-hexdigits (c ∷ s) h = ground (arith, length-hexdigits s)

normalize_trimmed-too_long :
    (t : List ℕ) → length t ≡ 64 → normalize_trimmed t ≡ SlugResult.refused SlugError.too_long
unfolding normalize_trimmed
normalize_trimmed-too_long t e = ground arith

-- A path segment that the proxy takes for a pubkey is no slug: it is refused as too long.
normalize-looks_like_pubkey :
    (segment : List ℕ)
    → looks_like_pubkey segment ≡ true
    → normalize segment ≡ SlugResult.refused SlugError.too_long
unfolding normalize looks_like_pubkey
normalize-looks_like_pubkey segment h =
    let digits : all is_ascii_hexdigit segment ≡ true = ground arith in
    let kept = trim-kept is_ascii_hexdigit is_ascii_hexdigit-not_whitespace segment digits in
    rw kept (normalize_trimmed-too_long segment (ground (arith, length-hexdigits segment digits)))
