-- ===== src/Identity/Wire/Fields.antt =====
-- The fields of crates/identity/src/wire.rs that are more than a text or a number, read back.
use wavvon_server.Base.{
  ℕ, ◌≡◌, refl, sym, ap, List, [], ◌∷◌, ◌++◌, Option, none, some, arith, length, All,
}
use wavvon_server.Identity.Wire.Encode.{Bytes, write_str, u32_to_string, tagged}
use wavvon_server.Identity.Wire.Encode.Split.{
  IsU32, write_u64_le-split, write_str-split, write_str-not_empty, IsText-u32_to_string,
  u32_to_string-injective,
}
use wavvon_server.Identity.Wire.Messages.{
  write_not_after, auth_challenge_signing_bytes, write_recipients, PublicHubEntry, write_entries,
}
use wavvon_server.Identity.Wire.Kinds.{IsTime, IsRecipient, IsEntry}

pub write_not_after-split :
    (s t : Option ℕ) {r q : Bytes}
    → IsTime s
    → IsTime t
    → write_not_after s ++ r ≡ write_not_after t ++ q
    → (s ≡ t) × (r ≡ q)
unfolding write_not_after
write_not_after-split none none a b e = (refl, cc)
write_not_after-split none (some w) a b e = absurd (ground arith)
write_not_after-split (some v) none a b e = absurd (ground arith)
write_not_after-split (some v) (some w) a b e =
    let (time, rest) = write_u64_le-split v w a b cc in (ap some time, rest)

pub write_recipients-injective :
    (xs ys : List (Bytes × Bytes))
    → All IsRecipient xs
    → All IsRecipient ys
    → write_recipients xs ≡ write_recipients ys
    → xs ≡ ys
unfolding write_recipients
write_recipients-injective [] [] a b e = refl
write_recipients-injective [] (y ∷ ys) a b e = absurd (write_str-not_empty y.0 _ (sym e))
write_recipients-injective (x ∷ xs) [] a b e = absurd (write_str-not_empty x.0 _ e)
write_recipients-injective (x ∷ xs) (y ∷ ys) a b e =
    let (key, more) = write_str-split x.0 y.0 a.0.0 b.0.0 e in
    let (wrapped, rest) = write_str-split x.1 y.1 a.0.1 b.0.1 more in
    let others = write_recipients-injective xs ys a.1 b.1 rest in cc

pub write_entries-injective :
    (xs ys : List PublicHubEntry)
    → length xs ≡ length ys
    → All IsEntry xs
    → All IsEntry ys
    → write_entries xs ≡ write_entries ys
    → xs ≡ ys
unfolding write_entries
write_entries-injective [] [] h a b e = refl
write_entries-injective [] (y ∷ ys) h a b e = absurd (omega arith)
write_entries-injective (x ∷ xs) [] h a b e = absurd (omega arith)
write_entries-injective (x ∷ xs) (y ∷ ys) h a b e =
    let (url, more) = write_str-split x.hub_url y.hub_url a.0.0 b.0.0 e in
    let (name, rest) = write_str-split x.hub_name y.hub_name a.0.1 b.0.1 more in
    let (joined, left) = write_u64_le-split x.joined_at y.joined_at a.0.2 b.0.2 rest in
    let others = write_entries-injective xs ys (omega arith) a.1 b.1 left in cc

pub write_number-split :
    (v w : ℕ) {r q : Bytes}
    → IsU32 v
    → IsU32 w
    → write_str (u32_to_string v) ++ r ≡ write_str (u32_to_string w) ++ q
    → (v ≡ w) × (r ≡ q)
write_number-split v w a b e =
    let (digits, rest) =
      write_str-split (u32_to_string v) (u32_to_string w) (IsText-u32_to_string v)
        (IsText-u32_to_string w) e in
    (u32_to_string-injective v w a b digits, rest)

pub auth_challenge_signing_bytes-accepts :
    (c : Bytes)
    → length c ≡ 32
    → auth_challenge_signing_bytes c ≡ some (tagged "wavvon/auth-challenge/v1" c)
unfolding auth_challenge_signing_bytes
auth_challenge_signing_bytes-accepts c h = rw h refl
