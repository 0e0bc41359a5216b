-- ===== src/Identity/Wire/Encode/Split.antt =====
-- A writer's output can be split off again: what was written and what follows are determined.
use mathlib.Core.List.{append_assoc}
use native.Mathlib.Nat.{pow-suc}
use wavvon_server.Base.{
  ℕ, zero, suc, ◌+◌, ◌-◌, ◌*◌, ◌/◌, ◌%◌, ◌^◌, ◌≤◌, ◌<◌, ◌≡◌, refl, ◌∙◌, sym, ap, List, [], ◌∷◌,
  ◌++◌, arith, length, length-append, String, ltb, All, inl, inr, Bool-cases,
}
use wavvon_server.Identity.Wire.Encode.{
  Bytes, le_bytes, write_u32_le, write_u64_le, write_str, write_strs, write_str_vec, decimal,
  u32_to_string, codes, tagged,
}

abbrev pub IsU32 : ℕ → Type 0
IsU32 v = v < 2 ^ 32

abbrev pub IsU64 : ℕ → Type 0
IsU64 v = v < 2 ^ 64

-- A text whose length does not wrap in its prefix.
abbrev pub IsText : Bytes → Type 0
IsText s = length s < 2 ^ 32

abbrev pub AreTexts : List Bytes → Type 0
AreTexts v = (length v < 2 ^ 32) × All IsText v

cons-eq : (a b : ℕ) (r q : Bytes) → ◌≡◌ {A = Bytes} (a ∷ r) (b ∷ q) → (a ≡ b) × (r ≡ q)
cons-eq a b r q e = (cc, cc)

div-lt_pow : (k v : ℕ) → v < 256 ^ suc k → v / 256 < 256 ^ k
div-lt_pow k v h = omega (arith, pow-suc 256 k)

le_bytes-split :
    (k v w : ℕ) (r q : Bytes)
    → v < 256 ^ k
    → w < 256 ^ k
    → le_bytes k v ++ r ≡ le_bytes k w ++ q
    → (v ≡ w) × (r ≡ q)
unfolding le_bytes
le_bytes-split zero v w r q a b e = (omega arith, e)
le_bytes-split (suc k) v w r q a b e =
    let (head, tail) = cons-eq (v % 256) (w % 256) _ _ e in
    let (front, rest) =
      le_bytes-split k (v / 256) (w / 256) r q (div-lt_pow k v a) (div-lt_pow k w b) tail in
    (omega arith, rest)

pub write_u32_le-split :
    (v w : ℕ) {r q : Bytes}
    → IsU32 v
    → IsU32 w
    → write_u32_le v ++ r ≡ write_u32_le w ++ q
    → (v ≡ w) × (r ≡ q)
unfolding write_u32_le
write_u32_le-split v w {r} {q} a b e = le_bytes-split 4 v w r q a b e

pub write_u64_le-split :
    (v w : ℕ) {r q : Bytes}
    → IsU64 v
    → IsU64 w
    → write_u64_le v ++ r ≡ write_u64_le w ++ q
    → (v ≡ w) × (r ≡ q)
unfolding write_u64_le
write_u64_le-split v w {r} {q} a b e = le_bytes-split 8 v w r q a b e

append-split : (s t r q : Bytes) → length s ≡ length t → s ++ r ≡ t ++ q → (s ≡ t) × (r ≡ q)
append-split [] [] r q h e = (refl, e)
append-split [] (b ∷ t) r q h e = absurd (omega arith)
append-split (a ∷ s) [] r q h e = absurd (omega arith)
append-split (a ∷ s) (b ∷ t) r q h e =
    let (head, tail) = cons-eq a b _ _ e in
    let (front, rest) = append-split s t r q (omega arith) tail in (cc, rest)

pub write_str-split :
    (s t : Bytes) {r q : Bytes}
    → IsText s
    → IsText t
    → write_str s ++ r ≡ write_str t ++ q
    → (s ≡ t) × (r ≡ q)
unfolding write_str
write_str-split s t {r} {q} a b e =
    let (len, rest) =
      write_u32_le-split (length s % 2 ^ 32) (length t % 2 ^ 32) (omega arith) (omega arith) (
        sym (append_assoc (write_u32_le (length s % 2 ^ 32)) s r)
        ∙ e
        ∙ append_assoc (write_u32_le (length t % 2 ^ 32)) t q) in
    append-split s t r q (omega arith) rest

pub write_strs-split :
    (v w : List Bytes) {r q : Bytes}
    → length v ≡ length w
    → All IsText v
    → All IsText w
    → write_strs v ++ r ≡ write_strs w ++ q
    → (v ≡ w) × (r ≡ q)
unfolding write_strs
write_strs-split [] [] h a b e = (refl, e)
write_strs-split [] (t ∷ w) h a b e = absurd (omega arith)
write_strs-split (s ∷ v) [] h a b e = absurd (omega arith)
write_strs-split (s ∷ v) (t ∷ w) {r} {q} h a b e =
    let (front, tail) = write_str-split s t a.0 b.0 (
      sym (append_assoc (write_str s) (write_strs v) r)
      ∙ e
      ∙ append_assoc (write_str t) (write_strs w) q) in
    let (back, rest) = write_strs-split v w (omega arith) a.1 b.1 tail in (cc, rest)

pub write_str_vec-split :
    (v w : List Bytes) {r q : Bytes}
    → AreTexts v
    → AreTexts w
    → write_str_vec v ++ r ≡ write_str_vec w ++ q
    → (v ≡ w) × (r ≡ q)
unfolding write_str_vec
write_str_vec-split v w {r} {q} a b e =
    let (len, rest) =
      write_u32_le-split (length v % 2 ^ 32) (length w % 2 ^ 32) (omega arith) (omega arith) (
        sym (append_assoc (write_u32_le (length v % 2 ^ 32)) (write_strs v) r)
        ∙ e
        ∙ append_assoc (write_u32_le (length w % 2 ^ 32)) (write_strs w) q) in
    write_strs-split v w (omega arith) a.1 b.1 rest

-- The number that digits spell.
value : ℕ → Bytes → ℕ
value acc [] = acc
value acc (d ∷ ds) = value (10 * acc + (d - 48)) ds

value-append : (acc d : ℕ) (ds : Bytes) → value acc (ds ++ d ∷ []) ≡ 10 * value acc ds + (d - 48)
unfolding value
value-append acc d [] = refl
value-append acc d (c ∷ ds) = value-append (10 * acc + (c - 48)) d ds

value-decimal : (k n : ℕ) → n < 10 ^ k → value 0 (decimal k n) ≡ n
unfolding decimal value
value-decimal zero n h = omega arith
value-decimal (suc k) n h = elim (Bool-cases (ltb n 10)) [
  | inl e ↦ rw e (omega arith)
  | inr e ↦ rw e (
      value-append 0 (48 + n % 10) (decimal k (n / 10))
      ∙ omega (arith, value-decimal k (n / 10) (omega (arith, pow-suc 10 k))))
]

length-decimal : (k n : ℕ) → length (decimal k n) ≤ k + 1
unfolding decimal
length-decimal zero n = omega arith
length-decimal (suc k) n =
    ground
      (arith, length-decimal k (n / 10), length-append (decimal k (n / 10)) ((48 + n % 10) ∷ []))

pub IsText-u32_to_string : (n : ℕ) → IsText (u32_to_string n)
unfolding u32_to_string
IsText-u32_to_string n = omega (arith, length-decimal 10 n)

-- Two `u32` with one spelling are one.
pub u32_to_string-injective :
    (v w : ℕ) → IsU32 v → IsU32 w → u32_to_string v ≡ u32_to_string w → v ≡ w
unfolding u32_to_string
u32_to_string-injective v w a b e =
    sym (value-decimal 10 v (omega arith)) ∙ ap (value 0) e ∙ value-decimal 10 w (omega arith)

-- What is written last.
pub write_str-injective : (s t : Bytes) → IsText s → IsText t → write_str s ≡ write_str t → s ≡ t
write_str-injective s t a b e = (write_str-split s t {r = []} {q = []} a b (ap (λ z. z ++ []) e)).0

pub write_u64_le-injective : (v w : ℕ) → IsU64 v → IsU64 w → write_u64_le v ≡ write_u64_le w → v ≡ w
write_u64_le-injective v w a b e =
    (write_u64_le-split v w {r = []} {q = []} a b (ap (λ z. z ++ []) e)).0

pub write_str_vec-injective :
    (v w : List Bytes) → AreTexts v → AreTexts w → write_str_vec v ≡ write_str_vec w → v ≡ w
write_str_vec-injective v w a b e =
    (write_str_vec-split v w {r = []} {q = []} a b (ap (λ z. z ++ []) e)).0

pub write_str-not_empty : (s r : Bytes) → ¬ (write_str s ++ r ≡ [])
unfolding write_str write_u32_le le_bytes
write_str-not_empty s r e = absurd (omega (arith, ap length e))

-- A text and its length, as `dh_key_record` writes them by hand.
pub prefixed-split :
    (s t : Bytes) {r q : Bytes}
    → IsText s
    → IsText t
    → write_u32_le (length s % 2 ^ 32) ++ (s ++ r) ≡ write_u32_le (length t % 2 ^ 32) ++ (t ++ q)
    → (s ≡ t) × (r ≡ q)
prefixed-split s t {r} {q} a b e =
    let (len, rest) =
      write_u32_le-split (length s % 2 ^ 32) (length t % 2 ^ 32) (omega arith) (omega arith) e in
    append-split s t r q (omega arith) rest

pub prefixed-injective :
    (s t : Bytes)
    → IsText s
    → IsText t
    → write_u32_le (length s % 2 ^ 32) ++ s ≡ write_u32_le (length t % 2 ^ 32) ++ t
    → s ≡ t
unfolding write_str
prefixed-injective s t a b e = write_str-injective s t a b e

-- Behind one tag the payloads are compared.
pub tagged-split : (tag : String) {r q : Bytes} → tagged tag r ≡ tagged tag q → r ≡ q
tagged-split tag {r} {q} e =
    (cons-eq 0 0 r q (append-split (codes tag) (codes tag) (0 ∷ r) (0 ∷ q) refl e).1).1
