-- ===== src/Base/Chars.antt =====
-- The tests of Rust's `char` and `u8` that the program calls, over code points.
use Prim.Native.Nat.{ℕ, ◌+◌, ◌-◌, ◌*◌, ◌^◌}
use Prim.Native.Char.{code}
use Prim.Native.String.{String}
use mathlib.Core.Option.{Option, none, some}
use mathlib.Core.Bool.{Bool, true, false, ◌&&◌, ◌||◌}
use mathlib.Core.List.{List, [], ◌∷◌}
use wavvon_server.Base.Lists.{is_empty}
use wavvon_server.Base.Tests.{ltb, leb, ◌==◌, if◌then◌else◌}

-- The characters of a text.
abbrev pub chars : String → List ℕ
chars String.[] = []
chars (String.◌∷◌ c s) = code c ∷ chars s

-- `str::starts_with`
abbrev pub starts_with : List ℕ → List ℕ → Bool
starts_with [] cs = true
starts_with (p ∷ ps) [] = false
starts_with (p ∷ ps) (c ∷ cs) = p == c && starts_with ps cs

-- The digits of a number in base ten, behind what was read of it.
unfoldable pub parse_digits : List ℕ → ℕ → Option ℕ
parse_digits [] n = some n
parse_digits (c ∷ cs) n =
    let rest = parse_digits cs (n * 10 + (c - b'0')) in
    if leb b'0' c && leb c b'9' then rest else none

-- Behind the sign: at least one digit, and no number beyond 32 bits.
unfoldable pub parse_unsigned : List ℕ → Option ℕ
unfolding parse_digits
parse_unsigned [] = none
parse_unsigned (c ∷ cs) = elim (parse_digits (c ∷ cs) 0) [
  | none ↦ none
  | some n ↦ if ltb n (2 ^ 32) then some n else none
]

-- `str::parse::<u32>`
unfoldable pub parse_u32 : List ℕ → Option ℕ
unfolding parse_unsigned
parse_u32 [] = none
parse_u32 (c ∷ cs) = if c == b'+' then parse_unsigned cs else parse_unsigned (c ∷ cs)

-- `char::len_utf8`
unfoldable pub len_utf8 : ℕ → ℕ
len_utf8 c = if ltb c 0x80 then 1 else if ltb c 0x800 then 2 else if ltb c 0x10000 then 3 else 4

-- `str::len`, in bytes.
unfoldable pub byte_len : List ℕ → ℕ
unfolding len_utf8
byte_len [] = 0
byte_len (c ∷ cs) = len_utf8 c + byte_len cs

-- `u8::is_ascii_hexdigit`
unfoldable pub is_ascii_hexdigit : ℕ → Bool
is_ascii_hexdigit c =
    (leb b'0' c && leb c b'9') || ((leb b'a' c && leb c b'f') || (leb b'A' c && leb c b'F'))

-- `char::is_control`
unfoldable pub is_control : ℕ → Bool
is_control c = ltb c 0x20 || (leb 0x7f c && ltb c 0xa0)

-- `char::is_whitespace`: the property White_Space of Unicode.
unfoldable pub is_whitespace : ℕ → Bool
is_whitespace c =
    (leb 9 c && leb c 13)
    || (c == 0x20
        || (c == 0x85
            || (c == 0xa0
                || (c == 0x1680
                    || ((leb 0x2000 c && leb c 0x200a)
                        || (c == 0x2028
                            || (c == 0x2029 || (c == 0x202f || (c == 0x205f || c == 0x3000)))))))))

-- `char::is_ascii_alphanumeric`
unfoldable pub is_ascii_alphanumeric : ℕ → Bool
is_ascii_alphanumeric c =
    (leb b'0' c && leb c b'9') || ((leb b'a' c && leb c b'z') || (leb b'A' c && leb c b'Z'))

-- `char::to_ascii_lowercase`
unfoldable pub to_ascii_lowercase : ℕ → ℕ
to_ascii_lowercase c = if leb b'A' c && leb c b'Z' then c + 32 else c

-- `==` of texts that are walked.
unfoldable pub chars_eq : List ℕ → List ℕ → Bool
chars_eq [] [] = true
chars_eq [] (b ∷ t) = false
chars_eq (a ∷ s) [] = false
chars_eq (a ∷ s) (b ∷ t) = let rest = chars_eq s t in if a == b then rest else false

unfoldable pub trim_start : List ℕ → List ℕ
unfolding is_whitespace
trim_start [] = []
trim_start (c ∷ cs) = let rest = trim_start cs in if is_whitespace c then rest else c ∷ cs

unfoldable pub trim_end : List ℕ → List ℕ
unfolding is_whitespace
trim_end [] = []
trim_end (c ∷ cs) =
    let rest = trim_end cs in if is_empty rest && is_whitespace c then [] else c ∷ rest

-- `str::trim`
unfoldable pub trim : List ℕ → List ℕ
unfolding trim_start trim_end
trim s = trim_end (trim_start s)
