-- ===== src/Identity/Wire/Encode.antt =====
-- The writers at the top of crates/identity/src/wire.rs, the tags, and decimal numbers.
pub mod Split
use Prim.Native.Char.{code}
use wavvon_server.Base.{
  ℕ, zero, suc, ◌+◌, ◌/◌, ◌%◌, ◌^◌, String, List, [], ◌∷◌, ◌++◌, length, ltb, if◌then◌else◌,
}

abbrev pub Bytes : Type 0
Bytes = List ℕ

-- The bytes of an ASCII text.
abbrev pub codes : String → Bytes
codes String.[] = []
codes (String.◌∷◌ c s) = code c ∷ codes s

-- `to_le_bytes` of a number of `k` bytes.
unfoldable pub le_bytes : ℕ → ℕ → Bytes
le_bytes zero v = []
le_bytes (suc k) v = v % 256 ∷ le_bytes k (v / 256)

unfoldable pub write_u32_le : ℕ → Bytes
unfolding le_bytes
write_u32_le v = le_bytes 4 v

unfoldable pub write_u64_le : ℕ → Bytes
unfolding le_bytes
write_u64_le v = le_bytes 8 v

-- `len() as u32` wraps.
unfoldable pub write_str : Bytes → Bytes
unfolding write_u32_le
write_str s = write_u32_le (length s % 2 ^ 32) ++ s

unfoldable pub write_strs : List Bytes → Bytes
unfolding write_str
write_strs [] = []
write_strs (s ∷ v) = write_str s ++ write_strs v

unfoldable pub write_str_vec : List Bytes → Bytes
unfolding write_u32_le write_strs
write_str_vec v = write_u32_le (length v % 2 ^ 32) ++ write_strs v

-- `to_string()` of a number of at most `k` digits.
unfoldable pub decimal : ℕ → ℕ → Bytes
decimal zero n = []
decimal (suc k) n =
    let front = decimal k (n / 10) in
    if ltb n 10 then (48 + n) ∷ [] else front ++ (48 + n % 10) ∷ []

-- A `u32` has ten digits at most.
unfoldable pub u32_to_string : ℕ → Bytes
unfolding decimal
u32_to_string n = decimal 10 n

-- A domain tag is a text closed by NUL.
abbrev pub tagged : String → Bytes → Bytes
tagged tag payload = codes tag ++ 0 ∷ payload
