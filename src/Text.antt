-- ===== src/Text.antt =====
-- Go's strings are sequences of bytes: a text is the list of its bytes. The functions are those of
-- `strings`, `strconv`, `encoding/hex` and `fmt` that the program calls.
pub mod Decimal
pub mod Hex
pub mod Parts
pub mod Lines
use Prim.Native.Char.{code}
use Prim.Native.String.{String}
use simple_blockchain_client.Prelude.{
  ◌||◌, ℕ, ◌+◌, Bool, true, false, ◌&&◌, List, [], ◌∷◌, map, leb, if◌then◌else◌, ◌==◌, nat_eq,
  bytes_eq,
}

abbrev pub Bytes : Type 0
Bytes = List ℕ

-- The bytes of a literal.
abbrev pub codes : String → Bytes
codes String.[] = []
codes (String.◌∷◌ c s) = code c ∷ codes s

abbrev pub is_empty : Bytes → Bool
is_empty [] = true
is_empty (c ∷ s) = false

-- `strings.HasPrefix(s, p)`
abbrev pub has_prefix : Bytes → Bytes → Bool
has_prefix s [] = true
has_prefix [] (p ∷ ps) = false
has_prefix (c ∷ s) (p ∷ ps) = c == p && has_prefix s ps

abbrev pub lower : ℕ → ℕ
lower c = if leb b'A' c && leb c b'Z' then c + 32 else c

-- `strings.EqualFold(s, t)` where `s` is of the letters of a hexadecimal address: none of these
-- has a fold partner beyond its two ASCII cases.
unfoldable pub equal_fold : Bytes → Bytes → Bool
equal_fold s t = map lower s == map lower t

-- `strings.TrimPrefix(s, "0x")`
unfoldable pub trim_0x : Bytes → Bytes
trim_0x [] = []
trim_0x (a ∷ []) = a ∷ []
trim_0x (a ∷ b ∷ s) = if a == b'0' && b == b'x' then s else a ∷ b ∷ s

-- Whether a text is in a list.
abbrev pub contains : Bytes → List Bytes → Bool
contains a [] = false
contains a (b ∷ l) = b == a || contains a l
