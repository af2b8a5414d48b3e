-- ===== src/Gdb/Text.antt =====
-- The conversions of the C library that the GDB stub calls, on characters as bytes: %02x, strtoul
-- and strtoll to base 16. The stub applies the last two to runs of hexadecimal digits only, so that
-- spaces, signs and prefixes are left out.
use m_emu.Base.{
  ℕ, ◌+◌, ◌-◌, ◌*◌, ◌/◌, ◌%◌, ◌^◌, min, Bool, ◌&&◌, ◌||◌, List, [], ◌∷◌, ◌++◌, ltb, leb,
  if◌then◌else◌,
}

-- [0-9A-Fa-f]
unfoldable pub is_hex : ℕ → Bool
is_hex c = leb b'0' c && leb c b'9' || leb b'A' c && leb c b'F' || leb b'a' c && leb c b'f'

abbrev pub hex_value : ℕ → ℕ
hex_value c = if leb c b'9' then c - b'0' else if leb c b'F' then c - 55 else c - 87

abbrev pub hex_digit : ℕ → ℕ
hex_digit v = if ltb v 10 then b'0' + v else 87 + v

-- %02x of a byte.
unfoldable pub hex_byte : ℕ → List ℕ
hex_byte b = hex_digit (b / 16) ∷ hex_digit (b % 16) ∷ []

unfoldable pub hex_dump : List ℕ → List ℕ
hex_dump [] = []
hex_dump (b ∷ bs) = hex_byte b ++ hex_dump bs

-- The number that the leading hexadecimal digits stand for, with `value` before them.
unfoldable pub read_hex : ℕ → List ℕ → ℕ
read_hex value [] = value
read_hex value (c ∷ cs) =
    let later = read_hex (value * 16 + hex_value c) cs in if is_hex c then later else value

-- A number that does not fit becomes LLONG_MAX.
unfoldable pub strtoll : List ℕ → ℕ
strtoll text = min (read_hex 0 text) (2 ^ 63 - 1)
