-- ===== src/Gdb/Hex.antt =====
-- Bytes and numbers as hexadecimal text, and back.
use m_emu.Base.{
  ℕ, ◌-◌, ◌*◌, ◌/◌, ◌%◌, ◌^◌, ◌<◌, ◌≡◌, refl, ap, ap₂, true, some, List, [], ◌∷◌, ◌++◌, length,
  arith, ltb, if◌then◌else◌,
}
use m_emu.Words.{IsBytes}
use m_emu.Gdb.Text.{is_hex, hex_value, hex_digit, hex_byte, hex_dump, read_hex, strtoll}
use m_emu.Gdb.Rsp.{read_pairs, parse_byte_stream}

-- Every character is a hexadecimal digit.
abbrev pub AllHex : List ℕ → Type 0
AllHex [] = Unit {0}
AllHex (c ∷ cs) = (is_hex c ≡ true) × AllHex cs

hex_digit_lem : (v : ℕ) → v < 16 → (is_hex (hex_digit v) ≡ true) × (hex_value (hex_digit v) ≡ v)
unfolding is_hex
hex_digit_lem v h = (ground arith, ground arith)

pub append-AllHex : (cs ds : List ℕ) → AllHex cs → AllHex ds → AllHex (cs ++ ds)
append-AllHex [] ds h k = k
append-AllHex (c ∷ cs) ds h k = (h.0, append-AllHex cs ds h.1 k)

read_hex-hex_byte : (b : ℕ) → b < 256 → read_hex 0 (hex_byte b) % 256 ≡ b
unfolding read_hex hex_byte
read_hex-hex_byte b h =
    let high = hex_digit_lem (b / 16) (omega arith) in
    let low = hex_digit_lem (b % 16) (omega arith) in
    rw (high.0, low.0) (rw (high.1, low.1) (omega arith))

pub hex_dump-AllHex : (bs : List ℕ) → IsBytes bs → AllHex (hex_dump bs)
unfolding hex_dump hex_byte
hex_dump-AllHex [] h = tt
hex_dump-AllHex (b ∷ bs) h = (
  (hex_digit_lem (b / 16) (omega (arith, h.0))).0,
  ((hex_digit_lem (b % 16) (omega arith)).0, hex_dump-AllHex bs h.1),
)

pub length-hex_dump : (bs : List ℕ) → length (hex_dump bs) ≡ 2 * length bs
unfolding hex_dump hex_byte
length-hex_dump [] = refl
length-hex_dump (b ∷ bs) = omega (arith, length-hex_dump bs)

read_pairs-hex_dump : (bs : List ℕ) → IsBytes bs → read_pairs (hex_dump bs) ≡ bs
unfolding hex_dump read_pairs hex_byte
read_pairs-hex_dump [] h = refl
read_pairs-hex_dump (b ∷ bs) h =
    ap₂ (λ c cs. c ∷ cs) (read_hex-hex_byte b h.0) (read_pairs-hex_dump bs h.1)

pub parse_byte_stream-hex_dump :
    (bs : List ℕ) → IsBytes bs → parse_byte_stream (hex_dump bs) ≡ some bs
unfolding parse_byte_stream
parse_byte_stream-hex_dump bs h =
    let even : length (hex_dump bs) % 2 ≡ 0 = omega (arith, length-hex_dump bs) in
    rw even (ap some (read_pairs-hex_dump bs h))

-- A number that fits a `long long` is read as it is, a larger one as the largest.
pub strtoll_lem :
    (text : List ℕ)
    → strtoll text ≡ (if ltb (read_hex 0 text) (2 ^ 63) then read_hex 0 text else 2 ^ 63 - 1)
unfolding strtoll
strtoll_lem text = ground arith
