-- ===== src/Core/Inst.antt =====
-- The instruction formats of modules/core/rv64/include/rv64_inst.h, and the immediates that
-- modules/core/rv64/src/rv64_exec.cpp puts together from their fields. An instruction is its
-- 32-bit word; an immediate is an int64_t, its two's complement word.
use m_emu.Base.{ℕ, ◌+◌, ◌-◌, ◌*◌, ◌/◌, ◌%◌, ◌^◌, bit_or}
use m_emu.Words.{Field, field, get_field, sign_extend}

-- r_type
abbrev pub opcode : Field
opcode = field 0 7

abbrev pub rd : Field
rd = field 7 5

abbrev pub funct3 : Field
funct3 = field 12 3

abbrev pub rs1 : Field
rs1 = field 15 5

abbrev pub rs2 : Field
rs2 = field 20 5

abbrev pub funct7 : Field
funct7 = field 25 7

-- i_type, whose imm12 is signed
abbrev pub i_imm12 : Field
i_imm12 = field 20 12

-- s_type
abbrev pub s_imm_4_0 : Field
s_imm_4_0 = field 7 5

abbrev pub s_imm_11_5 : Field
s_imm_11_5 = field 25 7

-- b_type
abbrev pub b_imm_11 : Field
b_imm_11 = field 7 1

abbrev pub b_imm_4_1 : Field
b_imm_4_1 = field 8 4

abbrev pub b_imm_10_5 : Field
b_imm_10_5 = field 25 6

abbrev pub b_imm_12 : Field
b_imm_12 = field 31 1

-- u_type
abbrev pub u_imm_31_12 : Field
u_imm_31_12 = field 12 20

-- j_type
abbrev pub j_imm_19_12 : Field
j_imm_19_12 = field 12 8

abbrev pub j_imm_11 : Field
j_imm_11 = field 20 1

abbrev pub j_imm_10_1 : Field
j_imm_10_1 = field 21 10

abbrev pub j_imm_20 : Field
j_imm_20 = field 31 1

-- The value of a bit-field of type int.
abbrev pub get_signed : Field → ℕ → ℕ
get_signed f inst = sign_extend f.width (get_field f inst)

-- x << n on 64 bits
abbrev pub shift_left : ℕ → ℕ → ℕ
shift_left x n = x * 2 ^ n % 2 ^ 64

unfoldable pub i_immediate : ℕ → ℕ
i_immediate inst = get_signed i_imm12 inst

unfoldable pub s_immediate : ℕ → ℕ
s_immediate inst = bit_or (shift_left (get_signed s_imm_11_5 inst) 5) (get_field s_imm_4_0 inst)

unfoldable pub b_offset : ℕ → ℕ
b_offset inst =
    bit_or
      (bit_or (bit_or (shift_left (get_signed b_imm_12 inst) 12) (get_field b_imm_11 inst * 2 ^ 11))
        (get_field b_imm_10_5 inst * 2 ^ 5))
      (get_field b_imm_4_1 inst * 2 ^ 1)

unfoldable pub u_immediate : ℕ → ℕ
u_immediate inst = shift_left (get_signed u_imm_31_12 inst) 12

unfoldable pub j_offset : ℕ → ℕ
j_offset inst =
    bit_or
      (bit_or
        (bit_or (shift_left (get_signed j_imm_20 inst) 20) (get_field j_imm_19_12 inst * 2 ^ 12))
        (get_field j_imm_11 inst * 2 ^ 11))
      (get_field j_imm_10_1 inst * 2 ^ 1)

-- The macro: the bits from `l` to `r` of `value`, shifted left.
unfoldable pub binary_concat : ℕ → ℕ → ℕ → ℕ → ℕ
binary_concat value r l shift = value / 2 ^ l % 2 ^ (r - l + 1) * 2 ^ shift
