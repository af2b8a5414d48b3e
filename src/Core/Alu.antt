-- ===== src/Core/Alu.antt =====
-- ALU_Op_enum (modules/core/rv64/include/RV64Core.h) and alu_exec
-- (modules/core/rv64/inline_impl/rv64_common.hpp). An int64_t is its two's complement word, and
-- an operation of int64_t that overflows wraps around.
use m_emu.Base.{
  ℕ, ◌+◌, ◌-◌, ◌*◌, ◌/◌, ◌%◌, ◌^◌, Bool, ◌&&◌, Option, none, some, bit_and, bit_or, bit_xor, ltb,
  ◌==◌, if◌then◌else◌,
}
use m_emu.Words.{u64_max, sign_extend, shift_right_signed, signed_div, signed_rem, extend_128}
use m_emu.Mmu.{signed_ltb}

pub data AluOp : Type 0 where
  alu_add alu_sub alu_sll alu_slt alu_sltu alu_xor alu_srl alu_sra alu_or alu_and : AluOp
  alu_mul alu_mulh alu_mulhu alu_mulhsu alu_div alu_divu alu_rem alu_remu : AluOp
  alu_nop : AluOp

abbrev pub bool_word : Bool → ℕ
bool_word b = if b then 1 else 0

abbrev pub long_min : ℕ
long_min = 2 ^ 63

-- b & (op_32 ? 0x1f : 0x3f)
abbrev pub shift_amount : ℕ → Bool → ℕ
shift_amount b op_32 = if op_32 then b % 2 ^ 5 else b % 2 ^ 6

-- The switch; `none` is its default, a failed assertion.
unfoldable pub alu_switch : AluOp → ℕ → ℕ → Bool → Option ℕ
alu_switch AluOp.alu_add a b op_32 = some ((a + b) % 2 ^ 64)
alu_switch AluOp.alu_sub a b op_32 = some ((a + (2 ^ 64 - b)) % 2 ^ 64)
alu_switch AluOp.alu_sll a b op_32 = some (a * 2 ^ shift_amount b op_32 % 2 ^ 64)
alu_switch AluOp.alu_slt a b op_32 = some (bool_word (signed_ltb a b))
alu_switch AluOp.alu_sltu a b op_32 = some (bool_word (ltb a b))
alu_switch AluOp.alu_xor a b op_32 = some (bit_xor a b)
alu_switch AluOp.alu_srl a b op_32 =
    some ((if op_32 then a % 2 ^ 32 else a) / 2 ^ shift_amount b op_32)
alu_switch AluOp.alu_sra a b op_32 = some (shift_right_signed a (shift_amount b op_32))
alu_switch AluOp.alu_or a b op_32 = some (bit_or a b)
alu_switch AluOp.alu_and a b op_32 = some (bit_and a b)
alu_switch AluOp.alu_mul a b op_32 = some (a * b % 2 ^ 64)
alu_switch AluOp.alu_mulh a b op_32 = some (extend_128 a * extend_128 b % 2 ^ 128 / 2 ^ 64)
alu_switch AluOp.alu_mulhu a b op_32 = some (a * b / 2 ^ 64)
alu_switch AluOp.alu_mulhsu a b op_32 = some (extend_128 a * b % 2 ^ 128 / 2 ^ 64)
alu_switch AluOp.alu_div a b op_32 =
    if b == 0
    then some u64_max
    else if a == long_min && b == u64_max
    then some long_min
    else some (signed_div a b)
alu_switch AluOp.alu_divu a b op_32 =
    if b == 0
    then some u64_max
    else if op_32
    then some (a % 2 ^ 32 / (b % 2 ^ 32))
    else some (a / b)
alu_switch AluOp.alu_rem a b op_32 =
    if b == 0
    then some a
    else if a == long_min && b == u64_max
    then some 0
    else some (signed_rem a b)
alu_switch AluOp.alu_remu a b op_32 =
    if b == 0 then some a else if op_32 then some (a % 2 ^ 32 % (b % 2 ^ 32)) else some (a % b)
alu_switch AluOp.alu_nop a b op_32 = none

-- (int32_t)a for an operand or a result of a 32-bit operation
abbrev pub cut_32 : Bool → ℕ → ℕ
cut_32 op_32 a = if op_32 then sign_extend 32 a else a

unfoldable pub alu_exec : ℕ → ℕ → AluOp → Bool → Option ℕ
alu_exec a b op op_32 = elim (alu_switch op (cut_32 op_32 a) (cut_32 op_32 b) op_32) [
  | none ↦ none
  | some result ↦ some (cut_32 op_32 result)
]
