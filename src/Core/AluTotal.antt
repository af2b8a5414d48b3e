-- ===== src/Core/AluTotal.antt =====
-- alu_exec has a result for every operation, and the result is a word of the width asked for.
use m_emu.Base.{
  ℕ, ◌/◌, refl, ◌*◌, ◌/◌, ◌%◌, ◌^◌, ◌<◌, ◌≤◌, ◌≡◌, ◌≢◌, Bool, true, false, ◌&&◌, some, ◌==◌,
  if◌then◌else◌, arith,
}
use m_emu.Words.{
  bit_and-lt, bit_or-lt, bit_xor-lt, u64_max, sign_extend, shift_right_signed, signed_div,
  signed_rem, magnitude,
}
use m_emu.Core.Alu.{AluOp, alu_exec, alu_switch, long_min, shift_amount, cut_32}
use native.Mathlib.Nat.{div-le_self, mod-le, mul-le-mul_left}

shift_right_signed-lt : (a n : ℕ) → a < 2 ^ 64 → shift_right_signed a n < 2 ^ 64
shift_right_signed-lt a n h = ground (arith, div-le_self a (2 ^ n))

signed_div-lt : (a b : ℕ) → a < 2 ^ 64 → signed_div a b < 2 ^ 64
signed_div-lt a b h =
    let l : magnitude a / magnitude b ≤ magnitude a = div-le_self (magnitude a) (magnitude b) in
    let m : magnitude a ≤ 2 ^ 63 = ground arith in ground arith

signed_rem-lt : (a b : ℕ) → a < 2 ^ 64 → signed_rem a b < 2 ^ 64
signed_rem-lt a b h =
    let l : magnitude a % magnitude b ≤ magnitude a = mod-le (magnitude a) (magnitude b) in
    let m : magnitude a ≤ 2 ^ 63 = ground arith in ground arith

-- The switch gives a word for every operation.
alu_switch-returns :
    (op : AluOp) (a b : ℕ) (op_32 : Bool)
    → a < 2 ^ 64
    → b < 2 ^ 64
    → op ≢ AluOp.alu_nop
    → (r : ℕ) × (alu_switch op a b op_32 ≡ some r) × (r < 2 ^ 64)
unfolding alu_switch
alu_switch-returns AluOp.alu_add a b op_32 h k n = (_, refl, omega arith)
alu_switch-returns AluOp.alu_sub a b op_32 h k n = (_, refl, omega arith)
alu_switch-returns AluOp.alu_sll a b op_32 h k n = (_, refl, omega arith)
alu_switch-returns AluOp.alu_slt a b op_32 h k n = (_, refl, ground arith)
alu_switch-returns AluOp.alu_sltu a b op_32 h k n = (_, refl, ground arith)
alu_switch-returns AluOp.alu_xor a b op_32 h k n = (_, refl, bit_xor-lt 64 a b h k)
alu_switch-returns AluOp.alu_srl a b op_32 h k n = (
  _,
  refl,
  ground (
    arith,
    div-le_self (a % 2 ^ 32) (2 ^ shift_amount b true),
    div-le_self a (2 ^ shift_amount b false),
  ),
)
alu_switch-returns AluOp.alu_sra a b op_32 h k n =
    (_, refl, shift_right_signed-lt a (shift_amount b op_32) h)
alu_switch-returns AluOp.alu_or a b op_32 h k n = (_, refl, bit_or-lt 64 a b h k)
alu_switch-returns AluOp.alu_and a b op_32 h k n = (_, refl, bit_and-lt 64 a b h k)
alu_switch-returns AluOp.alu_mul a b op_32 h k n = (_, refl, omega arith)
alu_switch-returns AluOp.alu_mulh a b op_32 h k n = (_, refl, omega arith)
alu_switch-returns AluOp.alu_mulhu a b op_32 h k n =
    (_, refl, (let l : a * b ≤ a * 2 ^ 64 = mul-le-mul_left a (omega arith) in omega arith))
alu_switch-returns AluOp.alu_mulhsu a b op_32 h k n = (_, refl, omega arith)
alu_switch-returns AluOp.alu_div a b op_32 h k n = (
  if b == 0 then u64_max else if a == long_min && b == u64_max then long_min else signed_div a b,
  ground arith,
  ground (arith, signed_div-lt a b h),
)
alu_switch-returns AluOp.alu_divu a b op_32 h k n = (
  if b == 0 then u64_max else if op_32 then a % 2 ^ 32 / (b % 2 ^ 32) else a / b,
  ground arith,
  ground (arith, div-le_self (a % 2 ^ 32) (b % 2 ^ 32), div-le_self a b),
)
alu_switch-returns AluOp.alu_rem a b op_32 h k n = (
  if b == 0 then a else if a == long_min && b == u64_max then 0 else signed_rem a b,
  ground arith,
  ground (arith, signed_rem-lt a b h),
)
alu_switch-returns AluOp.alu_remu a b op_32 h k n = (
  if b == 0 then a else if op_32 then a % 2 ^ 32 % (b % 2 ^ 32) else a % b,
  ground arith,
  ground (arith, mod-le (a % 2 ^ 32) (b % 2 ^ 32), mod-le a b),
)
alu_switch-returns AluOp.alu_nop a b op_32 h k n = absurd (n refl)

cut_32-lt : (op_32 : Bool) (a : ℕ) → a < 2 ^ 64 → cut_32 op_32 a < 2 ^ 64
cut_32-lt op_32 a h = ground arith

-- On two words every operation but ALU_NOP gives a word, and a 32-bit operation gives the sign
-- extension of its low 32 bits.
pub alu_exec-returns :
    (a b : ℕ) (op : AluOp) (op_32 : Bool)
    → a < 2 ^ 64
    → b < 2 ^ 64
    → op ≢ AluOp.alu_nop
    → (r : ℕ) × (alu_exec a b op op_32 ≡ some r)
      × (r < 2 ^ 64)
      × (op_32 ≡ true → sign_extend 32 r ≡ r)
unfolding alu_exec
alu_exec-returns a b op op_32 h k n =
    let (r, e, l) =
      alu_switch-returns op (cut_32 op_32 a) (cut_32 op_32 b) op_32 (cut_32-lt op_32 a h)
        (cut_32-lt op_32 b k) n in
    (cut_32 op_32 r, rw (alu_exec, e) refl, cut_32-lt op_32 r l, ground arith)

alu_switch-some :
    (op : AluOp) (a b : ℕ) (op_32 : Bool)
    → op ≢ AluOp.alu_nop
    → (r : ℕ) × (alu_switch op a b op_32 ≡ some r)
unfolding alu_switch
alu_switch-some AluOp.alu_add a b op_32 n = (_, refl)
alu_switch-some AluOp.alu_sub a b op_32 n = (_, refl)
alu_switch-some AluOp.alu_sll a b op_32 n = (_, refl)
alu_switch-some AluOp.alu_slt a b op_32 n = (_, refl)
alu_switch-some AluOp.alu_sltu a b op_32 n = (_, refl)
alu_switch-some AluOp.alu_xor a b op_32 n = (_, refl)
alu_switch-some AluOp.alu_srl a b op_32 n = (_, refl)
alu_switch-some AluOp.alu_sra a b op_32 n = (_, refl)
alu_switch-some AluOp.alu_or a b op_32 n = (_, refl)
alu_switch-some AluOp.alu_and a b op_32 n = (_, refl)
alu_switch-some AluOp.alu_mul a b op_32 n = (_, refl)
alu_switch-some AluOp.alu_mulh a b op_32 n = (_, refl)
alu_switch-some AluOp.alu_mulhu a b op_32 n = (_, refl)
alu_switch-some AluOp.alu_mulhsu a b op_32 n = (_, refl)
alu_switch-some AluOp.alu_div a b op_32 n = (
  if b == 0 then u64_max else if a == long_min && b == u64_max then long_min else signed_div a b,
  ground arith,
)
alu_switch-some AluOp.alu_divu a b op_32 n =
    (if b == 0 then u64_max else if op_32 then a % 2 ^ 32 / (b % 2 ^ 32) else a / b, ground arith)
alu_switch-some AluOp.alu_rem a b op_32 n = (
  if b == 0 then a else if a == long_min && b == u64_max then 0 else signed_rem a b,
  ground arith,
)
alu_switch-some AluOp.alu_remu a b op_32 n =
    (if b == 0 then a else if op_32 then a % 2 ^ 32 % (b % 2 ^ 32) else a % b, ground arith)
alu_switch-some AluOp.alu_nop a b op_32 n = absurd (n refl)

-- Every operation but ALU_NOP has a result.
pub alu_exec-some :
    (a b : ℕ) (op : AluOp) (op_32 : Bool)
    → op ≢ AluOp.alu_nop
    → (r : ℕ) × (alu_exec a b op op_32 ≡ some r)
unfolding alu_exec
alu_exec-some a b op op_32 n =
    let (r, e) = alu_switch-some op (cut_32 op_32 a) (cut_32 op_32 b) op_32 n in
    (cut_32 op_32 r, rw (alu_exec, e) refl)
