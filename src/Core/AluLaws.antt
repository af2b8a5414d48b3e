-- ===== src/Core/AluLaws.antt =====
-- Division and multiplication of alu_exec against arithmetic.
use m_emu.Base.{
  ℕ, Bool-cases, ◌/◌, refl, zero, suc, ◌+◌, ◌-◌, ◌*◌, ◌/◌, ◌%◌, ◌^◌, ◌<◌, ◌≤◌, ◌≡◌, ◌≢◌, ◌⊎◌, inl,
  inr, sym, false, ◌&&◌, some, ltb, ◌==◌, if◌then◌else◌, arith,
}
use m_emu.Words.{
  u64_max, signed_div, signed_rem, extend_128, negate, is_negative, signs_back, magnitude,
}
use m_emu.Core.Alu.{AluOp, alu_exec, alu_switch, long_min}
use native.Mathlib.Nat.{div-add-mod', mod-lt}

-- `q` and `r` are the quotient of two int64_t, cut off towards zero, and its remainder.
abbrev pub IsSignedDivision : ℕ → ℕ → ℕ → ℕ → Type 0
IsSignedDivision a b q r =
    ((q * b + r) % 2 ^ 64 ≡ a)
    × (magnitude r < magnitude b)
    × ((r ≡ 0) ⊎ (is_negative r ≡ is_negative a))

signed_remainder :
    (a m r : ℕ)
    → r < m
    → m ≤ 2 ^ 63
    → (magnitude (if ltb a (2 ^ 63) then r else negate r) < m)
      × (((if ltb a (2 ^ 63) then r else negate r) ≡ 0)
          ⊎ (is_negative (if ltb a (2 ^ 63) then r else negate r) ≡ is_negative a))
signed_remainder a m zero h k = ground arith
signed_remainder a m (suc r) h k = ground arith

signed_division :
    (a b : ℕ)
    → a < 2 ^ 64
    → b < 2 ^ 64
    → b ≢ 0
    → IsSignedDivision a b (signed_div a b) (signed_rem a b)
signed_division a b h k nz =
    let pos : 0 < magnitude b = ground arith in
    let lt : magnitude a % magnitude b < magnitude b = mod-lt (magnitude a) pos in
    let le : magnitude b ≤ 2 ^ 63 = ground arith in
    let e : magnitude a ≡ magnitude a / magnitude b * magnitude b + magnitude a % magnitude b =
      sym (div-add-mod' (magnitude a) (magnitude b)) in
    let rest = signed_remainder a (magnitude b) (magnitude a % magnitude b) lt le in
    (
      signs_back a b (magnitude a / magnitude b) (magnitude a % magnitude b) h k nz e,
      rest.0,
      rest.1,
    )

-- On two words, of which the second is not 0, DIV and REM give a quotient and a remainder: quotient
-- times divisor plus remainder is the dividend on 64 bits, the remainder is smaller than the
-- divisor in magnitude, and it is 0 or has the sign of the dividend.
pub alu_exec-div_rem :
    (a b : ℕ)
    → a < 2 ^ 64
    → b < 2 ^ 64
    → b ≢ 0
    → (q : ℕ) × (r : ℕ) × (alu_exec a b AluOp.alu_div false ≡ some q)
      × (alu_exec a b AluOp.alu_rem false ≡ some r)
      × IsSignedDivision a b q r
unfolding alu_exec alu_switch
alu_exec-div_rem a b h k nz = elim (Bool-cases (a == long_min && b == u64_max)) [
  | inl e ↦
      let ea : a ≡ long_min = ground arith in
      let eb : b ≡ u64_max = ground arith in
      (long_min, 0, ground arith, ground arith, (rw (ea, eb) refl, rw eb (omega arith), inl refl))
  | inr e ↦ (signed_div a b, signed_rem a b, ground arith, ground arith, signed_division a b h k nz)
]

pub alu_exec-divu_remu :
    (a b : ℕ)
    → b ≢ 0
    → (q : ℕ) × (r : ℕ) × (alu_exec a b AluOp.alu_divu false ≡ some q)
      × (alu_exec a b AluOp.alu_remu false ≡ some r)
      × (q * b + r ≡ a)
      × (r < b)
unfolding alu_exec alu_switch
alu_exec-divu_remu a b nz =
    (a / b, a % b, ground arith, ground arith, div-add-mod' a b, mod-lt a (omega arith))

-- high and low words of the products
pub alu_exec-mul_mulhu :
    (a b : ℕ)
    → (low : ℕ) × (high : ℕ) × (alu_exec a b AluOp.alu_mul false ≡ some low)
      × (alu_exec a b AluOp.alu_mulhu false ≡ some high)
      × (high * 2 ^ 64 + low ≡ a * b)
unfolding alu_exec alu_switch
alu_exec-mul_mulhu a b = (a * b % 2 ^ 64, a * b / 2 ^ 64, refl, refl, omega arith)

mul_multiples :
    (m a b k l : ℕ) → (a + m * k) * (b + m * l) ≡ a * b + m * (a * l + k * b + m * k * l)
mul_multiples m a b k l = grind arith

extend_128-multiple : (a : ℕ) → (k : ℕ) × (extend_128 a ≡ a + 2 ^ 64 * k)
extend_128-multiple a = (if ltb a (2 ^ 63) then 0 else 2 ^ 64 - 1, ground arith)

extend_128_mul_low : (a b : ℕ) → extend_128 a * extend_128 b % 2 ^ 64 ≡ a * b % 2 ^ 64
extend_128_mul_low a b =
    let (k, e) = extend_128-multiple a in
    let (l, f) = extend_128-multiple b in rw (e, f, mul_multiples (2 ^ 64) a b k l) (omega arith)

-- MUL and MULH give the low and the high word of the product of the two operands as signed numbers,
-- on 128 bits.
pub alu_exec-mul_mulh :
    (a b : ℕ)
    → (low : ℕ) × (high : ℕ) × (alu_exec a b AluOp.alu_mul false ≡ some low)
      × (alu_exec a b AluOp.alu_mulh false ≡ some high)
      × (high * 2 ^ 64 + low ≡ extend_128 a * extend_128 b % 2 ^ 128)
unfolding alu_exec alu_switch
alu_exec-mul_mulh a b = (
  a * b % 2 ^ 64,
  extend_128 a * extend_128 b % 2 ^ 128 / 2 ^ 64,
  refl,
  refl,
  let l = extend_128_mul_low a b in omega arith,
)
