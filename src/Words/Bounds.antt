-- ===== src/Words/Bounds.antt =====
-- The bitwise operators keep words words, and parts with no common bit add up.
use Prim.Native.Nat.{bit_xor-bitwise, differ}
use m_emu.Base.{
  ℕ, zero, suc, ◌+◌, ◌*◌, ◌/◌, ◌%◌, ◌^◌, ◌<◌, bit_and, bit_or, bit_xor, ◌≡◌, sym, arith,
}
use m_emu.Words.Bits.{
  bit_and_step, bit_or_step, lowest_digit, word_ext, test_bit-or, test_bit-zero_word,
}
use native.Mathlib.Nat.{pow-suc, mul_assoc}

pub bit_xor_step : (x y : ℕ) → bit_xor x y ≡ bit_xor (x / 2) (y / 2) * 2 + differ (x % 2) (y % 2)
bit_xor_step zero y = rw (bit_xor-bitwise 0 y, bit_xor-bitwise 0 (y / 2)) (omega arith)
bit_xor_step (suc x) y =
    rw (bit_xor-bitwise (suc x) y, bit_xor-bitwise (suc x / 2) (y / 2))
      (lowest_digit (λ b. b) differ x y)

differ_digits : (x y : ℕ) → x < 2 → y < 2 → differ x y < 2
differ_digits zero y h k = k
differ_digits (suc zero) zero h k = h
differ_digits (suc zero) (suc zero) h k = omega arith
differ_digits (suc zero) (suc (suc y)) h k = absurd (omega arith)
differ_digits (suc (suc x)) y h k = absurd (omega arith)

pub bit_and-lt : (k x y : ℕ) → x < 2 ^ k → y < 2 ^ k → bit_and x y < 2 ^ k
bit_and-lt zero x y h l =
    let ex : x ≡ 0 = omega arith in let ey : y ≡ 0 = omega arith in rw (ex, ey) (omega arith)
bit_and-lt (suc k) x y h l =
    let ih : bit_and (x / 2) (y / 2) < 2 ^ k =
      bit_and-lt k (x / 2) (y / 2) (omega (arith, pow-suc 2 k)) (omega (arith, pow-suc 2 k)) in
    omega (arith, bit_and_step x y, pow-suc 2 k)

pub bit_or-lt : (k x y : ℕ) → x < 2 ^ k → y < 2 ^ k → bit_or x y < 2 ^ k
bit_or-lt zero x y h l =
    let ex : x ≡ 0 = omega arith in let ey : y ≡ 0 = omega arith in rw (ex, ey) (omega arith)
bit_or-lt (suc k) x y h l =
    let ih : bit_or (x / 2) (y / 2) < 2 ^ k =
      bit_or-lt k (x / 2) (y / 2) (omega (arith, pow-suc 2 k)) (omega (arith, pow-suc 2 k)) in
    omega (arith, bit_or_step x y, pow-suc 2 k)

pub bit_xor-lt : (k x y : ℕ) → x < 2 ^ k → y < 2 ^ k → bit_xor x y < 2 ^ k
bit_xor-lt zero x y h l =
    let ex : x ≡ 0 = omega arith in let ey : y ≡ 0 = omega arith in rw (ex, ey) (omega arith)
bit_xor-lt (suc k) x y h l =
    let ih : bit_xor (x / 2) (y / 2) < 2 ^ k =
      bit_xor-lt k (x / 2) (y / 2) (omega (arith, pow-suc 2 k)) (omega (arith, pow-suc 2 k)) in
    let d = differ_digits (x % 2) (y % 2) (omega arith) (omega arith) in
    omega (arith, bit_xor_step x y, pow-suc 2 k)

bit_or_zero : (x : ℕ) → bit_or x 0 ≡ x
bit_or_zero x = word_ext (bit_or x 0) x λ i. ground (arith, test_bit-or x 0 i, test_bit-zero_word i)

-- `x` in the bits from `k` on and `y` below them.
pub bit_or-parts : (k x y : ℕ) → y < 2 ^ k → bit_or (x * 2 ^ k) y ≡ x * 2 ^ k + y
bit_or-parts zero x y h =
    let ey : y ≡ 0 = omega arith in rw (ey, bit_or_zero (x * 2 ^ 0)) (omega arith)
bit_or-parts (suc k) x y h =
    let e : 2 ^ suc k ≡ 2 ^ k * 2 = pow-suc 2 k in
    let m : x * 2 ^ suc k ≡ x * 2 ^ k * 2 = rw e (sym (mul_assoc x (2 ^ k) 2)) in
    let half : x * 2 ^ suc k / 2 ≡ x * 2 ^ k = omega arith in
    let ih : bit_or (x * 2 ^ k) (y / 2) ≡ x * 2 ^ k + y / 2 =
      bit_or-parts k x (y / 2) (omega arith) in
    rw (bit_or_step (x * 2 ^ suc k) y, half, ih) (omega arith)
