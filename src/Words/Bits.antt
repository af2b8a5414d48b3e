-- ===== src/Words/Bits.antt =====
-- Single bits of a word, and `&`, `|`, `^`, `~` on 64 bits seen bit by bit.
use Prim.Native.Nat.{digits, bitwise, bit_and-bitwise, bit_or-bitwise}
use m_emu.Base.{
  ◌∙◌, false, ℕ, zero, suc, ◌+◌, ◌-◌, ◌*◌, ◌/◌, ◌%◌, ◌^◌, ◌≤◌, ◌<◌, min, max, bit_and, bit_or, ◌≡◌,
  ◌≢◌, refl, ap, Bool, not, ◌&&◌, ◌||◌, arith, ◌==◌,
}
use native.Mathlib.Nat.{pow-suc, one-le-pow, pow-succ', div-div-eq-div-mul}

-- `x & (1 << i)` is not zero.
unfoldable pub test_bit : ℕ → ℕ → Bool
test_bit x i = x / 2 ^ i % 2 == 1

abbrev pub u64_max : ℕ
u64_max = 2 ^ 64 - 1

-- `~x` on 64 bits.
unfoldable pub bit_not : ℕ → ℕ
bit_not x = u64_max - x

module _ (unit : ℕ → ℕ) (on_digits : ℕ → ℕ → ℕ) where
  abbrev op : ℕ → ℕ → ℕ → ℕ
  op = digits unit on_digits

  -- Fuel beyond the first operand changes nothing.
  op_more : (left right fuel : ℕ) → left ≤ fuel → op (suc fuel) left right ≡ op fuel left right
  op_more zero right zero le = refl
  op_more zero right (suc fuel) le = refl
  op_more (suc left) right zero le = absurd (omega arith)
  op_more (suc left) right (suc fuel) le =
      ap (λ high. high * 2 + on_digits (suc left % 2) (right % 2))
        (op_more (suc left / 2) (right / 2) fuel (omega arith))

  op_surplus : (extra left right : ℕ) → op (extra + left) left right ≡ op left left right
  op_surplus zero left right = let e : 0 + left ≡ left = omega arith in rw e refl
  op_surplus (suc extra) left right =
      let e : suc extra + left ≡ suc (extra + left) = omega arith in
      rw e (op_more left right (extra + left) (omega arith) ∙ op_surplus extra left right)

  pub lowest_digit :
      (left right : ℕ)
      → bitwise unit on_digits (suc left) right
        ≡ bitwise unit on_digits (suc left / 2) (right / 2) * 2
          + on_digits (suc left % 2) (right % 2)
  lowest_digit left right =
      let half = suc left / 2 in
      let spare : left ≡ left - half + half = omega arith in
      ap (λ high. high * 2 + on_digits (suc left % 2) (right % 2))
        (ap (λ fuel. op fuel half (right / 2)) spare ∙ op_surplus (left - half) half (right / 2))

pub bit_and_step : (x y : ℕ) → bit_and x y ≡ bit_and (x / 2) (y / 2) * 2 + min (x % 2) (y % 2)
bit_and_step zero y = rw (bit_and-bitwise 0 y, bit_and-bitwise 0 (y / 2)) (omega arith)
bit_and_step (suc x) y =
    rw (bit_and-bitwise (suc x) y, bit_and-bitwise (suc x / 2) (y / 2))
      (lowest_digit (λ _. 0) min x y)

pub bit_or_step : (x y : ℕ) → bit_or x y ≡ bit_or (x / 2) (y / 2) * 2 + max (x % 2) (y % 2)
bit_or_step zero y = rw (bit_or-bitwise 0 y, bit_or-bitwise 0 (y / 2)) (omega arith)
bit_or_step (suc x) y =
    rw (bit_or-bitwise (suc x) y, bit_or-bitwise (suc x / 2) (y / 2))
      (lowest_digit (λ d. d) max x y)

test_bit-zero : (x : ℕ) → test_bit x 0 ≡ (x % 2 == 1)
unfolding test_bit
test_bit-zero x = ground arith

test_bit-suc : (x i : ℕ) → test_bit x (suc i) ≡ test_bit (x / 2) i
unfolding test_bit
test_bit-suc x i = rw (div-div-eq-div-mul x 2 (2 ^ i), ← pow-succ' 2 i) refl

pub test_bit-and : (a b i : ℕ) → test_bit (bit_and a b) i ≡ (test_bit a i && test_bit b i)
test_bit-and a b zero =
    rw (test_bit-zero (bit_and a b), test_bit-zero a, test_bit-zero b)
      (ground (arith, bit_and_step a b))
test_bit-and a b (suc i) =
    let half : bit_and a b / 2 ≡ bit_and (a / 2) (b / 2) = omega (arith, bit_and_step a b) in
    rw (test_bit-suc (bit_and a b) i, test_bit-suc a i, test_bit-suc b i, half)
      (test_bit-and (a / 2) (b / 2) i)

pub test_bit-or : (a b i : ℕ) → test_bit (bit_or a b) i ≡ (test_bit a i || test_bit b i)
test_bit-or a b zero =
    rw (test_bit-zero (bit_or a b), test_bit-zero a, test_bit-zero b)
      (ground (arith, bit_or_step a b))
test_bit-or a b (suc i) =
    let half : bit_or a b / 2 ≡ bit_or (a / 2) (b / 2) = omega (arith, bit_or_step a b) in
    rw (test_bit-suc (bit_or a b) i, test_bit-suc a i, test_bit-suc b i, half)
      (test_bit-or (a / 2) (b / 2) i)

-- A number of `k` ones less `x` has the bits of `x` turned over.
test_bit-ones_sub :
    (k x i : ℕ) → x < 2 ^ k → i < k → test_bit (2 ^ k - 1 - x) i ≡ not (test_bit x i)
test_bit-ones_sub zero x i h lt = absurd (omega arith)
test_bit-ones_sub (suc k) x zero h lt =
    rw (test_bit-zero (2 ^ suc k - 1 - x), test_bit-zero x) (ground (arith, pow-suc 2 k))
test_bit-ones_sub (suc k) x (suc i) h lt =
    let e : 2 ^ suc k ≡ 2 ^ k * 2 = pow-suc 2 k in
    let half : (2 ^ suc k - 1 - x) / 2 ≡ 2 ^ k - 1 - x / 2 = omega arith in
    rw (test_bit-suc (2 ^ suc k - 1 - x) i, test_bit-suc x i, half)
      (test_bit-ones_sub k (x / 2) i (omega arith) (omega arith))

pub test_bit-not : (x i : ℕ) → x < 2 ^ 64 → i < 64 → test_bit (bit_not x) i ≡ not (test_bit x i)
unfolding bit_not
test_bit-not x i h lt = test_bit-ones_sub 64 x i h lt

-- Numbers with the same bits are the same.
word_ext_fuel : (n x y : ℕ) → x ≤ n → y ≤ n → ((i : ℕ) → test_bit x i ≡ test_bit y i) → x ≡ y
word_ext_fuel zero x y p q h = omega arith
word_ext_fuel (suc n) x y p q h =
    let lowest : (x % 2 == 1) ≡ (y % 2 == 1) = rw (← test_bit-zero x, ← test_bit-zero y) (h 0) in
    let parity : x % 2 ≡ y % 2 = ground arith in
    let halves : x / 2 ≡ y / 2 =
      word_ext_fuel n (x / 2) (y / 2) (omega arith) (omega arith)
        (λ i. rw (← test_bit-suc x i, ← test_bit-suc y i) (h (suc i))) in
    omega arith

pub word_ext : (x y : ℕ) → ((i : ℕ) → test_bit x i ≡ test_bit y i) → x ≡ y
word_ext x y h = word_ext_fuel (x + y) x y (omega arith) (omega arith) h

pub test_bit-zero_word : (i : ℕ) → test_bit 0 i ≡ false
test_bit-zero_word zero = test_bit-zero 0
test_bit-zero_word (suc i) = test_bit-suc 0 i ∙ test_bit-zero_word i

-- A number below `2 ^ k` has no bit from `k` on.
pub test_bit_of_lt : (k x i : ℕ) → x < 2 ^ k → k ≤ i → test_bit x i ≡ false
test_bit_of_lt zero x i h le = let e : x ≡ 0 = omega arith in rw e (test_bit-zero_word i)
test_bit_of_lt (suc k) x zero h le = absurd (omega arith)
test_bit_of_lt (suc k) x (suc i) h le =
    test_bit-suc x i ∙ test_bit_of_lt k (x / 2) i (omega (arith, pow-suc 2 k)) (omega arith)

pub bit_and_zero : (a : ℕ) → bit_and a 0 ≡ 0
bit_and_zero a =
    word_ext (bit_and a 0) 0 λ i. ground (arith, test_bit-and a 0 i, test_bit-zero_word i)

pub bit_and-one : (a : ℕ) → bit_and a 1 ≡ a % 2
bit_and-one a = omega (arith, bit_and_step a 1, bit_and_zero (a / 2))

pub bit_and-ones : (k x : ℕ) → x < 2 ^ k → bit_and x (2 ^ k - 1) ≡ x
bit_and-ones zero x h = ground (arith, bit_and_zero x)
bit_and-ones (suc k) x h =
    let e : 2 ^ suc k ≡ 2 ^ k * 2 = pow-suc 2 k in
    let pos : 0 < 2 ^ k = one-le-pow k 2 (omega arith) in
    let half : (2 ^ suc k - 1) / 2 ≡ 2 ^ k - 1 = omega arith in
    let odd : (2 ^ suc k - 1) % 2 ≡ 1 = omega arith in
    let ih : bit_and (x / 2) (2 ^ k - 1) ≡ x / 2 = bit_and-ones k (x / 2) (omega arith) in
    rw (bit_and_step x (2 ^ suc k - 1), half, odd, ih) (omega arith)

pub test_bit-pow_ne : (b i : ℕ) → i ≢ b → test_bit (2 ^ b) i ≡ false
test_bit-pow_ne zero zero ne = absurd (ne refl)
test_bit-pow_ne (suc b) zero ne =
    let e : 2 ^ suc b ≡ 2 ^ b * 2 = pow-suc 2 b in rw (test_bit-zero (2 ^ suc b)) (ground arith)
test_bit-pow_ne zero (suc i) ne = test_bit-suc 1 i ∙ test_bit-zero_word i
test_bit-pow_ne (suc b) (suc i) ne =
    let e : 2 ^ suc b / 2 ≡ 2 ^ b = omega (arith, pow-suc 2 b) in
    rw (test_bit-suc (2 ^ suc b) i, e) (test_bit-pow_ne b i (λ q. ne (ap suc q)))
