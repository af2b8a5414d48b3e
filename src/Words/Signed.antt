-- ===== src/Words/Signed.antt =====
-- int64_t and int32_t values as their two's complement words: sign extension, shifts, the
-- truncating division of C++, and the 128-bit product.
use m_emu.Base.{
  ℕ, refl, zero, suc, ◌≢◌, ◌≤◌, ◌+◌, ◌-◌, ◌*◌, ◌/◌, ◌%◌, ◌^◌, ◌<◌, ◌≡◌, Bool, arith, ltb,
  if◌then◌else◌,
}
use native.Mathlib.Nat.{mul-sub, mul_comm, mul-le-mul_left}

-- The low `w` bits as a signed number, extended to 64 bits.
abbrev pub sign_extend : ℕ → ℕ → ℕ
sign_extend w x = if ltb (x % 2 ^ w) (2 ^ (w - 1)) then x % 2 ^ w else x % 2 ^ w + 2 ^ 64 - 2 ^ w

abbrev pub is_negative : ℕ → Bool
is_negative a = if ltb a (2 ^ 63) then Bool.false else Bool.true

-- -a on 64 bits
abbrev pub negate : ℕ → ℕ
negate a = (2 ^ 64 - a) % 2 ^ 64

abbrev pub magnitude : ℕ → ℕ
magnitude a = if ltb a (2 ^ 63) then a else 2 ^ 64 - a

-- a >> n for int64_t, which copies the sign.
abbrev pub shift_right_signed : ℕ → ℕ → ℕ
shift_right_signed a n = if ltb a (2 ^ 63) then a / 2 ^ n else 2 ^ 64 - 1 - (2 ^ 64 - 1 - a) / 2 ^ n

-- a / b and a % b for int64_t: the quotient is cut off towards zero.
abbrev pub signed_div : ℕ → ℕ → ℕ
signed_div a b =
    let q = magnitude a / magnitude b in
    if ltb a (2 ^ 63)
    then (if ltb b (2 ^ 63) then q else negate q)
    else (if ltb b (2 ^ 63) then negate q else q)

abbrev pub signed_rem : ℕ → ℕ → ℕ
signed_rem a b = let r = magnitude a % magnitude b in if ltb a (2 ^ 63) then r else negate r

-- (__int128_t)a
abbrev pub extend_128 : ℕ → ℕ
extend_128 a = if ltb a (2 ^ 63) then a else a + 2 ^ 128 - 2 ^ 64

negate-mul : (q b : ℕ) → 0 < q → q < 2 ^ 64 → negate q * b ≡ 2 ^ 64 * b - q * b
negate-mul q b h k =
    let e : negate q ≡ 2 ^ 64 - q = omega arith in
    rw (e, mul_comm (2 ^ 64 - q) b, mul-sub b (2 ^ 64) q) (rw (mul_comm b q) (omega arith))

quotient_le : (a b q r : ℕ) → q * b + r ≡ a → b ≢ 0 → q ≤ a
quotient_le a zero q r e h = absurd (h refl)
quotient_le a (suc b) q r e h = let m : q * suc b ≡ q + q * b = grind arith in omega arith

minus_plus :
    (a b q r : ℕ)
    → q * b + r ≡ 2 ^ 64 - a
    → 2 ^ 63 ≤ a
    → a < 2 ^ 64
    → b ≢ 0
    → (negate q * b + negate r) % 2 ^ 64 ≡ a
minus_plus a b zero r e h k nz =
    let z : negate 0 ≡ 0 = refl in let y : 0 * b ≡ 0 = omega arith in rw (z, y) (omega arith)
minus_plus a b (suc q) r e h k nz =
    let l = quotient_le (2 ^ 64 - a) b (suc q) r e nz in
    rw (negate-mul (suc q) b (omega arith) (omega arith)) (omega arith)

plus_minus :
    (a b q r : ℕ)
    → q * (2 ^ 64 - b) + r ≡ a
    → a < 2 ^ 63
    → 2 ^ 63 ≤ b
    → b < 2 ^ 64
    → (negate q * b + r) % 2 ^ 64 ≡ a
plus_minus a b zero r e h k l =
    let z : negate 0 ≡ 0 = refl in let y : 0 * b ≡ 0 = omega arith in rw (z, y) (omega arith)
plus_minus a b (suc q) r e h k l =
    let le = quotient_le a (2 ^ 64 - b) (suc q) r e (omega arith) in
    let m : suc q * (2 ^ 64 - b) ≡ 2 ^ 64 * suc q - suc q * b =
      rw (mul-sub (suc q) (2 ^ 64) b, mul_comm (suc q) (2 ^ 64)) refl in
    let n : suc q * b ≤ suc q * 2 ^ 64 = mul-le-mul_left (suc q) (omega arith) in
    let o : b * suc q ≤ b * 2 ^ 64 = mul-le-mul_left b (omega arith) in
    let c : b * suc q ≡ suc q * b = mul_comm b (suc q) in
    rw (negate-mul (suc q) b (omega arith) (omega arith)) (omega arith)

minus_minus :
    (a b q r : ℕ)
    → q * (2 ^ 64 - b) + r ≡ 2 ^ 64 - a
    → 2 ^ 63 ≤ a
    → a < 2 ^ 64
    → 2 ^ 63 ≤ b
    → b < 2 ^ 64
    → (q * b + negate r) % 2 ^ 64 ≡ a
minus_minus a b q r e h h2 k l =
    let m : q * (2 ^ 64 - b) ≡ 2 ^ 64 * q - q * b =
      rw (mul-sub q (2 ^ 64) b, mul_comm q (2 ^ 64)) refl in
    let n : q * b ≤ q * 2 ^ 64 = mul-le-mul_left q (omega arith) in omega arith

-- |a| = q * |b| + r, put back under the signs.
pub signs_back :
    (a b q r : ℕ)
    → a < 2 ^ 64
    → b < 2 ^ 64
    → b ≢ 0
    → magnitude a ≡ q * magnitude b + r
    → ((if ltb a (2 ^ 63)
              then (if ltb b (2 ^ 63) then q else negate q)
              else (if ltb b (2 ^ 63) then negate q else q))
            * b
          + (if ltb a (2 ^ 63) then r else negate r))
        % 2 ^ 64
      ≡ a
signs_back a b q r h k nz e =
    ground (arith, minus_plus a b q r, plus_minus a b q r, minus_minus a b q r)
