-- ===== src/Words/Bytes.antt =====
-- Little-endian bytes: what `memcpy` moves between a buffer and an object in memory.
use m_emu.Base.{
  ℕ, zero, suc, ◌+◌, ◌*◌, ◌/◌, ◌%◌, ◌^◌, ◌≤◌, ◌<◌, ◌≡◌, refl, ap, ◌∙◌, List, [], ◌∷◌, ◌++◌, arith,
  length, take, drop, set, length-append, length-take, length-drop, take-append-drop,
}
use native.Mathlib.Nat.{pow-suc, pow-zero, zero-add}

unfoldable pub le_bytes : ℕ → ℕ → List ℕ
le_bytes zero x = []
le_bytes (suc n) x = (x % 256) ∷ le_bytes n (x / 256)

unfoldable pub from_le : List ℕ → ℕ
from_le [] = 0
from_le (b ∷ bs) = b + 256 * from_le bs

-- `size` bytes from offset `off` on.
unfoldable pub slice : ℕ → ℕ → List ℕ → List ℕ
slice off size bs = take size (drop off bs)

-- The bytes of `buf` written from offset `off` on; what falls outside is dropped.
unfoldable pub splice : ℕ → List ℕ → List ℕ → List ℕ
splice zero [] xs = xs
splice zero (b ∷ buf) [] = []
splice zero (b ∷ buf) (x ∷ xs) = b ∷ splice zero buf xs
splice (suc off) buf [] = []
splice (suc off) buf (x ∷ xs) = x ∷ splice off buf xs

-- An array of words of `w` bytes as bytes, and back.
unfoldable pub pack : ℕ → List ℕ → List ℕ
pack w [] = []
pack w (x ∷ xs) = le_bytes w x ++ pack w xs

unfoldable pub unpack : ℕ → ℕ → List ℕ → List ℕ
unpack w zero bs = []
unpack w (suc n) bs = from_le (take w bs) ∷ unpack w n (drop w bs)

abbrev pub AllBelow : ℕ → List ℕ → Type 0
AllBelow m [] = Unit {0}
AllBelow m (x ∷ xs) = (x < m) × AllBelow m xs

abbrev pub IsBytes : List ℕ → Type 0
IsBytes bs = AllBelow 256 bs

pub length-le_bytes : (n x : ℕ) → length (le_bytes n x) ≡ n
unfolding le_bytes
length-le_bytes zero x = refl
length-le_bytes (suc n) x = ap suc (length-le_bytes n (x / 256))

pub le_bytes-IsBytes : (n x : ℕ) → IsBytes (le_bytes n x)
unfolding le_bytes
le_bytes-IsBytes zero x = tt
le_bytes-IsBytes (suc n) x = (omega arith, le_bytes-IsBytes n (x / 256))

pub from_le-le_bytes : (n x : ℕ) → x < 256 ^ n → from_le (le_bytes n x) ≡ x
unfolding le_bytes from_le
from_le-le_bytes zero x h = omega (arith, pow-zero 256)
from_le-le_bytes (suc n) x h =
    let ih : from_le (le_bytes n (x / 256)) ≡ x / 256 =
      from_le-le_bytes n (x / 256) (omega (arith, pow-suc 256 n)) in
    omega arith

pub le_bytes-from_le : (bs : List ℕ) → IsBytes bs → le_bytes (length bs) (from_le bs) ≡ bs
unfolding le_bytes from_le
le_bytes-from_le [] h = refl
le_bytes-from_le (b ∷ bs) h =
    let low : (b + 256 * from_le bs) % 256 ≡ b = omega (arith, h.0) in
    let high : (b + 256 * from_le bs) / 256 ≡ from_le bs = omega (arith, h.0) in
    rw (low, high, le_bytes-from_le bs h.1) refl

pub from_le-lt : (bs : List ℕ) → IsBytes bs → from_le bs < 256 ^ length bs
unfolding from_le
from_le-lt [] h = omega (arith, pow-zero 256)
from_le-lt (b ∷ bs) h = omega (arith, h.0, from_le-lt bs h.1, pow-suc 256 (length bs))

pub length-splice : (off : ℕ) (buf xs : List ℕ) → length (splice off buf xs) ≡ length xs
unfolding splice
length-splice zero [] xs = refl
length-splice zero (b ∷ buf) [] = refl
length-splice zero (b ∷ buf) (x ∷ xs) = ap suc (length-splice zero buf xs)
length-splice (suc off) buf [] = refl
length-splice (suc off) buf (x ∷ xs) = ap suc (length-splice off buf xs)

-- Reading back what was written.
pub slice-splice :
    (off : ℕ) (buf xs : List ℕ)
    → off + length buf ≤ length xs
    → slice off (length buf) (splice off buf xs) ≡ buf
unfolding slice splice
slice-splice zero [] xs h = refl
slice-splice zero (b ∷ buf) [] h = absurd (omega arith)
slice-splice zero (b ∷ buf) (x ∷ xs) h = ap (λ t. b ∷ t) (slice-splice zero buf xs (omega arith))
slice-splice (suc off) [] [] h = absurd (omega arith)
slice-splice (suc off) (b ∷ buf) [] h = absurd (omega arith)
slice-splice (suc off) buf (x ∷ xs) h = slice-splice off buf xs (omega arith)

pub splice-IsBytes :
    (off : ℕ) (buf xs : List ℕ) → IsBytes buf → IsBytes xs → IsBytes (splice off buf xs)
unfolding splice
splice-IsBytes zero [] xs h k = k
splice-IsBytes zero (b ∷ buf) [] h k = tt
splice-IsBytes zero (b ∷ buf) (x ∷ xs) h k = (h.0, splice-IsBytes zero buf xs h.1 k.1)
splice-IsBytes (suc off) buf [] h k = tt
splice-IsBytes (suc off) buf (x ∷ xs) h k = (k.0, splice-IsBytes off buf xs h k.1)

pub append-IsBytes : (xs ys : List ℕ) → IsBytes xs → IsBytes ys → IsBytes (xs ++ ys)
append-IsBytes [] ys h k = k
append-IsBytes (x ∷ xs) ys h k = (h.0, append-IsBytes xs ys h.1 k)

pub pack-IsBytes : (w : ℕ) (xs : List ℕ) → IsBytes (pack w xs)
unfolding pack
pack-IsBytes w [] = tt
pack-IsBytes w (x ∷ xs) =
    append-IsBytes (le_bytes w x) (pack w xs) (le_bytes-IsBytes w x) (pack-IsBytes w xs)

pub length-pack : (w : ℕ) (xs : List ℕ) → length (pack w xs) ≡ w * length xs
unfolding pack
length-pack w [] = omega arith
length-pack w (x ∷ xs) =
    rw (length-append (le_bytes w x) (pack w xs), length-le_bytes w x, length-pack w xs)
      (grind arith)

take-append : (xs ys : List ℕ) → take (length xs) (xs ++ ys) ≡ xs
take-append [] ys = refl
take-append (x ∷ xs) ys = ap (λ t. x ∷ t) (take-append xs ys)

drop-append : (xs ys : List ℕ) → drop (length xs) (xs ++ ys) ≡ ys
drop-append [] ys = refl
drop-append (x ∷ xs) ys = drop-append xs ys

pub take_word : (w x : ℕ) (ys : List ℕ) → take w (le_bytes w x ++ ys) ≡ le_bytes w x
take_word w x ys =
    let h : take (length (le_bytes w x)) (le_bytes w x ++ ys) ≡ le_bytes w x =
      take-append (le_bytes w x) ys in
    rw (length-le_bytes w x) at h

pub drop_word : (w x : ℕ) (ys : List ℕ) → drop w (le_bytes w x ++ ys) ≡ ys
drop_word w x ys =
    let h : drop (length (le_bytes w x)) (le_bytes w x ++ ys) ≡ ys =
      drop-append (le_bytes w x) ys in
    rw (length-le_bytes w x) at h

pub unpack-pack :
    (w : ℕ) (xs : List ℕ) → AllBelow (256 ^ w) xs → unpack w (length xs) (pack w xs) ≡ xs
unfolding unpack pack
unpack-pack w [] h = refl
unpack-pack w (x ∷ xs) h =
    rw (take_word w x (pack w xs), drop_word w x (pack w xs), from_le-le_bytes w x h.0)
      (ap (λ t. x ∷ t) (unpack-pack w xs h.1))

-- Writing into the second of two stretches of memory, and over the whole first one.
splice_right :
    (o : ℕ) (buf front back : List ℕ)
    → splice (length front + o) buf (front ++ back) ≡ front ++ splice o buf back
unfolding splice
splice_right o buf [] back = rw zero-add
splice_right o buf (x ∷ front) back =
    let e : suc (length front) + o ≡ suc (length front + o) = omega arith in
    rw e (ap (λ t. x ∷ t) (splice_right o buf front back))

splice_left :
    (buf front back : List ℕ)
    → length buf ≡ length front
    → splice 0 buf (front ++ back) ≡ buf ++ back
unfolding splice
splice_left [] [] back h = refl
splice_left [] (x ∷ front) back h = absurd (omega arith)
splice_left (b ∷ buf) [] back h = absurd (omega arith)
splice_left (b ∷ buf) (x ∷ front) back h =
    ap (λ t. b ∷ t) (splice_left buf front back (omega arith))

-- A write of one aligned word of an array sets that word.
pub splice-pack :
    (w h : ℕ) (buf xs : List ℕ)
    → length buf ≡ w
    → IsBytes buf
    → h < length xs
    → splice (w * h) buf (pack w xs) ≡ pack w (set xs h (from_le buf))
unfolding pack
splice-pack w h buf [] len bytes lt = absurd (omega arith)
splice-pack w zero buf (x ∷ xs) len bytes lt =
    let z : w * 0 ≡ 0 = omega arith in
    let whole : le_bytes w (from_le buf) ≡ buf = rw len at (le_bytes-from_le buf bytes) in
    rw (z, whole) (splice_left buf (le_bytes w x) (pack w xs) (rw (length-le_bytes w x) len))
splice-pack w (suc h) buf (x ∷ xs) len bytes lt =
    let e : w * suc h ≡ length (le_bytes w x) + w * h = rw (length-le_bytes w x) (grind arith) in
    rw e (
      splice_right (w * h) buf (le_bytes w x) (pack w xs)
      ∙ ap (λ t. le_bytes w x ++ t) (splice-pack w h buf xs len bytes (omega arith)))

take-IsBytes : (n : ℕ) (bs : List ℕ) → IsBytes bs → IsBytes (take n bs)
take-IsBytes zero bs h = tt
take-IsBytes (suc n) [] h = tt
take-IsBytes (suc n) (b ∷ bs) h = (h.0, take-IsBytes n bs h.1)

drop-IsBytes : (n : ℕ) (bs : List ℕ) → IsBytes bs → IsBytes (drop n bs)
drop-IsBytes zero bs h = h
drop-IsBytes (suc n) [] h = tt
drop-IsBytes (suc n) (b ∷ bs) h = drop-IsBytes n bs h.1

-- Words made of `w` bytes fit `w` bytes.
pub unpack-AllBelow :
    (w n : ℕ) (bs : List ℕ) → IsBytes bs → length bs ≡ w * n → AllBelow (256 ^ w) (unpack w n bs)
unfolding unpack
unpack-AllBelow w zero bs h len = tt
unpack-AllBelow w (suc n) bs h len =
    let e : w * suc n ≡ w + w * n = grind arith in
    let front : length (take w bs) ≡ w = omega (arith, length-take w bs) in
    let rest : length (drop w bs) ≡ w * n = omega (arith, length-drop w bs) in
    (
      rw front at (from_le-lt (take w bs) (take-IsBytes w bs h)),
      unpack-AllBelow w n (drop w bs) (drop-IsBytes w bs h) rest,
    )

pub length-unpack : (w n : ℕ) (bs : List ℕ) → length (unpack w n bs) ≡ n
unfolding unpack
length-unpack w zero bs = refl
length-unpack w (suc n) bs = ap suc (length-unpack w n (drop w bs))

pub pack-unpack :
    (w n : ℕ) (bs : List ℕ) → IsBytes bs → length bs ≡ w * n → pack w (unpack w n bs) ≡ bs
unfolding unpack pack
pack-unpack w zero [] h len = refl
pack-unpack w zero (b ∷ bs) h len = absurd (omega arith)
pack-unpack w (suc n) bs h len =
    let e : w * suc n ≡ w + w * n = grind arith in
    let front : length (take w bs) ≡ w = omega (arith, length-take w bs) in
    let rest : length (drop w bs) ≡ w * n = omega (arith, length-drop w bs) in
    let word : le_bytes w (from_le (take w bs)) ≡ take w bs =
      rw front at (le_bytes-from_le (take w bs) (take-IsBytes w bs h)) in
    rw (word, pack-unpack w n (drop w bs) (drop-IsBytes w bs h) rest) (take-append-drop w bs)
