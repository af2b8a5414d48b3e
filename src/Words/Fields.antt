-- ===== src/Words/Fields.antt =====
-- The bit-fields of the C unions over `uint64_t val`: a field is a position and a width, and is
-- read and assigned inside the word. An assigned value is cut to the width, as C does.
use m_emu.Base.{
  ℕ, zero, suc, ◌+◌, ◌-◌, ◌*◌, ◌/◌, ◌%◌, ◌^◌, ◌≤◌, ◌<◌, ◌≡◌, sym, ◌∙◌, ap, ◌⊎◌, inl, inr, Bool,
  true, ◌||◌, arith, leb,
}
use native.Mathlib.Nat.{
  pow-zero, pow-suc, one-le-pow, add-zero, mul-one, mul_assoc, mod-lt, mul-add-div_right,
  div-eq_of_lt, div-div-eq-div-mul, mul-le-mul_right, mul-add-mod_self_right, div-add-mod',
  mod-eq_of_lt, div-lt_iff_lt-mul, mul-pos,
}

pub record Field : Type 0 where
  pub lo : ℕ
  pub width : ℕ

abbrev pub field : ℕ → ℕ → Field
field lo width = record { lo = lo; width = width }

-- The value of the field `f` of the word `x`.
unfoldable pub get_field : Field → ℕ → ℕ
get_field f x = x / 2 ^ f.lo % 2 ^ f.width

-- The word `x` after its field `f` is assigned `v`.
unfoldable pub set_field : Field → ℕ → ℕ → ℕ
set_field f v x =
    (x / 2 ^ f.lo / 2 ^ f.width * 2 ^ f.width + v % 2 ^ f.width) * 2 ^ f.lo + x % 2 ^ f.lo

-- Two fields of one word share no bit.
abbrev pub apart : Field → Field → Bool
apart f g = leb (f.lo + f.width) g.lo || leb (g.lo + g.width) f.lo

pub pow_pos : (k : ℕ) → 0 < 2 ^ k
pow_pos k = one-le-pow k 2 (omega arith)

pub pow-add : (a b : ℕ) → 2 ^ (a + b) ≡ 2 ^ a * 2 ^ b
pow-add a zero = simp (add-zero, pow-zero, mul-one)
pow-add a (suc b) =
    let e : a + suc b ≡ suc (a + b) = omega arith in
    rw (e, pow-suc 2 (a + b), pow-suc 2 b, pow-add a b) (mul_assoc _ _ _)

pub get-lt : (f : Field) (x : ℕ) → get_field f x < 2 ^ f.width
unfolding get_field
get-lt f x = mod-lt _ (pow_pos f.width)

-- What stands above and below the field.
set_high :
    (f : Field) (v x : ℕ)
    → set_field f v x / 2 ^ f.lo ≡ x / 2 ^ f.lo / 2 ^ f.width * 2 ^ f.width + v % 2 ^ f.width
unfolding set_field
set_high f v x = rw (
  mul-add-div_right (pow_pos f.lo) _ (x % 2 ^ f.lo),
  div-eq_of_lt (mod-lt x (pow_pos f.lo)),
  add-zero,
)

set_low : (f : Field) (v x : ℕ) → set_field f v x % 2 ^ f.lo ≡ x % 2 ^ f.lo
unfolding set_field
set_low f v x = mul-add-mod_self_right _ _ _ ∙ mod-eq_of_lt (mod-lt x (pow_pos f.lo))

set_above :
    (f : Field) (v x : ℕ) → set_field f v x / 2 ^ f.lo / 2 ^ f.width ≡ x / 2 ^ f.lo / 2 ^ f.width
set_above f v x = rw (
  set_high f v x,
  mul-add-div_right (pow_pos f.width) _ (v % 2 ^ f.width),
  div-eq_of_lt (mod-lt v (pow_pos f.width)),
  add-zero,
)

pub get-set_self : (f : Field) (v x : ℕ) → get_field f (set_field f v x) ≡ v % 2 ^ f.width
unfolding get_field
get-set_self f v x =
    rw (set_high f v x) (mul-add-mod_self_right _ _ _ ∙ mod-eq_of_lt (mod-lt v (pow_pos f.width)))

-- A field above: only `x / 2 ^ (lo + width)` counts.
get_above :
    (f g : Field) (x : ℕ)
    → f.lo + f.width ≤ g.lo
    → get_field g x ≡ x / 2 ^ f.lo / 2 ^ f.width / 2 ^ (g.lo - (f.lo + f.width)) % 2 ^ g.width
unfolding get_field
get_above f g x h =
    let e : g.lo ≡ f.lo + f.width + (g.lo - (f.lo + f.width)) = omega arith in
    let p : 2 ^ g.lo ≡ 2 ^ f.lo * 2 ^ f.width * 2 ^ (g.lo - (f.lo + f.width)) =
      ap (λ (t : ℕ). 2 ^ t) e
      ∙ pow-add (f.lo + f.width) _
      ∙ ap (λ (t : ℕ). t * 2 ^ (g.lo - (f.lo + f.width))) (pow-add f.lo f.width) in
    ap (λ (t : ℕ). x / t % 2 ^ g.width) p
    ∙ ap (λ (t : ℕ). t % 2 ^ g.width)
        (sym (div-div-eq-div-mul x (2 ^ f.lo * 2 ^ f.width) _)
          ∙ ap (λ (t : ℕ). t / 2 ^ (g.lo - (f.lo + f.width)))
              (sym (div-div-eq-div-mul x (2 ^ f.lo) (2 ^ f.width))))

-- A field below: only `x % 2 ^ lo` counts.
mod-div-mod : (x a b c : ℕ) → 0 < a → 0 < b → 0 < c → x % (a * b * c) / a % b ≡ x / a % b
mod-div-mod x a b c pa pb pc =
    let n = a * b * c in
    let q = x / n in
    let y = x % n in
    let e₁ : q * n ≡ q * c * b * a = grind arith in
    let e₂ : x ≡ q * c * b * a + y = sym (div-add-mod' x n) ∙ ap (λ (t : ℕ). t + y) e₁ in
    let e₃ : x / a ≡ q * c * b + y / a =
      ap (λ (t : ℕ). t / a) e₂ ∙ mul-add-div_right pa (q * c * b) y in
    sym (ap (λ (t : ℕ). t % b) e₃ ∙ mul-add-mod_self_right (q * c) b (y / a))

get_below :
    (f g : Field) (x : ℕ) → g.lo + g.width ≤ f.lo → get_field g (x % 2 ^ f.lo) ≡ get_field g x
unfolding get_field
get_below f g x h =
    let e : f.lo ≡ g.lo + g.width + (f.lo - (g.lo + g.width)) = omega arith in
    let p : 2 ^ f.lo ≡ 2 ^ g.lo * 2 ^ g.width * 2 ^ (f.lo - (g.lo + g.width)) =
      ap (λ (t : ℕ). 2 ^ t) e
      ∙ pow-add (g.lo + g.width) _
      ∙ ap (λ (t : ℕ). t * 2 ^ (f.lo - (g.lo + g.width))) (pow-add g.lo g.width) in
    ap (λ (t : ℕ). x % t / 2 ^ g.lo % 2 ^ g.width) p
    ∙ mod-div-mod x (2 ^ g.lo) (2 ^ g.width) _ (pow_pos g.lo) (pow_pos g.width) (pow_pos _)

-- Assigning a field leaves every field that is apart from it.
pub get-set_apart :
    (f g : Field) (v x : ℕ) → apart f g ≡ true → get_field g (set_field f v x) ≡ get_field g x
get-set_apart f g v x h =
    let side : (f.lo + f.width ≤ g.lo) ⊎ (g.lo + g.width ≤ f.lo) = ground arith in
    elim side [
      | inl above ↦
          get_above f g (set_field f v x) above
          ∙ ap (λ (t : ℕ). t / 2 ^ (g.lo - (f.lo + f.width)) % 2 ^ g.width) (set_above f v x)
          ∙ sym (get_above f g x above)
      | inr below ↦
          sym (get_below f g (set_field f v x) below)
          ∙ ap (get_field g) (set_low f v x)
          ∙ get_below f g x below
    ]

-- A word of `f.lo + f.width + k` bits stays one.
pub set-lt : (f : Field) (v x k : ℕ) → f.lo + f.width ≤ k → x < 2 ^ k → set_field f v x < 2 ^ k
unfolding set_field
set-lt f v x k h lt =
    let p = 2 ^ f.lo in
    let w = 2 ^ f.width in
    let m = 2 ^ (k - (f.lo + f.width)) in
    let e : 2 ^ k ≡ m * (p * w) =
      ap (λ (t : ℕ). 2 ^ t) (omega arith)
      ∙ pow-add (k - (f.lo + f.width)) (f.lo + f.width)
      ∙ ap (λ (t : ℕ). m * t) (pow-add f.lo f.width) in
    let q = x / (p * w) in
    let q_lt : q < m =
      (div-lt_iff_lt-mul (mul-pos (pow_pos f.lo) (pow_pos f.width))).1 (rw e at lt) in
    let same : x / p / w ≡ q = div-div-eq-div-mul x p w in
    let low : x % p < p = mod-lt x (pow_pos f.lo) in
    let mid : v % w < w = mod-lt v (pow_pos f.width) in
    let q_le : q + 1 ≤ m = omega arith in
    let step : (q * w + v % w + 1) * p ≤ (q + 1) * w * p = mul-le-mul_right p (grind arith) in
    let top : (q + 1) * (w * p) ≤ m * (w * p) = mul-le-mul_right (w * p) q_le in
    rw (e, same) (grind arith)
