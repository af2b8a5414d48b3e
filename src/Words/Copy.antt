-- ===== src/Words/Copy.antt =====
-- Assigning several fields of one word from another: `d->a = s->a; d->b = s->b; ...`.
use m_emu.Base.{
  ℕ, ◌≡◌, refl, ◌∙◌, Bool, true, false, ◌&&◌, ◌||◌, List, [], ◌∷◌, arith, ◌==◌, ◌^◌, ◌≤◌, ◌<◌, ◌+◌,
}
use m_emu.Words.Fields.{
  Field, get_field, set_field, apart, get-set_self, get-set_apart, get-lt, set-lt,
}
use native.Mathlib.Nat.{mod-eq_of_lt}

abbrev pub copy_fields : List Field → ℕ → ℕ → ℕ
copy_fields [] src dst = dst
copy_fields (f ∷ fs) src dst = copy_fields fs src (set_field f (get_field f src) dst)

abbrev pub all_apart : Field → List Field → Bool
all_apart g [] = true
all_apart g (f ∷ fs) = apart f g && all_apart g fs

abbrev same_field : Field → Field → Bool
same_field f g = f.lo == g.lo && f.width == g.width

-- The last assignment that touches `g` is one of `g` as a whole.
abbrev pub copies : Field → List Field → Bool
copies g [] = false
copies g (f ∷ fs) = (same_field f g && all_apart g fs) || copies g fs

abbrev pub AllWithin : ℕ → List Field → Type 0
AllWithin k [] = Unit {0}
AllWithin k (f ∷ fs) = (f.lo + f.width ≤ k) × AllWithin k fs

pub get-copy_apart :
    (g : Field) (fs : List Field) (src dst : ℕ)
    → all_apart g fs ≡ true
    → get_field g (copy_fields fs src dst) ≡ get_field g dst
get-copy_apart g [] src dst h = refl
get-copy_apart g (f ∷ fs) src dst h = ground (
  arith,
  get-copy_apart g fs src (set_field f (get_field f src) dst),
  get-set_apart f g (get_field f src) dst,
)

get-set_same :
    (f g : Field) (src dst : ℕ)
    → same_field f g ≡ true
    → get_field g (set_field f (get_field f src) dst) ≡ get_field g src
get-set_same f g src dst h =
    let e : f ≡ g = ground arith in
    rw e (get-set_self g (get_field g src) dst ∙ mod-eq_of_lt (get-lt g src))

pub get-copy :
    (g : Field) (fs : List Field) (src dst : ℕ)
    → copies g fs ≡ true
    → get_field g (copy_fields fs src dst) ≡ get_field g src
get-copy g [] src dst h = cc
get-copy g (f ∷ fs) src dst h = ground (
  arith,
  get-copy g fs src (set_field f (get_field f src) dst),
  get-copy_apart g fs src (set_field f (get_field f src) dst),
  get-set_same f g src dst,
)

pub copy_fields-lt :
    (fs : List Field) (src dst k : ℕ)
    → AllWithin k fs
    → dst < 2 ^ k
    → copy_fields fs src dst < 2 ^ k
copy_fields-lt [] src dst k h lt = lt
copy_fields-lt (f ∷ fs) src dst k h lt =
    copy_fields-lt fs src (set_field f (get_field f src) dst) k h.1
      (set-lt f (get_field f src) dst k h.0 lt)
