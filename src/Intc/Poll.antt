-- ===== src/Intc/Poll.antt =====
-- What the polling of the devices leaves pending.
use m_emu.Base.{
  ℕ, ◌/◌, ◌%◌, ◌^◌, ◌<◌, ◌≡◌, refl, subst, sym, ap, ◌∙◌, Bool, true, false, ◌&&◌, ◌||◌, List, [],
  ◌∷◌, bit_or, length, get_or, length-set, get_or-set, get_or-set_self, ◌==◌, arith,
}
use m_emu.Words.{test_bit-or, test_bit-pow_ne}
use m_emu.Device.{done}
use m_emu.Plic.{RvPliCtrl, set_bit, source_bit, update_ext}
use m_emu.Plic.Claim.{set_bit-source_bit}
use m_emu.Intc.HartLines.{◌>>=◌}
use m_emu.Intc.PlicAdapter.{poll}

source_bit-set_bit :
    (xs : List ℕ) (j i : ℕ)
    → j / 32 < length xs
    → source_bit (set_bit xs (j / 32) (j % 32)) i ≡ (j == i || source_bit xs i)
source_bit-set_bit xs j i lt =
    let w : ℕ = j / 32 in
    let old : ℕ = get_or xs w 0 in
    let new : ℕ = bit_or old (2 ^ (j % 32)) in
    ground (
      arith,
      set_bit-source_bit xs j lt,
      get_or-set_self xs w new lt,
      get_or-set xs w (i / 32) new,
      test_bit-or old (2 ^ (j % 32)) (i % 32),
      test_bit-pow_ne (j % 32) (i % 32),
    )

-- Every number of the map has a word among the `n` words of a bit array.
abbrev pub AllFit : ℕ → List (ℕ × ℕ) → Type 0
AllFit n [] = Unit {0}
AllFit n ((int_id, dev) ∷ rest) = (int_id / 32 < n) × AllFit n rest

-- A device of the map raises the interrupt `i`.
abbrev pub is_raised : (ℕ → Bool) → ℕ → List (ℕ × ℕ) → Bool
is_raised get_irq_status i [] = false
is_raised get_irq_status i ((int_id, dev) ∷ rest) =
    int_id == i && get_irq_status dev || is_raised get_irq_status i rest

pub record Polled (irq : ℕ → Bool) (m : List (ℕ × ℕ)) (p q : RvPliCtrl) : Type 0 where
  pub pending : (i : ℕ) → source_bit q.pending i ≡ (is_raised irq i m || source_bit p.pending i)
  pub count : length q.pending ≡ length p.pending
  pub others : record q { pending = p.pending } ≡ p

update_ext-Polled :
    (irq : ℕ → Bool) (int_id dev : ℕ) (fired : Bool) (p : RvPliCtrl)
    → irq dev ≡ fired
    → int_id / 32 < length p.pending
    → (q : RvPliCtrl) × (update_ext int_id fired p ≡ done q) × Polled irq ((int_id, dev) ∷ []) p q
unfolding update_ext
update_ext-Polled irq int_id dev true p e lt = (
  record p { pending = set_bit p.pending (int_id / 32) (int_id % 32) },
  ground arith,
  record {
    pending = λ i. ground (arith, source_bit-set_bit p.pending int_id i lt);
    count = length-set p.pending _ _;
    others = refl;
  },
)
update_ext-Polled irq int_id dev false p e lt =
    (p, refl, record { pending = λ i. ground arith; count = refl; others = refl })

pub poll-Polled :
    (irq : ℕ → Bool) (m : List (ℕ × ℕ)) (p : RvPliCtrl)
    → AllFit (length p.pending) m
    → (q : RvPliCtrl) × (poll irq m p ≡ done q) × Polled irq m p q
unfolding poll
poll-Polled irq [] p fit = (p, refl, record { pending = λ i. refl; count = refl; others = refl })
poll-Polled irq ((int_id, dev) ∷ rest) p fit =
    let first = update_ext-Polled irq int_id dev (irq dev) p refl fit.0 in
    let q : RvPliCtrl = first.0 in
    let step : Polled irq ((int_id, dev) ∷ []) p q = first.2 in
    let later = poll-Polled irq rest q (subst (λ n. AllFit n rest) (sym step.count) fit.1) in
    let steps : Polled irq rest q later.0 = later.2 in
    (
      later.0,
      ap (λ r. r >>= poll irq rest) first.1 ∙ later.1,
      record {
        pending = λ i. ground (arith, step.pending i, steps.pending i);
        count = steps.count ∙ step.count;
        others =
            ap {A = RvPliCtrl} (λ r. record r { pending = p.pending }) steps.others ∙ step.others;
      },
    )
