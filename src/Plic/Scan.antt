-- ===== src/Plic/Scan.antt =====
-- The arbitration of get_int: it finds an eligible source of the highest priority, and among
-- several of that priority the one with the lowest number.
use m_emu.Base.{
  ℕ, zero, suc, ◌≤◌, ◌<◌, ◌≡◌, refl, true, false, not, ◌&&◌, ◌⊎◌, inl, inr, set, length, get_or,
  get_or-set_self, arith, ltb, ◌==◌, if◌then◌else◌, Bool-cases,
}
use m_emu.Device.{done}
use m_emu.Plic.Defs.{RvPliCtrl, eligible, better, scan, get_int}

-- Nothing with a positive priority is eligible among the sources 1 to `n`.
abbrev pub IsQuiet : RvPliCtrl → ℕ → ℕ → Type 0
IsQuiet p context_id n =
    (i : ℕ) → 1 ≤ i → i ≤ n → eligible p context_id i ≡ true → get_or p.priority i 0 ≡ 0

-- `id` is the source to be served among the sources 1 to `n`.
pub record IsWinner (p : RvPliCtrl) (context_id n id : ℕ) : Type 0 where
  pub first : 1 ≤ id
  pub last : id ≤ n
  pub fits : eligible p context_id id ≡ true
  pub positive : 0 < get_or p.priority id 0
  pub highest :
      (i : ℕ)
      → 1 ≤ i
      → i ≤ n
      → eligible p context_id i ≡ true
      → get_or p.priority i 0 ≤ get_or p.priority id 0
  pub lowest :
      (i : ℕ)
      → 1 ≤ i
      → i < id
      → eligible p context_id i ≡ true
      → get_or p.priority i 0 < get_or p.priority id 0

abbrev pub Arbitrated : RvPliCtrl → ℕ → ℕ → ℕ → Type 0
Arbitrated p context_id n id = ((id ≡ 0) × IsQuiet p context_id n) ⊎ IsWinner p context_id n id

-- The state `best` of the loop after `n` sources.
abbrev Found : RvPliCtrl → ℕ → ℕ → ℕ × ℕ → Type 0
Found p context_id n best =
    (best.0 ≡ (if best.1 == 0 then 0 else get_or p.priority best.1 0))
    × Arbitrated p context_id n best.1

module _ (p : RvPliCtrl) (context_id n : ℕ) where
  abbrev prio : ℕ → ℕ
  prio i = get_or p.priority i 0

  -- The next source takes the lead.
  take_lead :
      (best : ℕ × ℕ)
      → Found p context_id n best
      → eligible p context_id (suc n) ≡ true
      → best.0 < prio (suc n)
      → IsWinner p context_id (suc n) (suc n)
  take_lead best (b, inl (z, q)) e lt = record {
    first = omega arith;
    last = omega arith;
    fits = e;
    positive = omega arith;
    highest = λ i a l f. elim (Bool-cases (ltb n i)) [
      | inl top ↦ (let same : i ≡ suc n = ground arith in rw same (omega arith))
      | inr below ↦ ground (arith, q i a)
    ];
    lowest = λ i a l f. ground (arith, q i a);
  }
  take_lead best (b, inr w) e lt = record {
    first = omega arith;
    last = omega arith;
    fits = e;
    positive = omega arith;
    highest = λ i a l f. elim (Bool-cases (ltb n i)) [
      | inl top ↦ (let same : i ≡ suc n = ground arith in rw same (omega arith))
      | inr below ↦ ground (arith, w.highest i a, w.first)
    ];
    lowest = λ i a l f. ground (arith, w.highest i a, w.first);
  }

  -- The next source is not eligible, or not above the best.
  keep_lead :
      (best : ℕ × ℕ)
      → Found p context_id n best
      → (eligible p context_id (suc n) ≡ false) ⊎ (prio (suc n) ≤ best.0)
      → Arbitrated p context_id (suc n) best.1
  keep_lead best (b, inl (z, q)) out = inl (
    z,
    λ i a l f. elim (Bool-cases (ltb n i)) [
      | inl top ↦ (let same : i ≡ suc n = ground arith in rw same (last_zero i same f))
      | inr below ↦ q i a (ground arith) f
    ],
  )
    where
      last_zero : (i : ℕ) → i ≡ suc n → eligible p context_id i ≡ true → prio (suc n) ≡ 0
      last_zero i same f = ground arith
  keep_lead best (b, inr w) out = inr (record {
    first = w.first;
    last = omega (arith, w.last);
    fits = w.fits;
    positive = w.positive;
    highest = λ i a l f. elim (Bool-cases (ltb n i)) [
      | inl top ↦ last_below i (ground arith) f
      | inr below ↦ w.highest i a (ground arith) f
    ];
    lowest = w.lowest;
  })
    where
      last_below : (i : ℕ) → i ≡ suc n → eligible p context_id i ≡ true → prio i ≤ prio best.1
      last_below i same f = ground (arith, w.first)

  step-Found :
      (best : ℕ × ℕ)
      → Found p context_id n best
      → Found p context_id (suc n) (better p context_id (suc n) best)
  step-Found best found =
      elim (Bool-cases (eligible p context_id (suc n) && ltb best.0 (prio (suc n)))) [
        | inl yes_better ↦
            rw yes_better (ground arith, inr (take_lead best found (ground arith) (ground arith)))
        | inr not_better ↦ rw not_better (found.0, keep_lead best found (ground arith))
      ]

pub scan-Found : (p : RvPliCtrl) (context_id n : ℕ) → Found p context_id n (scan p context_id n)
unfolding scan
scan-Found p context_id zero = (refl, inl (refl, λ i a l f. absurd (omega arith)))
scan-Found p context_id (suc n) =
    step-Found p context_id n (scan p context_id n) (scan-Found p context_id n)

-- After get_int the claim register of the context holds the source to be served, 0 if there is
-- none, and the result says whether there is one.
pub get_int-Arbitrated :
    (nr_source nr_context context_id : ℕ) (p : RvPliCtrl)
    → context_id < nr_context
    → length p.claim ≡ nr_context
    → (id : ℕ) × (get_int nr_source nr_context context_id p
        ≡ done (record p { claim = set p.claim context_id id }, not (id == 0)))
      × (get_or (set p.claim context_id id) context_id 0 ≡ id)
      × Arbitrated p context_id nr_source id
unfolding get_int
get_int-Arbitrated nr_source nr_context context_id p lt len =
    let id : ℕ = (scan p context_id nr_source).1 in
    (
      id,
      ground arith,
      get_or-set_self p.claim context_id id (omega arith),
      (scan-Found p context_id nr_source).1,
    )
